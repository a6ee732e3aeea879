-- ===== src/Codegen/Opcodes/Tests.antt =====
-- The theorems on opcodes and enumerations for an interface with two messages.
use ecs_compositor.Prelude.{ℕ, ◌≤◌, ◌≡◌, ◌⊎◌, refl, [], ◌∷◌, List, false, some, none, Bool, length}
use ecs_compositor.Codegen.Message.{ArgType, Arg, FieldType, message, field_type}
use ecs_compositor.Codegen.Opcodes.{
  Message, fd_arms, from_u16, unknown, recv_fd_count, typ_name, keyword,
}
use ecs_compositor.Codegen.Opcodes.Lookup.{nth, Distinct}
use ecs_compositor.Codegen.Opcodes.Known.{IsOpcode, opcodes_cases, recv_fd_count-message}
use ecs_compositor.Codegen.Enums.{Entry, variant_arms, from_u32, to_u32, since_version}
use ecs_compositor.Codegen.Enums.Entries.{NoValue, from_u32_cases}

abbrev argument : ArgType → Arg
argument t = record { typ = t; has_interface = false; allow_null = false }

-- The variants `a` and `b`; the second message has a descriptor.
abbrev first_message : Message
first_message = record { variant = 97 ∷ []; args = argument ArgType.uint ∷ [] }

abbrev second_message : Message
second_message = record {
  variant = 98 ∷ [];
  args = argument ArgType.fd ∷ argument ArgType.string ∷ [];
}

abbrev both : List Message
both = first_message ∷ second_message ∷ []

both-Distinct : Distinct (fd_arms both)
both-Distinct = ((refl, tt), (tt, tt))

opcodes_cases_example :
    ((m : Message) × (nth both 1 ≡ some m) × IsOpcode both 1 m)
    ⊎ ((length both ≤ 1) × (from_u16 both 1 ≡ unknown 1) × (recv_fd_count both 1 ≡ none))
opcodes_cases_example = opcodes_cases both 1 both-Distinct

recv_fd_count-message_example :
    recv_fd_count both 1 ≡ some (message (FieldType.fd ∷ FieldType.string ∷ [])).fd_count
unfolding field_type
recv_fd_count-message_example =
    recv_fd_count-message both 1 second_message (FieldType.fd ∷ FieldType.string ∷ []) both-Distinct
      refl (refl, (refl, tt))

abbrev entries : List Entry
entries =
    record { variant = 97 ∷ []; value = 4; since = 1 }
    ∷ record { variant = 98 ∷ []; value = 7; since = 2 }
    ∷ []

entries-Distinct : Distinct (variant_arms (λ e. e.value) entries)
entries-Distinct = ((refl, tt), (tt, tt))

from_u32_cases_example :
    ((k : ℕ) × (e : Entry) × (nth entries k ≡ some e)
      × (from_u32 entries 7 ≡ some e.variant)
      × (to_u32 entries e.variant ≡ some 7)
      × (since_version entries e.variant ≡ some e.since))
    ⊎ (NoValue 7 entries × (from_u32 entries 7 ≡ none))
from_u32_cases_example = from_u32_cases entries 7 entries-Distinct

-- A keyword of Rust is prefixed.
abbrev no_digit : ℕ → Bool
no_digit c = false

keyword_prefixed : typ_name no_digit keyword ≡ some (95 ∷ keyword)
unfolding typ_name
keyword_prefixed = refl
