-- ===== src/Codegen/Opcodes/Known.antt =====
-- The opcodes of an interface number its messages, and count their descriptors.
use ecs_compositor.Prelude.{
  ℕ, zero, suc, ◌+◌, ◌≤◌, ◌≡◌, refl, ap, ◌∙◌, ◌⊎◌, inl, inr, List, [], ◌∷◌, Bool, true, false, none,
  some, arith, length, ◌==◌, if◌then◌else◌,
}
use ecs_compositor.Codegen.Message.{ArgType, Arg, FieldType, field_type, is_fd, count_fds, message}
use ecs_compositor.Codegen.Opcodes.{
  Name, Message, match_number, number_arms, discriminants, fd_arms, arg_fds, is_fd_type, decoded,
  known, unknown, counted, from_u16, to_u16, fd_count, recv_fd_count,
}
use ecs_compositor.Codegen.Opcodes.Lookup.{nth, NewVariant, Distinct, match_variant-nth}

match_number-known :
    (start i k : ℕ) (m : Message) (ms : List Message)
    → i ≡ start + k
    → nth ms k ≡ some m
    → match_number i (number_arms start ms) ≡ some m.variant
unfolding match_number
match_number-known start i k m [] e n = cc
match_number-known start i zero m (x ∷ ms) e n =
    let p : x ≡ m = cc in
    ap (λ t. if t then some x.variant else match_number i (number_arms (start + 1) ms))
      {x = i == start} {y = true} (ground arith)
    ∙ ap (λ (y : Message). some y.variant) p
match_number-known start i (suc k) m (x ∷ ms) e n =
    ap (λ t. if t then some x.variant else match_number i (number_arms (start + 1) ms))
      {x = i == start} {y = false} (ground arith)
    ∙ match_number-known (start + 1) i k m ms (omega arith) n

match_number-unknown :
    (start i : ℕ) (ms : List Message)
    → start + length ms ≤ i
    → match_number i (number_arms start ms) ≡ none
unfolding match_number
match_number-unknown start i [] le = refl
match_number-unknown start i (x ∷ ms) le =
    ap (λ t. if t then some x.variant else match_number i (number_arms (start + 1) ms))
      {x = i == start} {y = false} (ground arith)
    ∙ match_number-unknown (start + 1) i ms (omega arith)

nth-discriminants :
    (start k : ℕ) (m : Message) (ms : List Message)
    → nth ms k ≡ some m
    → nth (discriminants start ms) k ≡ some (m.variant, start + k)
nth-discriminants start k m [] n = cc
nth-discriminants start zero m (x ∷ ms) n =
    let p : x ≡ m = cc in
    ap (λ (y : Message). some (y.variant, start)) p
    ∙ ap (λ j. some (m.variant, j)) {x = start} {y = start + 0} (omega arith)
nth-discriminants start (suc k) m (x ∷ ms) n =
    nth-discriminants (start + 1) k m ms n
    ∙ ap (λ j. some (m.variant, j)) {x = start + 1 + k} {y = start + suc k} (omega arith)

nth-fd_arms :
    (k : ℕ) (m : Message) (ms : List Message)
    → nth ms k ≡ some m
    → nth (fd_arms ms) k ≡ some (m.variant, arg_fds m.args)
nth-fd_arms k m [] n = cc
nth-fd_arms zero m (x ∷ ms) n =
    let p : x ≡ m = cc in ap (λ (y : Message). some (y.variant, arg_fds y.args)) p
nth-fd_arms (suc k) m (x ∷ ms) n = nth-fd_arms k m ms n

NewVariant-discriminants :
    (v : Name) (i : ℕ) (ms : List Message)
    → NewVariant v (fd_arms ms)
    → NewVariant v (discriminants i ms)
NewVariant-discriminants v i [] n = tt
NewVariant-discriminants v i (m ∷ ms) (n, ns) = (n, NewVariant-discriminants v (i + 1) ms ns)

Distinct-discriminants :
    (i : ℕ) (ms : List Message) → Distinct (fd_arms ms) → Distinct (discriminants i ms)
Distinct-discriminants i [] d = tt
Distinct-discriminants i (m ∷ ms) (n, d) =
    (NewVariant-discriminants m.variant (i + 1) ms n, Distinct-discriminants (i + 1) ms d)

-- A number is that of a message, or of none.
nth_cases : {A : Type 0} (xs : List A) (k : ℕ) → ((x : A) × (nth xs k ≡ some x)) ⊎ (length xs ≤ k)
nth_cases [] k = inr (omega arith)
nth_cases (x ∷ xs) zero = inl (x, refl)
nth_cases (x ∷ xs) (suc k) = elim (nth_cases xs k) [
  | inl found ↦ inl found
  | inr le ↦ inr (omega arith)
]

-- The opcode `i` is that of the message `m`.
pub record IsOpcode (ms : List Message) (i : ℕ) (m : Message) : Type 0 where
  pub decodes : from_u16 ms i ≡ known m.variant
  pub encodes : to_u16 ms m.variant ≡ some i
  pub counts : recv_fd_count ms i ≡ some (arg_fds m.args)

pub nth-IsOpcode :
    (ms : List Message) (i : ℕ) (m : Message)
    → Distinct (fd_arms ms)
    → nth ms i ≡ some m
    → IsOpcode ms i m
unfolding from_u16 to_u16 recv_fd_count fd_count
nth-IsOpcode ms i m d n =
    let number = match_number-known 0 i i m ms (omega arith) n in
    record {
      decodes = ap (decoded i) number;
      encodes =
          match_variant-nth m.variant (0 + i) (discriminants 0 ms) i (Distinct-discriminants 0 ms d)
            (nth-discriminants 0 i m ms n)
          ∙ ap some {x = 0 + i} {y = i} (omega arith);
      counts =
          ap (λ v. counted ms (decoded i v)) number
          ∙ match_variant-nth m.variant (arg_fds m.args) (fd_arms ms) i d (nth-fd_arms i m ms n);
    }

-- For an interface whose messages have distinct variants, every number is either the opcode of the
-- message at its place, which it is decoded to, which is encoded as it and whose descriptors are
-- counted for it; or it is not below the number of messages, is given back as unknown, and has no
-- count.
pub opcodes_cases :
    (ms : List Message) (i : ℕ)
    → Distinct (fd_arms ms)
    → ((m : Message) × (nth ms i ≡ some m) × IsOpcode ms i m)
      ⊎ ((length ms ≤ i) × (from_u16 ms i ≡ unknown i) × (recv_fd_count ms i ≡ none))
unfolding from_u16 recv_fd_count
opcodes_cases ms i d = elim (nth_cases ms i) [
  | inl (m, n) ↦ inl (m, n, nth-IsOpcode ms i m d n)
  | inr le ↦
      let number = match_number-unknown 0 i ms (omega arith) in
      inr (le, ap (decoded i) number, ap (λ v. counted ms (decoded i v)) number)
]

-- The fields of a struct have the types of the arguments.
abbrev pub HasTypes : List Arg → List FieldType → Type 0
HasTypes [] [] = Unit {0}
HasTypes [] (t ∷ ts) = ⊥
HasTypes (arg ∷ args) [] = ⊥
HasTypes (arg ∷ args) (t ∷ ts) = (field_type arg ≡ some t) × HasTypes args ts

from_some : (f t : FieldType) → some f ≡ some t → is_fd f ≡ is_fd t
from_some f t e = let p : f ≡ t = cc in ap is_fd p

same_fd :
    (typ : ArgType) (has null : Bool) (t : FieldType)
    → field_type (record { typ = typ; has_interface = has; allow_null = null }) ≡ some t
    → is_fd_type typ ≡ is_fd t
unfolding field_type
same_fd ArgType.int has true t e = cc
same_fd ArgType.int has false t e = from_some FieldType.int t e
same_fd ArgType.uint has true t e = cc
same_fd ArgType.uint has false t e = from_some FieldType.uint t e
same_fd ArgType.fixed has true t e = cc
same_fd ArgType.fixed has false t e = from_some FieldType.fixed t e
same_fd ArgType.array has true t e = cc
same_fd ArgType.array has false t e = from_some FieldType.array t e
same_fd ArgType.fd has true t e = cc
same_fd ArgType.fd has false t e = from_some FieldType.fd t e
same_fd ArgType.new_id true true t e = cc
same_fd ArgType.new_id false true t e = cc
same_fd ArgType.new_id true false t e = from_some FieldType.new_id t e
same_fd ArgType.new_id false false t e = from_some FieldType.new_id_dyn t e
same_fd ArgType.string has true t e = from_some FieldType.option_string t e
same_fd ArgType.string has false t e = from_some FieldType.string t e
same_fd ArgType.object has true t e = from_some FieldType.option_object t e
same_fd ArgType.object has false t e = from_some FieldType.object t e

arg_fds-count_fds :
    (args : List Arg) (ts : List FieldType) → HasTypes args ts → arg_fds args ≡ count_fds ts
unfolding arg_fds count_fds
arg_fds-count_fds [] [] h = refl
arg_fds-count_fds [] (t ∷ ts) h = absurd h
arg_fds-count_fds (arg ∷ args) [] h = absurd h
arg_fds-count_fds (arg ∷ args) (t ∷ ts) (e, h) =
    ap (λ b. if b then suc (arg_fds args) else arg_fds args)
      (same_fd arg.typ arg.has_interface arg.allow_null t e)
    ∙ ap (λ n. if is_fd t then suc n else n) (arg_fds-count_fds args ts h)

-- For an interface whose messages have distinct variants, the number of descriptors that a
-- receiver takes for an opcode is the one that the struct of that message announces, which is
-- generated elsewhere.
pub recv_fd_count-message :
    (ms : List Message) (i : ℕ) (m : Message) (ts : List FieldType)
    → Distinct (fd_arms ms)
    → nth ms i ≡ some m
    → HasTypes m.args ts
    → recv_fd_count ms i ≡ some (message ts).fd_count
unfolding message
recv_fd_count-message ms i m ts d n h =
    (nth-IsOpcode ms i m d n).counts ∙ ap some (arg_fds-count_fds m.args ts h)
