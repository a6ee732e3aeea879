-- ===== src/Codegen/Enums.antt =====
-- crates/codegen/src/generate.rs: the enumerations and bit fields of an interface (`impl_enum` and
-- `impl_bitfield`). Their `read` and `write` are `todo!()`, so they are no `Value` here.
pub mod Entries
use ecs_compositor.Prelude.{ℕ, List, [], ◌∷◌, Option, none, some}
use ecs_compositor.Core.Int.{uint}
use ecs_compositor.Core.Value.{Value}
use ecs_compositor.Codegen.Opcodes.{Name, match_number, match_variant}

-- `Entry`, with the name of its variant.
pub record Entry : Type 0 where
  pub variant : Name
  pub value : ℕ
  pub since : ℕ

abbrev pub value_arms : List Entry → List (ℕ × Name)
value_arms [] = []
value_arms (e ∷ es) = (e.value, e.variant) ∷ value_arms es

abbrev pub variant_arms : (Entry → ℕ) → List Entry → List (Name × ℕ)
variant_arms f [] = []
variant_arms f (e ∷ es) = (e.variant, f e) ∷ variant_arms f es

unfoldable pub from_u32 : List Entry → ℕ → Option Name
unfolding match_number
from_u32 es i = match_number i (value_arms es)

unfoldable pub to_u32 : List Entry → Name → Option ℕ
unfolding match_variant
to_u32 es v = match_variant v (variant_arms (λ e. e.value) es)

unfoldable pub since_version : List Entry → Name → Option ℕ
unfolding match_variant
since_version es v = match_variant v (variant_arms (λ e. e.since) es)

-- `uint(self.to_u32()).len()`.
unfoldable pub enum_len : ℕ → ℕ
enum_len value = uint.len value

-- A bit field keeps all bits.
unfoldable pub bits_from_u32 : ℕ → Option ℕ
bits_from_u32 bits = some bits

unfoldable pub bits_to_u32 : ℕ → ℕ
bits_to_u32 bits = bits
