-- ===== src/Codegen/Enums/Entries.antt =====
-- The values and the variants of an enumeration stand for each other.
use ecs_compositor.Prelude.{
  ℕ, zero, suc, ◌≡◌, ◌≢◌, refl, ap, ◌∙◌, ◌⊎◌, inl, inr, List, [], ◌∷◌, Bool-cases, none, some,
  arith, ◌==◌,
}
use ecs_compositor.Codegen.Opcodes.{Name}
use ecs_compositor.Codegen.Opcodes.Lookup.{nth, NewVariant, Distinct, match_variant-nth}
use ecs_compositor.Codegen.Enums.{Entry, variant_arms, from_u32, to_u32, since_version}

nth-variant_arms :
    (f : Entry → ℕ) (es : List Entry) (k : ℕ) (e : Entry)
    → nth es k ≡ some e
    → nth (variant_arms f es) k ≡ some (e.variant, f e)
nth-variant_arms f [] k e n = cc
nth-variant_arms f (x ∷ es) zero e n =
    let p : x ≡ e = cc in ap (λ (y : Entry). some (y.variant, f y)) p
nth-variant_arms f (x ∷ es) (suc k) e n = nth-variant_arms f es k e n

NewVariant-variant_arms :
    (f g : Entry → ℕ) (v : Name) (es : List Entry)
    → NewVariant v (variant_arms f es)
    → NewVariant v (variant_arms g es)
NewVariant-variant_arms f g v [] n = tt
NewVariant-variant_arms f g v (e ∷ es) (n, ns) = (n, NewVariant-variant_arms f g v es ns)

Distinct-variant_arms :
    (f g : Entry → ℕ) (es : List Entry)
    → Distinct (variant_arms f es)
    → Distinct (variant_arms g es)
Distinct-variant_arms f g [] d = tt
Distinct-variant_arms f g (e ∷ es) (n, d) =
    (NewVariant-variant_arms f g e.variant es n, Distinct-variant_arms f g es d)

-- No entry has the value.
abbrev pub NoValue : ℕ → List Entry → Type 0
NoValue i [] = Unit {0}
NoValue i (e ∷ es) = (i ≢ e.value) × NoValue i es

-- The first entry with a value, or none.
from_u32-first :
    (es : List Entry) (i : ℕ)
    → ((k : ℕ) × (e : Entry) × (nth es k ≡ some e)
        × (e.value ≡ i)
        × (from_u32 es i ≡ some e.variant))
      ⊎ (NoValue i es × (from_u32 es i ≡ none))
unfolding from_u32
from_u32-first [] i = inr (tt, refl)
from_u32-first (x ∷ es) i = elim (Bool-cases (i == x.value)) [
  | inl same ↦ inl (0, x, refl, ground (arith, same), rw same refl)
  | inr other ↦ elim (from_u32-first es i) [
    | inl (k, e, n, v, found) ↦ inl (suc k, e, n, v, rw other found)
    | inr (nowhere, found) ↦ inr (((λ e. ground (arith, other)), nowhere), rw other found)
  ]
]

-- For an enumeration with distinct variants, every number is either the value of an entry: it is
-- decoded to its variant, that is encoded as the number and has the version of the entry; or no
-- entry has it as its value, and it is not decoded.
pub from_u32_cases :
    (es : List Entry) (i : ℕ)
    → Distinct (variant_arms (λ e. e.value) es)
    → ((k : ℕ) × (e : Entry) × (nth es k ≡ some e)
        × (from_u32 es i ≡ some e.variant)
        × (to_u32 es e.variant ≡ some i)
        × (since_version es e.variant ≡ some e.since))
      ⊎ (NoValue i es × (from_u32 es i ≡ none))
unfolding to_u32 since_version
from_u32_cases es i d = elim (from_u32-first es i) [
  | inr none_found ↦ inr none_found
  | inl (k, e, n, v, found) ↦ inl (
    k,
    e,
    n,
    found,
    match_variant-nth e.variant e.value (variant_arms (λ x. x.value) es) k d
          (nth-variant_arms (λ x. x.value) es k e n)
        ∙ ap some v,
    match_variant-nth e.variant e.since (variant_arms (λ x. x.since) es) k
        (Distinct-variant_arms (λ x. x.value) (λ x. x.since) es d)
        (nth-variant_arms (λ x. x.since) es k e n),
  )
]
