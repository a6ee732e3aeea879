-- ===== src/Codegen/Opcodes/Lookup.antt =====
-- Which arm of a `match` is taken, where its patterns are distinct.
use ecs_compositor.Prelude.{
  ℕ, zero, suc, ◌≡◌, refl, ap, ◌∙◌, List, [], ◌∷◌, true, false, Option, none, some, arith,
}
use ecs_compositor.Codegen.Opcodes.{Name, same_name, match_variant}

-- The item at an index.
abbrev pub nth : {A : Type 0} → List A → ℕ → Option A
nth [] k = none
nth (x ∷ xs) zero = some x
nth (x ∷ xs) (suc k) = nth xs k

pub same_name_refl : (v : Name) → same_name v v ≡ true
same_name_refl [] = refl
same_name_refl (c ∷ cs) = ground (arith, same_name_refl cs)

module _ {A : Type 0} where
  abbrev pub NewVariant : Name → List (Name × A) → Type 0
  NewVariant v [] = Unit {0}
  NewVariant v ((w, a) ∷ arms) = (same_name w v ≡ false) × NewVariant v arms

  -- No two arms have one variant.
  abbrev pub Distinct : List (Name × A) → Type 0
  Distinct [] = Unit {0}
  Distinct ((v, a) ∷ arms) = NewVariant v arms × Distinct arms

  other_variant :
      (v w : Name) (a : A) (arms : List (Name × A)) (k : ℕ)
      → NewVariant v arms
      → nth arms k ≡ some (w, a)
      → same_name w v ≡ false
  other_variant v w a [] k n e = cc
  other_variant v w a ((u, b) ∷ arms) zero (n, ns) e =
      let p : w ≡ u = cc in ap (λ x. same_name x v) p ∙ n
  other_variant v w a ((u, b) ∷ arms) (suc k) (n, ns) e = other_variant v w a arms k ns e

  pub match_variant-nth :
      (v : Name) (a : A) (arms : List (Name × A)) (k : ℕ)
      → Distinct arms
      → nth arms k ≡ some (v, a)
      → match_variant v arms ≡ some a
  unfolding match_variant
  match_variant-nth v a [] k d e = cc
  match_variant-nth v a ((w, b) ∷ arms) zero d e =
      let p : w ≡ v = cc in rw (ap (same_name v) p ∙ same_name_refl v) cc
  match_variant-nth v a ((w, b) ∷ arms) (suc k) (n, d) e =
      rw (other_variant w v a arms k n e) (match_variant-nth v a arms k d e)
