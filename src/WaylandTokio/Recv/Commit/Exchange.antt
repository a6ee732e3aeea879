-- ===== src/WaylandTokio/Recv/Commit/Exchange.antt =====
-- What the exchange of the shared word leaves there.
use ecs_compositor.Prelude.{
  ◌%◌, ◌^◌, ◌≡◌, ◌≢◌, refl, sym, ap, subst, ◌∙◌, inl, inr, ◌⊎◌, List, [], ◌∷◌, true, false,
  Bool-cases, Option, none, some, arith, ◌&&◌,
}
use ecs_compositor.WaylandTokio.Recv.{Info, Bufs}
use ecs_compositor.WaylandTokio.Recv.Slots.{RecvHandle}
use ecs_compositor.WaylandTokio.Recv.Commit.{
  same_info, is_none, new_wait, Committed, committed, looping, exchange_loop,
}

pub same_info-eq : (i j : Info) → same_info i j ≡ true → i ≡ j
unfolding same_info
same_info-eq i j e = ground arith

same_info_refl : (i : Info) → same_info i i ≡ true
unfolding same_info
same_info_refl i = ground arith

ne_of_other : (met wait : Info) → met ≡ wait → same_info met wait ≡ false → ⊥
ne_of_other met wait e other = let same = ap (λ i. same_info i wait) e ∙ same_info_refl wait in cc

abbrev pub Among : Info → List Info → Type 0
Among i [] = ⊥
Among i (j ∷ js) = (i ≡ j) ⊎ Among i js

-- Each exchange met another word than the one before it.
abbrev pub Changes : Info → List Info → Type 0
Changes wait [] = Unit {0}
Changes wait (met ∷ later) = (met ≢ wait) × Changes met later

-- The new word: the positions of the buffers, and the flag of the old one unless there is a handle.
pub record Follows (b : Bufs) (handle : Option RecvHandle) (old new : Info) : Type 0 where
  pub data_pos : new.data_pos ≡ b.recv.da.free % 2 ^ 18
  pub ctrl_pos : new.ctrl_pos ≡ b.recv.ct.free % 2 ^ 10
  pub slot :
      (new.slot_chunk ≡ b.slots_start.chunk % 2 ^ 9)
      × (new.slot_index ≡ b.slots_start.index % 2 ^ 6)
  pub flag : new.all_slots_dead ≡ (old.all_slots_dead && is_none handle)

new_wait-Follows :
    (b : Bufs) (handle : Option RecvHandle) (wait : Info)
    → Follows b handle wait (new_wait b handle wait).0
new_wait-Follows b none wait = record {
  data_pos = refl;
  ctrl_pos = refl;
  slot = (refl, refl);
  flag = ground arith;
}
new_wait-Follows b (some handle) wait = elim (Bool-cases wait.all_slots_dead) [
  | inl dead ↦
      rw dead
        (record { data_pos = refl; ctrl_pos = refl; slot = (refl, refl); flag = ground arith })
  | inr live ↦
      rw live
        (record { data_pos = refl; ctrl_pos = refl; slot = (refl, refl); flag = ground arith })
]

-- How the loop ends, for what the word holds at each exchange.
abbrev pub EndsWell : Bufs → Option RecvHandle → List Info → Info → Committed → Type 0
EndsWell b handle mets wait looping = Changes wait mets
EndsWell b handle mets wait (committed old new) = Among old mets × Follows b handle old new

later-EndsWell :
    (b : Bufs) (handle : Option RecvHandle) (met : Info) (later : List Info) (wait : Info)
    → met ≢ wait
    → (c : Committed) → EndsWell b handle later met c
    → EndsWell b handle (met ∷ later) wait c
later-EndsWell b handle met later wait ne looping e = (ne, e)
later-EndsWell b handle met later wait ne (committed old new) (a, f) = (inr a, f)

-- Whatever the shared word holds at each exchange: the loop replaces a word that an exchange met
-- by one with the positions of the buffers, and with the flag for dead slots of the old word, or
-- without it where there is a handle; it is still looping only if each exchange met a changed
-- word.
pub exchange_loop-EndsWell :
    (mets : List Info) (b : Bufs) (handle : Option RecvHandle) (wait : Info)
    → EndsWell b handle mets wait (exchange_loop mets b handle wait).0
unfolding exchange_loop
exchange_loop-EndsWell [] b handle wait = tt
exchange_loop-EndsWell (met ∷ later) b handle wait = elim (Bool-cases (same_info met wait)) [
  | inl same ↦
      let e = same_info-eq met wait same in
      rw same (
        inl refl,
        subst (λ old. Follows b handle old (new_wait b handle wait).0) (sym e)
            (new_wait-Follows b handle wait),
      )
  | inr other ↦ rw other (
      later-EndsWell b handle met later wait (λ e. ne_of_other met wait e other)
        (exchange_loop later b handle met).0 (exchange_loop-EndsWell later b handle met))
]

-- The word is left alone for two exchanges in a row.
abbrev pub IsQuiet : List Info → Type 0
IsQuiet [] = ⊥
IsQuiet (met ∷ []) = ⊥
IsQuiet (met ∷ again ∷ later) = (met ≡ again) ⊎ IsQuiet (again ∷ later)

same_first :
    (met : Info) (later : List Info) (b : Bufs) (handle : Option RecvHandle) (wait : Info)
    → met ≡ wait
    → (exchange_loop (met ∷ later) b handle wait).0 ≢ looping
unfolding exchange_loop
same_first met later b handle wait e =
    rw (ap (λ i. same_info i wait) e ∙ same_info_refl wait) (λ k. cc)

-- The loop ends once the word is left alone for two exchanges in a row.
pub exchange_loop_quiet :
    (mets : List Info) (b : Bufs) (handle : Option RecvHandle) (wait : Info)
    → IsQuiet mets
    → (exchange_loop mets b handle wait).0 ≢ looping
unfolding exchange_loop
exchange_loop_quiet [] b handle wait q = absurd q
exchange_loop_quiet (met ∷ []) b handle wait q = absurd q
exchange_loop_quiet (met ∷ again ∷ later) b handle wait q = elim (Bool-cases (same_info met wait)) [
  | inl same ↦ rw same (λ e. cc)
  | inr other ↦ rw other (elim q [
    | inl e ↦ same_first again later b handle met (sym e)
    | inr r ↦ exchange_loop_quiet (again ∷ later) b handle met r
  ])
]
