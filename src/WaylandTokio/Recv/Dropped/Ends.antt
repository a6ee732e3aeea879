-- ===== src/WaylandTokio/Recv/Dropped/Ends.antt =====
-- What a drop leaves in the two shared words.
use ecs_compositor.Prelude.{◌≡◌, ◌⊎◌, List, [], ◌∷◌}
use ecs_compositor.WaylandTokio.Recv.{Info}
use ecs_compositor.WaylandTokio.Recv.Dropped.{
  all_slots_dead, Freed, DropEnd, handed_over, marked, looping, Dropping, mark_dead,
}

-- Words with the same positions of data and descriptors, and the same flag.
pub record SameEnd (i j : Info) : Type 0 where
  pub data_pos : i.data_pos ≡ j.data_pos
  pub ctrl_pos : i.ctrl_pos ≡ j.ctrl_pos
  pub flag : i.all_slots_dead ≡ j.all_slots_dead

abbrev pub AllSameEnd : Info → List Info → Type 0
AllSameEnd free [] = Unit {0}
AllSameEnd free (w ∷ ws) = SameEnd w free × AllSameEnd free ws

-- The word was marked as an exchange met it.
abbrev pub Met : Info → List (Info × Freed) → Type 0
Met old [] = ⊥
Met old ((met, freed) ∷ later) = (old ≡ met) ⊎ Met old later

abbrev pub MarkedWell : List (Info × Freed) → DropEnd → Type 0
MarkedWell rounds handed_over = Unit {0}
MarkedWell rounds looping = Unit {0}
MarkedWell rounds (marked old new) = Met old rounds × (new ≡ mark_dead old)

-- All that is stored has the end of the handle.
abbrev pub DroppedWell : List (Info × Freed) → Info → Dropping → Type 0
DroppedWell rounds free d = MarkedWell rounds d.end × AllSameEnd free d.stores

-- The word is only marked behind a store.
abbrev pub StoredFirst : DropEnd → List Info → Type 0
StoredFirst handed_over ws = Unit {0}
StoredFirst looping ws = Unit {0}
StoredFirst (marked old new) [] = ⊥
StoredFirst (marked old new) (w ∷ ws) = Unit {0}
