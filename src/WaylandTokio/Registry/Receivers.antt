-- ===== src/WaylandTokio/Registry/Receivers.antt =====
-- The map of the tasks that wait for a message, and the invariant of the registry.
use ecs_compositor.Prelude.{
  ℕ, ◌-◌, ◌^◌, ◌<◌, ◌≤◌, ◌≡◌, refl, ap, ◌∙◌, List, [], ◌∷◌, ◌++◌, Option, none, some, arith, ◌==◌,
  if◌then◌else◌, eq→==,
}
use ecs_compositor.WaylandTokio.Registry.{
  Waker, RecvEntry, ReceiverMap, Registry, get, register_entry, register_recv, wake_recver,
  wake_sender, register_send, register_send_locked, new_object, woken, first_other,
}

-- The keys ascend, from above a bound on.
abbrev pub Ascends : ℕ → ReceiverMap → Type 0
Ascends low [] = Unit {0}
Ascends low ((key, entry) ∷ rest) = (low < key) × Ascends key rest

register_entry-Ascends :
    (low id : ℕ) (entry : RecvEntry) (m : ReceiverMap)
    → low < id
    → Ascends low m
    → Ascends low (register_entry id entry m)
unfolding register_entry
register_entry-Ascends low id entry [] h v = (h, tt)
register_entry-Ascends low id entry ((key, old) ∷ rest) h v =
    ground (arith, register_entry-Ascends key id entry rest)

-- The entry of a task that is registered again keeps the function that counts descriptors.
abbrev pub renewed : RecvEntry → Option RecvEntry → RecvEntry
renewed entry none = entry
renewed entry (some old) = record old { waker = entry.waker }

get_above : (low id : ℕ) (m : ReceiverMap) → id ≤ low → Ascends low m → get id m ≡ none
unfolding get
get_above low id [] h v = refl
get_above low id ((key, entry) ∷ rest) h v = ground (arith, get_above key id rest)

get-register_entry :
    (low id j : ℕ) (entry : RecvEntry) (m : ReceiverMap)
    → Ascends low m
    → get j (register_entry id entry m)
      ≡ (if id == j then some (renewed entry (get id m)) else get j m)
unfolding get register_entry
get-register_entry low id j entry [] v = ground arith
get-register_entry low id j entry ((key, old) ∷ rest) v =
    ground (arith, get-register_entry key id j entry rest, get_above key id rest)

pub record IsRegistry (r : Registry) : Type 0 where
  pub next_object : (2 ≤ r.next_id) × (r.next_id ≤ 2 ^ 32 - 1)
  pub ascending : Ascends 0 r.receiver_map

-- The methods that change a registry.
pub data Method : Type 0 where
  new_object_of : Method
  register_recv_of : (id : ℕ) → 0 < id → (ℕ → Option ℕ) → Waker → Method
  register_send_of : Waker → Method
  register_send_locked_of : Waker → Method
  wake_sender_of : Method
  wake_recver_of : Waker → Method

abbrev pub after : Method → Registry → Registry
after new_object_of r = (new_object r).1
after (register_recv_of id nonzero fd_count w) r = register_recv id fd_count w r
after (register_send_of w) r = register_send w r
after (register_send_locked_of w) r = register_send_locked w r
after wake_sender_of r = (wake_sender r).2
after (wake_recver_of cx) r = (wake_recver cx r).1

abbrev pub run_methods : List Method → Registry → Registry
run_methods [] r = r
run_methods (m ∷ methods) r = run_methods methods (after m r)

after-IsRegistry : (m : Method) (r : Registry) → IsRegistry r → IsRegistry (after m r)
unfolding new_object register_recv register_send register_send_locked wake_sender wake_recver
after-IsRegistry new_object_of r v = record {
  next_object = (omega arith, omega arith);
  ascending = v.ascending;
}
after-IsRegistry (register_recv_of id nonzero fd_count w) r v = record {
  next_object = v.next_object;
  ascending =
      register_entry-Ascends 0 id (record { waker = w; fd_count = fd_count }) r.receiver_map nonzero
        v.ascending;
}
after-IsRegistry (register_send_of w) r v = record {
  next_object = v.next_object;
  ascending = v.ascending;
}
after-IsRegistry (register_send_locked_of w) r v = ground arith
after-IsRegistry wake_sender_of r v = ground arith
after-IsRegistry (wake_recver_of cx) r v = record {
  next_object = v.next_object;
  ascending = v.ascending;
}

-- A registry whose next id is between 2 and the largest `u32`, with its receivers under ascending
-- ids that are not 0, stays one, whatever methods are called on it with ids that are not 0.
pub run_methods-IsRegistry :
    (methods : List Method) (r : Registry) → IsRegistry r → IsRegistry (run_methods methods r)
run_methods-IsRegistry [] r v = v
run_methods-IsRegistry (m ∷ methods) r v =
    run_methods-IsRegistry methods (after m r) (after-IsRegistry m r v)

first_other-least :
    (low id cx : ℕ) (entry : RecvEntry) (m : ReceiverMap)
    → Ascends low m
    → get id m ≡ some entry
    → ((j : ℕ) (e : RecvEntry) → get j m ≡ some e → id ≤ j)
    → first_other cx m ≡ (if entry.waker == cx then [] else entry.waker ∷ [])
unfolding get
first_other-least low id cx entry [] v e least = absurd (ground arith)
first_other-least low id cx entry ((key, old) ∷ rest) v e least =
    ground (arith, least key old, get_above key id rest)

renewed-waker : (entry : RecvEntry) (o : Option RecvEntry) → (renewed entry o).waker ≡ entry.waker
renewed-waker entry none = refl
renewed-waker entry (some old) = refl

-- A receiver is found at its id, with the last waker; the other entries stay.
pub get-register_recv :
    (r : Registry) (id j : ℕ) (fd_count : ℕ → Option ℕ) (w : Waker)
    → IsRegistry r
    → let entry = renewed (record { waker = w; fd_count = fd_count }) (get id r.receiver_map) in
      get j (register_recv id fd_count w r).receiver_map
      ≡ (if id == j then some entry else get j r.receiver_map)
unfolding register_recv
get-register_recv r id j fd_count w v =
    get-register_entry 0 id j (record { waker = w; fd_count = fd_count }) r.receiver_map v.ascending

-- Where a receiver registers with an id that is not 0 and that no other receiver has a smaller one
-- of, the next wake-up of a receiver is for it, unless its own task asks for that; a sender that
-- waits for the lock is woken in front of it.
pub register_recv-dispatch :
    (r : Registry) (id : ℕ) (fd_count : ℕ → Option ℕ) (w cx : Waker)
    → IsRegistry r
    → 0 < id
    → ((j : ℕ) (e : RecvEntry) → get j r.receiver_map ≡ some e → id ≤ j)
    → (wake_recver cx (register_recv id fd_count w r)).0
      ≡ woken r.sender_locked ++ (if w == cx then [] else w ∷ [])
unfolding register_recv wake_recver
register_recv-dispatch r id fd_count w cx v nonzero least =
    ap (λ l. woken r.sender_locked ++ l)
      (first_other-least 0 id cx renewal (register_entry id entry r.receiver_map)
          (register_entry-Ascends 0 id entry r.receiver_map nonzero v.ascending)
          (get-register_recv r id id fd_count w v ∙ rw (eq→== id id refl))
          (λ j e h. ground (arith, get-register_recv r id j fd_count w v, least j e))
        ∙ ap (λ (t : ℕ). if t == cx then [] else t ∷ [])
            (renewed-waker entry (get id r.receiver_map)))
  where
    entry : RecvEntry
    entry = record { waker = w; fd_count = fd_count }

    renewal : RecvEntry
    renewal = renewed entry (get id r.receiver_map)
