-- ===== src/WaylandTokio/Connection/Client/NewIds.antt =====
-- What a client announces for an object that it makes.
use ecs_compositor.Prelude.{◌-◌, ◌^◌, ◌%◌, ◌≤◌, ◌<◌, ◌≡◌, refl, ap, ◌∙◌, length, List, some, arith}
use ecs_compositor.Core.Object.{Object, to_new_id, nonzero}
use ecs_compositor.Core.Object.Law.{nonzero-some}
use ecs_compositor.Core.Header.{NewIdDyn}
use ecs_compositor.Core.Header.Law.{new_id_dyn_format}
use ecs_compositor.WaylandTokio.Registry.{Registry, new_object}
use ecs_compositor.WaylandTokio.Registry.Receivers.{
  Method, run_methods, IsRegistry, run_methods-IsRegistry,
}
use ecs_compositor.WaylandTokio.Connection.Client.{
  Interface, new_object_dyn, dyn_of, with_object, new_client_object, new_object_with_id, object_of,
}

-- After any methods on a registry whose next id is between 2 and the largest `u32`, a client makes
-- an object of an interface whose name has 1 to 2 ^ 32 - 4 bytes, with a version of 32 bits:
-- nothing panics, and the `new_id` that it announces the object with can be written and read back,
-- holds the id of the object and the version, and has the name. The function without a name makes
-- the same object, and so does the one that is given its id.
pub new_object_dyn_lem :
    (methods : List Method) (r : Registry) (i : Interface)
    → IsRegistry r
    → 0 < length i.name
    → length i.name ≤ 2 ^ 32 - 4
    → i.version < 2 ^ 32
    → (n : NewIdDyn) × (o : Object) × ((new_object_dyn i (run_methods methods r)).0 ≡ some (n, o))
      × ((new_client_object (run_methods methods r)).0 ≡ (to_new_id o, o))
      × (new_object_with_id o.id ≡ some o)
      × new_id_dyn_format.IsValid n
      × (n.id ≡ to_new_id o)
      × (n.version ≡ i.version)
      × (n.name.ptr ≡ some i.name)
      × (n.name.len ≡ length i.name)
unfolding new_object_dyn new_client_object new_object_with_id new_object
new_object_dyn_lem methods r i v some_name short small =
    let next = (run_methods-IsRegistry methods r v).next_object in
    let o : Object = record { id = (run_methods methods r).next_id } in
    let n : NewIdDyn = record {
      name = record { ptr = some i.name; len = length i.name };
      version = i.version;
      id = to_new_id o;
    } in
    (
      n,
      o,
      ap (λ l. with_object o (dyn_of i o (nonzero l))) {x = length i.name % 2 ^ 32}
            {y = length i.name} (omega arith)
          ∙ ap (λ l. with_object o (dyn_of i o l)) (nonzero-some (length i.name) some_name),
      refl,
      ap object_of (nonzero-some o.id (omega (arith, next))),
      ((short, omega arith, some_name), small, (omega (arith, next), omega (arith, next))),
      refl,
      refl,
      refl,
      refl,
    )
