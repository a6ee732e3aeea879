-- ===== src/WaylandTokio/Connection/Client.antt =====
-- The objects that a client makes (`ClientHandle` of
-- crates/wayland-tokio/src/connection/mod.rs, and `Object` of connection/obj.rs).
--
-- A handle of a connection is the connection: an object is its id. The registry is locked by each
-- function for as long as it makes an id.
pub mod NewIds
use ecs_compositor.Prelude.{ℕ, ◌^◌, ◌%◌, List, length, Option, none, some}
use ecs_compositor.Core.Object.{Object, NewId, to_new_id, nonzero}
use ecs_compositor.Core.Header.{NewIdDyn}
use ecs_compositor.WaylandTokio.Registry.{Registry, new_object}

-- The constants of an interface: the bytes of its name, and its version.
pub record Interface : Type 0 where
  pub name : List ℕ
  pub version : ℕ

-- A panic is `none`.
abbrev pub object_of : Option ℕ → Option Object
object_of (some id) = some (record { id = id })
object_of none = none

unfoldable pub new_object_with_id : ℕ → Option Object
new_object_with_id id = object_of (nonzero id)

abbrev pub object_made : ℕ × Registry → Object × Registry
object_made (id, r) = (record { id = id }, r)

abbrev pub with_new_id : Object × Registry → (NewId × Object) × Registry
with_new_id (obj, r) = ((to_new_id obj, obj), r)

unfoldable pub new_client_object : Registry → (NewId × Object) × Registry
new_client_object r = with_new_id (object_made (new_object r))

abbrev pub dyn_of : Interface → Object → Option ℕ → Option NewIdDyn
dyn_of i obj (some len) = some (record {
  name = record { ptr = some i.name; len = len };
  version = i.version;
  id = to_new_id obj;
})
dyn_of i obj none = none

abbrev pub with_object : Object → Option NewIdDyn → Option (NewIdDyn × Object)
with_object obj (some n) = some (n, obj)
with_object obj none = none

abbrev pub with_new_id_dyn : Interface → Object × Registry → Option (NewIdDyn × Object) × Registry
with_new_id_dyn i (obj, r) = (with_object obj (dyn_of i obj (nonzero (length i.name % 2 ^ 32))), r)

-- `as u32` keeps the length of the name below 2 ^ 32. The id is made before the name is looked at.
unfoldable pub new_object_dyn : Interface → Registry → Option (NewIdDyn × Object) × Registry
new_object_dyn i r = with_new_id_dyn i (object_made (new_object r))
