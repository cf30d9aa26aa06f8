-- ===== src/Daemon.antt =====
-- src/daemon.c: the objects that the daemon exports, and how they are found.
pub mod Lifecycle
pub mod Publish
pub mod Reader
pub mod JobObjects
use udisks_lvm.Base.{Bool, true, false, Option, none, some, List, [], ◌∷◌, Bytes, if◌then◌else◌}
use udisks_lvm.Base.Table.{Table, lookup}
use udisks_lvm.Block.{Block}

-- An interface that an object has: a logical volume with its name, a volume group, a job, the manager.
pub data Interface : Type 0 where
  logical_volume : Bytes → Interface
  volume_group : Bytes → Interface
  job manager : Interface

-- A `UlBlock`, or an object skeleton with its interfaces.
pub data Object : Type 0 where
  block : Block → Object
  skeleton : List Interface → Object

-- The types that things are asked for by; `invalid` is G_TYPE_INVALID.
pub data ThingType : Type 0 where
  invalid block_type logical_volume_type job_type : ThingType

pub data Found : Type 0 where
  object : Object → Found
  interface : Interface → Found

-- G_TYPE_CHECK_INSTANCE_TYPE, of an object and of an interface.
unfoldable pub object_has_type : ThingType → Object → Bool
object_has_type block_type (block b) = true
object_has_type _ _ = false

unfoldable pub interface_has_type : ThingType → Interface → Bool
interface_has_type logical_volume_type (logical_volume name) = true
interface_has_type job_type job = true
interface_has_type _ _ = false

unfoldable pub interfaces_of : Object → List Interface
interfaces_of (block b) = []
interfaces_of (skeleton interfaces) = interfaces

unfoldable pub find_interface : ThingType → List Interface → Option Found
unfolding interface_has_type
find_interface type_of_thing [] = none
find_interface type_of_thing (i ∷ is) =
    if interface_has_type type_of_thing i
    then some (interface i)
    else find_interface type_of_thing is

unfoldable pub thing_of : ThingType → Object → Option Found
unfolding object_has_type find_interface interfaces_of
thing_of invalid found = some (object found)
thing_of type_of_thing found =
    if object_has_type type_of_thing found
    then some (object found)
    else find_interface type_of_thing (interfaces_of found)

found_thing : ThingType → Option Object → Option Found
unfolding thing_of
found_thing type_of_thing none = none
found_thing type_of_thing (some found) = thing_of type_of_thing found

-- `ul_daemon_find_thing`
unfoldable pub find_thing : Table Object → Bytes → ThingType → Option Found
unfolding found_thing
find_thing objects path type_of_thing = found_thing type_of_thing (lookup path objects)

-- The loop of `ul_daemon_get_blocks`, which prepends.
unfoldable pub collect_blocks : List Object → List Block → List Block
collect_blocks [] blocks = blocks
collect_blocks (block b ∷ objects) blocks = collect_blocks objects (b ∷ blocks)
collect_blocks (skeleton is ∷ objects) blocks = collect_blocks objects blocks

unfoldable pub get_blocks : List Object → List Block
unfolding collect_blocks
get_blocks objects = collect_blocks objects []

-- The loop of `ul_daemon_get_jobs`, which tests the objects.
unfoldable pub collect_jobs : List Object → List Object → List Object
unfolding object_has_type
collect_jobs [] jobs = jobs
collect_jobs (o ∷ objects) jobs =
    collect_jobs objects (if object_has_type job_type o then o ∷ jobs else jobs)

unfoldable pub get_jobs : List Object → List Object
unfolding collect_jobs
get_jobs objects = collect_jobs objects []

-- The block that a path leads to, where a `UlBlock` is asked for.
unfoldable pub as_block : Option Found → Option Block
as_block (some (object (block b))) = some b
as_block _ = none

-- The name of the logical volume that a path leads to.
unfoldable pub as_logical_volume : Option Found → Option Bytes
as_logical_volume (some (interface (logical_volume name))) = some name
as_logical_volume _ = none
