-- ===== src/Daemon/Publish.antt =====
-- src/daemon.c: `ul_daemon_publish` and `ul_daemon_unpublish`, for interfaces, over the documented
-- behaviour of GDBusObjectManagerServer and GDBusObjectSkeleton.
pub mod Restore
use udisks_lvm.Base.{
  ℕ, Bool, true, false, not, ◌&&◌, Option, none, some, List, [], ◌∷◌, Bytes, str_equal, ◌==◌,
  if◌then◌else◌,
}
use udisks_lvm.Base.Table.{Table, lookup, insert, keep}

-- An interface skeleton: the name of the D-Bus interface, and its address.
pub record Skeleton : Type 0 where
  pub info_name : Bytes
  pub address : ℕ

-- The exported objects by path, each with its interfaces.
abbrev pub Exports : Type 0
Exports = Table (List Skeleton)

unfoldable pub get_interface : Bytes → List Skeleton → Option Skeleton
get_interface name [] = none
get_interface name (i ∷ is) = if str_equal i.info_name name then some i else get_interface name is

unfoldable pub remove_named : Bytes → List Skeleton → List Skeleton
remove_named name [] = []
remove_named name (i ∷ is) = if str_equal i.info_name name then is else i ∷ remove_named name is

-- g_dbus_object_skeleton_add_interface: an interface of the same name is removed first.
unfoldable pub add_interface : Skeleton → List Skeleton → List Skeleton
unfolding remove_named
add_interface thing is = thing ∷ remove_named thing.info_name is

-- The interfaces of the object that is exported: a new one, or the one that is there.
unfoldable pub published_at : Skeleton → Option (List Skeleton) → List Skeleton
unfolding add_interface
published_at thing none = add_interface thing []
published_at thing (some is) = add_interface thing is

-- `ul_daemon_publish` with `uniquely` FALSE, as all its callers have it. An object that is exported
-- takes the place of the one at its path.
unfoldable pub publish : Bytes → Skeleton → Exports → Exports
unfolding published_at
publish path thing exports = insert path (published_at thing (lookup path exports)) exports

-- The loop that sets `unexport`.
unfoldable pub only_this : Skeleton → List Skeleton → Bool
only_this thing [] = true
only_this thing (i ∷ is) = i.address == thing.address && only_this thing is

remove_found : Skeleton → Option Skeleton → List Skeleton → List Skeleton
remove_found thing none is = is
remove_found thing (some i) is =
    if i.address == thing.address then remove_named thing.info_name is else is

-- g_dbus_object_skeleton_remove_interface
unfoldable pub remove_interface : Skeleton → List Skeleton → List Skeleton
unfolding remove_found get_interface
remove_interface thing is = remove_found thing (get_interface thing.info_name is) is

unfoldable pub unpublish_found : Option (List Skeleton) → Bytes → Skeleton → Exports → Exports
unfolding only_this remove_interface
unpublish_found none path thing exports = exports
unpublish_found (some is) path thing exports =
    if only_this thing is
    then keep (λ p. not (str_equal p path)) exports
    else insert path (remove_interface thing is) exports

-- `ul_daemon_unpublish`
unfoldable pub unpublish : Bytes → Skeleton → Exports → Exports
unfolding unpublish_found
unpublish path thing exports = unpublish_found (lookup path exports) path thing exports
