-- ===== src/Manager/Mirror.antt =====
-- src/manager.c: the blocks of udisksd, for each of which the daemon exports an overlay at the same
-- path.
pub mod Latest
use udisks_lvm.Base.{
  Bool, true, false, not, Option, none, some, List, [], ◌∷◌, Bytes, str_equal, if◌then◌else◌,
}
use udisks_lvm.Base.Table.{Table, lookup, insert, keep}
use udisks_lvm.Block.{Block, UdevDevice}
use udisks_lvm.Daemon.{Object, block}

-- An interface of an object of udisksd: whether it is UDISKS_IS_BLOCK, its object path, and what it and
-- udev say of the device.
pub record Proxy : Type 0 where
  pub is_block : Bool
  pub object_path : Bytes
  pub device : Bytes
  pub symlinks : List Bytes
  pub udev : Option UdevDevice

-- g_object_new (UL_TYPE_BLOCK, "real-block", ...), and what ul_daemon_publish does with an object: sets
-- its path and exports it, which replaces an object that is exported there.
unfoldable pub overlay : Proxy → Object
overlay interface = block (record {
  object_path = interface.object_path;
  device = interface.device;
  symlinks = interface.symlinks;
  udev = interface.udev;
  iface_physical_volume = none;
  iface_logical_volume = none;
})

unfoldable pub publish_object : Bytes → Object → Table Object → Table Object
publish_object path thing objects = insert path thing objects

-- `ul_daemon_unpublish` with NULL for the thing.
unfoldable pub unpublish_found : Option Object → Bytes → Table Object → Table Object
unpublish_found none path objects = objects
unpublish_found (some thing) path objects = keep (λ p. not (str_equal p path)) objects

unfoldable pub unpublish_all : Bytes → Table Object → Table Object
unfolding unpublish_found
unpublish_all path objects = unpublish_found (lookup path objects) path objects

unfoldable pub on_udisks_interface_added : Proxy → Table Object → Table Object
unfolding publish_object overlay
on_udisks_interface_added interface objects =
    if interface.is_block
    then publish_object interface.object_path (overlay interface) objects
    else objects

unfoldable pub on_udisks_object_added : List Proxy → Table Object → Table Object
unfolding on_udisks_interface_added
on_udisks_object_added [] objects = objects
on_udisks_object_added (i ∷ is) objects =
    on_udisks_object_added is (on_udisks_interface_added i objects)

unfoldable pub on_udisks_interface_removed : Proxy → Table Object → Table Object
unfolding unpublish_all
on_udisks_interface_removed interface objects =
    if interface.is_block then unpublish_all interface.object_path objects else objects

unfoldable pub on_udisks_object_removed : List Proxy → Table Object → Table Object
unfolding on_udisks_interface_removed
on_udisks_object_removed [] objects = objects
on_udisks_object_removed (i ∷ is) objects =
    on_udisks_object_removed is (on_udisks_interface_removed i objects)

-- The part of `ul_manager_init` with a connection to udisksd: the interfaces of all its objects.
unfoldable pub ul_manager_init : List (List Proxy) → Table Object → Table Object
unfolding on_udisks_object_added
ul_manager_init [] objects = objects
ul_manager_init (is ∷ rest) objects = ul_manager_init rest (on_udisks_object_added is objects)

-- The signals of the object manager of udisksd.
pub data Signal : Type 0 where
  object_added object_removed : List Proxy → Signal
  interface_added interface_removed : Proxy → Signal

unfoldable pub handle : Signal → Table Object → Table Object
unfolding on_udisks_object_added on_udisks_object_removed on_udisks_interface_added
    on_udisks_interface_removed
handle (object_added is) objects = on_udisks_object_added is objects
handle (object_removed is) objects = on_udisks_object_removed is objects
handle (interface_added i) objects = on_udisks_interface_added i objects
handle (interface_removed i) objects = on_udisks_interface_removed i objects

unfoldable pub run : List Signal → Table Object → Table Object
unfolding handle
run [] objects = objects
run (s ∷ ss) objects = run ss (handle s objects)
