-- ===== src/Accessors/Objects.antt =====
-- src/daemon.c, src/block.c, src/volumegroup.c and src/logicalvolume.c: the properties of the daemon,
-- blocks, volume groups and logical volumes. An object is its address, `none` is NULL.
use udisks_lvm.Accessors.{
  Flags, read_only, read_write, write_once, Outcome, done, warned, aborted, set_once,
}
use udisks_lvm.Base.{ℕ, Bool, true, false, ◌||◌, Option, none, some, Bytes, codes}

-- UlDaemon
pub data DaemonProp : Type 0 where
  connection object_manager resource_dir replace_name persist : DaemonProp

-- `name_flags` by its two flags
pub record DaemonObject : Type 0 where
  pub connection : Option ℕ
  pub object_manager : Option ℕ
  pub resource_dir : Option Bytes
  pub allow_replacement : Bool
  pub replace_name : Bool
  pub persist : Bool

abbrev pub DaemonValue : DaemonProp → Type 0
DaemonValue connection = Option ℕ
DaemonValue object_manager = Option ℕ
DaemonValue resource_dir = Option Bytes
DaemonValue replace_name = Bool
DaemonValue persist = Bool

unfoldable pub daemon_flags : DaemonProp → Flags
daemon_flags connection = write_once
daemon_flags object_manager = read_only
daemon_flags resource_dir = write_once
daemon_flags replace_name = write_once
daemon_flags persist = write_once

-- `ul_daemon_init`
unfoldable pub daemon_init : DaemonObject
daemon_init = record {
  connection = none;
  object_manager = none;
  resource_dir = none;
  allow_replacement = true;
  replace_name = false;
  persist = false;
}

-- `ul_daemon_set_property`
unfoldable pub daemon_set_property :
    (p : DaemonProp) → DaemonValue p → DaemonObject → Outcome DaemonObject
unfolding set_once
daemon_set_property connection value self =
    set_once self.connection (record self { connection = value })
daemon_set_property object_manager value self = warned
daemon_set_property resource_dir value self =
    set_once self.resource_dir (record self { resource_dir = value })
daemon_set_property replace_name value self =
    done (record self { replace_name = self.replace_name || value })
daemon_set_property persist value self = done (record self { persist = value })

-- `ul_daemon_get_property`
unfoldable pub daemon_get_property : (p : DaemonProp) → DaemonObject → Option (DaemonValue p)
daemon_get_property connection self = none
daemon_get_property object_manager self = some self.object_manager
daemon_get_property resource_dir self = none
daemon_get_property replace_name self = none
daemon_get_property persist self = none

-- UlBlock
pub data BlockProp : Type 0 where
  real_block udev_client : BlockProp

pub record BlockObject : Type 0 where
  pub real_block : Option ℕ
  pub udev_client : Option ℕ

abbrev pub BlockValue : BlockProp → Type 0
BlockValue p = Option ℕ

unfoldable pub block_flags : BlockProp → Flags
block_flags p = write_once

unfoldable pub block_init : BlockObject
block_init = record { real_block = none; udev_client = none }

-- `g_assert (field != NULL)` behind the assignment
unfoldable pub not_null : Option ℕ → BlockObject → Outcome BlockObject
not_null none s = aborted
not_null (some address) s = done s

-- `ul_block_set_property`
unfoldable pub block_set_property :
    (p : BlockProp) → BlockValue p → BlockObject → Outcome BlockObject
unfolding not_null
block_set_property real_block value self = not_null value (record self { real_block = value })
block_set_property udev_client value self = not_null value (record self { udev_client = value })

-- UlVolumeGroup
pub data GroupProp : Type 0 where
  name : GroupProp

pub record GroupObject : Type 0 where
  pub name : Option Bytes

abbrev pub GroupValue : GroupProp → Type 0
GroupValue name = Option Bytes

unfoldable pub group_flags : GroupProp → Flags
group_flags name = read_write

-- `ul_volume_group_set_property`
unfoldable pub group_set_property :
    (p : GroupProp) → GroupValue p → GroupObject → Outcome GroupObject
group_set_property name value self = done (record self { name = value })

-- `ul_volume_group_get_property`
unfoldable pub group_get_property : (p : GroupProp) → GroupObject → Option (GroupValue p)
group_get_property name self = some self.name

-- UlLogicalVolume
pub data VolumeProp : Type 0 where
  name group volume_group : VolumeProp

pub record VolumeObject : Type 0 where
  pub name : Option Bytes
  pub volume_group : Option ℕ

abbrev pub VolumeValue : VolumeProp → Type 0
VolumeValue name = Option Bytes
VolumeValue group = Option ℕ
VolumeValue volume_group = Option Bytes

unfoldable pub volume_flags : VolumeProp → Flags
volume_flags name = read_write
volume_flags group = read_write
volume_flags volume_group = read_write

-- `ul_logical_volume_set_volume_group`
unfoldable pub set_volume_group : Option ℕ → VolumeObject → VolumeObject
set_volume_group value self = record self { volume_group = value }

-- `ul_logical_volume_set_property`
unfoldable pub volume_set_property :
    (p : VolumeProp) → VolumeValue p → VolumeObject → Outcome VolumeObject
unfolding set_volume_group
volume_set_property name value self = done (record self { name = value })
volume_set_property group value self = done (set_volume_group value self)
volume_set_property volume_group value self = aborted

-- The value of the property "volume-group", with the object paths of the groups.
unfoldable pub group_path : (ℕ → Option Bytes) → Option ℕ → Option Bytes
group_path path_of none = some (codes "/")
group_path path_of (some address) = path_of address

-- `ul_logical_volume_get_property`
unfoldable pub volume_get_property :
    (ℕ → Option Bytes) → (p : VolumeProp) → VolumeObject → Option (VolumeValue p)
unfolding group_path
volume_get_property path_of name self = some self.name
volume_get_property path_of group self = some self.volume_group
volume_get_property path_of volume_group self = some (group_path path_of self.volume_group)

unfoldable pub group_init : GroupObject
group_init = record { name = none }

unfoldable pub volume_init : VolumeObject
volume_init = record { name = none; volume_group = none }
