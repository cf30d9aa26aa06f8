-- ===== src/Accessors/Construct/Objects.antt =====
-- What the accessors of src/daemon.c, src/block.c, src/volumegroup.c and src/logicalvolume.c keep in
-- objects.
use udisks_lvm.Accessors.{done}
use udisks_lvm.Accessors.Construct.Fields.{set_once-none}
use udisks_lvm.Accessors.Objects.{
  DaemonProp, connection, object_manager, resource_dir, replace_name, persist, DaemonObject,
  DaemonValue, daemon_init, daemon_set_property, BlockProp, real_block, udev_client, BlockObject,
  BlockValue, block_init, block_set_property, GroupProp, GroupObject, GroupValue,
  group_set_property, VolumeProp, VolumeObject, VolumeValue, volume_set_property,
}
use udisks_lvm.Accessors.Objects as Objects
use udisks_lvm.Base.{◌||◌, none, some, ◌≡◌, ◌≢◌, refl, ap}

-- UlDaemon
abbrev pub daemon_slot : (p : DaemonProp) → DaemonObject → DaemonValue p
daemon_slot connection s = s.connection
daemon_slot object_manager s = s.object_manager
daemon_slot resource_dir s = s.resource_dir
daemon_slot replace_name s = s.replace_name
daemon_slot persist s = s.persist

abbrev pub daemon_put : (p : DaemonProp) → DaemonValue p → DaemonObject → DaemonObject
daemon_put connection v s = record s { connection = v }
daemon_put object_manager v s = record s { object_manager = v }
daemon_put resource_dir v s = record s { resource_dir = v }
daemon_put replace_name v s = record s { replace_name = v }
daemon_put persist v s = record s { persist = v }

abbrev pub DaemonAllowed : (p : DaemonProp) → DaemonValue p → Type 0
DaemonAllowed object_manager v = ⊥
DaemonAllowed p v = Unit

pub daemon_other :
    (p q : DaemonProp) (v : DaemonValue p) (s : DaemonObject)
    → q ≢ p
    → daemon_slot q (daemon_put p v s) ≡ daemon_slot q s
daemon_other connection connection v s h = absurd (h refl)
daemon_other object_manager object_manager v s h = absurd (h refl)
daemon_other resource_dir resource_dir v s h = absurd (h refl)
daemon_other replace_name replace_name v s h = absurd (h refl)
daemon_other persist persist v s h = absurd (h refl)
daemon_other p q v s h = refl

pub daemon_set :
    (p : DaemonProp) (v : DaemonValue p) (s : DaemonObject)
    → DaemonAllowed p v
    → daemon_slot p s ≡ daemon_slot p daemon_init
    → daemon_set_property p v s ≡ done (daemon_put p v s)
unfolding daemon_init daemon_set_property
daemon_set connection v s a e = set_once-none s.connection _ e
daemon_set object_manager v s a e = absurd a
daemon_set resource_dir v s a e = set_once-none s.resource_dir _ e
daemon_set replace_name v s a e = ap (λ b. done (record s { replace_name = b || v })) e
daemon_set persist v s a e = refl

pub daemon_self :
    (p : DaemonProp) (v : DaemonValue p) (s : DaemonObject)
    → DaemonAllowed p v
    → daemon_slot p (daemon_put p v s) ≡ v
daemon_self connection v s a = refl
daemon_self object_manager v s a = absurd a
daemon_self resource_dir v s a = refl
daemon_self replace_name v s a = refl
daemon_self persist v s a = refl

-- UlBlock
abbrev pub block_slot : (p : BlockProp) → BlockObject → BlockValue p
block_slot real_block s = s.real_block
block_slot udev_client s = s.udev_client

abbrev pub block_put : (p : BlockProp) → BlockValue p → BlockObject → BlockObject
block_put real_block v s = record s { real_block = v }
block_put udev_client v s = record s { udev_client = v }

abbrev pub BlockAllowed : (p : BlockProp) → BlockValue p → Type 0
BlockAllowed p v = v ≢ none

pub block_set :
    (p : BlockProp) (v : BlockValue p) (s : BlockObject)
    → BlockAllowed p v
    → block_slot p s ≡ block_slot p block_init
    → block_set_property p v s ≡ done (block_put p v s)
unfolding block_set_property
block_set p none s a e = absurd (a refl)
block_set real_block (some v) s a e = refl
block_set udev_client (some v) s a e = refl

pub block_self :
    (p : BlockProp) (v : BlockValue p) (s : BlockObject)
    → BlockAllowed p v
    → block_slot p (block_put p v s) ≡ v
block_self real_block v s a = refl
block_self udev_client v s a = refl

pub block_other :
    (p q : BlockProp) (v : BlockValue p) (s : BlockObject)
    → q ≢ p
    → block_slot q (block_put p v s) ≡ block_slot q s
block_other real_block real_block v s h = absurd (h refl)
block_other udev_client udev_client v s h = absurd (h refl)
block_other p q v s h = refl

-- UlVolumeGroup
abbrev pub group_slot : (p : GroupProp) → GroupObject → GroupValue p
group_slot Objects.GroupProp.name s = s.name

abbrev pub group_put : (p : GroupProp) → GroupValue p → GroupObject → GroupObject
group_put Objects.GroupProp.name v s = record s { name = v }

pub group_set :
    (p : GroupProp) (v : GroupValue p) (s : GroupObject)
    → group_set_property p v s ≡ done (group_put p v s)
unfolding group_set_property
group_set Objects.GroupProp.name v s = refl

pub group_self :
    (p : GroupProp) (v : GroupValue p) (s : GroupObject) → group_slot p (group_put p v s) ≡ v
group_self Objects.GroupProp.name v s = refl

pub group_other :
    (p q : GroupProp) (v : GroupValue p) (s : GroupObject)
    → q ≢ p
    → group_slot q (group_put p v s) ≡ group_slot q s
group_other Objects.GroupProp.name Objects.GroupProp.name v s h = absurd (h refl)

-- UlLogicalVolume: "volume-group" is no member of its own.
abbrev pub volume_slot : (p : VolumeProp) → VolumeObject → VolumeValue p
volume_slot Objects.VolumeProp.name s = s.name
volume_slot Objects.VolumeProp.group s = s.volume_group
volume_slot Objects.VolumeProp.volume_group s = none

abbrev pub volume_put : (p : VolumeProp) → VolumeValue p → VolumeObject → VolumeObject
volume_put Objects.VolumeProp.name v s = record s { name = v }
volume_put Objects.VolumeProp.group v s = record s { volume_group = v }
volume_put Objects.VolumeProp.volume_group v s = s

abbrev pub VolumeAllowed : (p : VolumeProp) → VolumeValue p → Type 0
VolumeAllowed Objects.VolumeProp.name v = Unit
VolumeAllowed Objects.VolumeProp.group v = Unit
VolumeAllowed Objects.VolumeProp.volume_group v = ⊥

pub volume_set :
    (p : VolumeProp) (v : VolumeValue p) (s : VolumeObject)
    → VolumeAllowed p v
    → volume_set_property p v s ≡ done (volume_put p v s)
unfolding volume_set_property
volume_set Objects.VolumeProp.name v s a = refl
volume_set Objects.VolumeProp.group v s a = refl
volume_set Objects.VolumeProp.volume_group v s a = absurd a

pub volume_self :
    (p : VolumeProp) (v : VolumeValue p) (s : VolumeObject)
    → VolumeAllowed p v
    → volume_slot p (volume_put p v s) ≡ v
volume_self Objects.VolumeProp.name v s a = refl
volume_self Objects.VolumeProp.group v s a = refl
volume_self Objects.VolumeProp.volume_group v s a = absurd a

pub volume_other :
    (p q : VolumeProp) (v : VolumeValue p) (s : VolumeObject)
    → q ≢ p
    → volume_slot q (volume_put p v s) ≡ volume_slot q s
volume_other Objects.VolumeProp.name Objects.VolumeProp.name v s h = absurd (h refl)
volume_other Objects.VolumeProp.group Objects.VolumeProp.group v s h = absurd (h refl)
volume_other p q v s h = refl
