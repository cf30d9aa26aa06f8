-- ===== src/Block.antt =====
-- src/block.c: the overlay of a udisks block object. `ul_block_get_udev`, the device file and the
-- symbolic links come from udev and from the main daemon, and are fields here.
pub mod Balance
use udisks_lvm.Base.{
  ℕ, Bool, Option, none, some, List, [], ◌∷◌, ◌++◌, Bytes, codes, if◌then◌else◌, ◌≡◌, refl,
}
use udisks_lvm.Bus.{Action, publish, unpublish, physical_volume_block, logical_volume_block}
use udisks_lvm.Variant.{Dict}
use udisks_lvm.PhysicalVolume.{PhysicalVolume}
use udisks_lvm.PhysicalVolume
use udisks_lvm.Util.Host.{History, Host, Outcome, returned, raised, Prog, open_readonly}

-- The udev properties that the program reads.
pub record UdevDevice : Type 0 where
  pub dm_vg_name : Option Bytes
  pub dm_lv_name : Option Bytes
  pub id_fs_type : Option Bytes

pub record Block : Type 0 where
  pub object_path : Bytes
  pub device : Bytes
  pub symlinks : List Bytes
  pub udev : Option UdevDevice
  pub iface_physical_volume : Option PhysicalVolume
  -- the object path of the logical volume, if the interface is there
  pub iface_logical_volume : Option (Option Bytes)

-- `ul_block_is_unused`
unfoldable pub is_unused : Host → Block → Prog (Unit {0})
is_unused host self h =
    let h' = open_readonly self.device ∷ h in
    if host.opens_readonly h self.device
    then returned tt h'
    else raised
        (codes "Error opening device " ++ (self.device ++ (codes ": " ++ host.errno_text h'))) h'

lv_update : Block → Option (Option Bytes) → Option (Option Bytes) → Block × List Action
lv_update self none none = (self, [])
lv_update self none (some old) = (
  record self { iface_logical_volume = none },
  unpublish (some self.object_path) logical_volume_block ∷ [],
)
lv_update self (some path) (some old) = (record self { iface_logical_volume = some path }, [])
lv_update self (some path) none = (
  record self { iface_logical_volume = some path },
  publish (some self.object_path) logical_volume_block ∷ [],
)

-- `ul_block_update_lv`; the argument is the object path of the logical volume, or `none` for NULL.
unfoldable pub update_lv : Block → Option (Option Bytes) → Block × List Action
unfolding lv_update
update_lv self lv = lv_update self lv self.iface_logical_volume

pv_update : Block → Option (Option Bytes × Dict) → Option PhysicalVolume → Block × List Action
pv_update self (some (group, info)) none = (
  record self {
    iface_physical_volume = some (PhysicalVolume.update PhysicalVolume.new group info);
  },
  publish (some self.object_path) physical_volume_block ∷ [],
)
pv_update self (some (group, info)) (some pv) =
    (record self { iface_physical_volume = some (PhysicalVolume.update pv group info) }, [])
pv_update self none (some pv) = (
  record self { iface_physical_volume = none },
  unpublish (some self.object_path) physical_volume_block ∷ [],
)
pv_update self none none = (self, [])

-- `ul_block_update_pv`; the argument is the object path of the group with the information on the
-- physical volume, or `none` for NULL.
unfoldable pub update_pv : Block → Option (Option Bytes × Dict) → Block × List Action
unfolding pv_update
update_pv self group = pv_update self group self.iface_physical_volume
