-- ===== src/VolumeGroup/Blocks.antt =====
-- src/volumegroup.c: `update_block`, which links a block to the volume group or the logical volume
-- that it belongs to.
pub mod Records
use udisks_lvm.Base.{
  Bool, true, Option-cases, Bool-cases, inl, inr, ◌⊎◌, ◌↔◌, ◌≢◌, str_equal_iff, subst, sym, false,
  Option, none, some, List, [], ◌∷◌, ◌++◌, Bytes, strcmp0_eq, if◌then◌else◌, ◌≡◌, refl, ap, ◌∙◌,
  arith,
}
use udisks_lvm.Base.Table.{Table, lookup, insert}
use udisks_lvm.Block.{Block, UdevDevice, update_lv, update_pv}
use udisks_lvm.Bus.{Action}
use udisks_lvm.LogicalVolume.{LogicalVolume}
use udisks_lvm.PhysicalVolume.{PhysicalVolume}
use udisks_lvm.PhysicalVolume
use udisks_lvm.Variant.{Dict, lookup_string}

-- The table `new_pvs`, from device file to information; a later entry replaces an earlier one.
unfoldable pub collect_pvs : List Dict → Table Dict → Table Dict
unfolding insert
collect_pvs [] pvs = pvs
collect_pvs (info ∷ infos) pvs =
    collect_pvs infos
      (elim (lookup_string info "device") [ none ↦ pvs | some name ↦ insert name info pvs ])

-- The loop over the symbolic links.
unfoldable pub find_by_symlink : Table Dict → List Bytes → Option Dict
unfolding lookup
find_by_symlink pvs [] = none
find_by_symlink pvs (s ∷ ss) =
    let rest = find_by_symlink pvs ss in elim (lookup s pvs) [ none ↦ rest | some info ↦ some info ]

unfoldable pub find_pv_info : Table Dict → Block → Option Dict
unfolding lookup find_by_symlink
find_pv_info pvs block = elim (lookup block.device pvs) [
  | none ↦ find_by_symlink pvs block.symlinks
  | some info ↦ some info
]

-- The logical volume of the group that the block is, by its udev properties; a device with the name
-- of the group has the name of a volume too.
unfoldable pub volume_of : Bytes → Table LogicalVolume → Option UdevDevice → Option LogicalVolume
unfolding lookup
volume_of group new_lvs none = none
volume_of group new_lvs (some device) =
    if strcmp0_eq device.dm_vg_name (some group)
    then elim device.dm_lv_name [ none ↦ none | some name ↦ lookup name new_lvs ]
    else none

unfoldable pub link_volume : Block → Option LogicalVolume → Block × List Action
link_volume block none = (block, [])
link_volume block (some volume) = update_lv block (some volume.object_path)

-- `pv && g_strcmp0 (lvm_physical_volume_block_get_volume_group (pv), <path>) == 0`
unfoldable pub is_recorded : Option PhysicalVolume → Option Bytes → Bool
is_recorded none group_path = false
is_recorded (some pv) group_path = strcmp0_eq pv.volume_group group_path

unfoldable pub link_group : Option Bytes → Block → Option Dict → Block × List Action
unfolding is_recorded
link_group group_path block (some info) = update_pv block (some (group_path, info))
link_group group_path block none =
    if is_recorded block.iface_physical_volume group_path then update_pv block none else (block, [])

-- `update_block`, of a group with its name and its object path.
unfoldable pub update_block :
    Bytes → Option Bytes → Table LogicalVolume → Table Dict → Block → Block × List Action
unfolding volume_of link_volume find_pv_info link_group
update_block group group_path new_lvs pvs block =
    let (linked, done) = link_volume block (volume_of group new_lvs block.udev) in
    let (last, rest) = link_group group_path linked (find_pv_info pvs linked) in
    (last, done ++ rest)

-- The loop over `ul_daemon_get_blocks`.
unfoldable pub update_blocks :
    Bytes → Option Bytes → Table LogicalVolume → Table Dict → List Block → List Block × List Action
update_blocks group group_path new_lvs pvs [] = ([], [])
update_blocks group group_path new_lvs pvs (block ∷ blocks) =
    let (block', done) = update_block group group_path new_lvs pvs block in
    let (blocks', rest) = update_blocks group group_path new_lvs pvs blocks in
    (block' ∷ blocks', done ++ rest)
