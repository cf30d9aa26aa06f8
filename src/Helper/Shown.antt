-- ===== src/Helper/Shown.antt =====
-- src/helper.c and its readers in src/volumegroup.c, src/logicalvolume.c and src/physicalvolume.c: the
-- daemon finds in the dictionaries of the helper what lvm2app returned.
use Prim.Native.String.{String}
use udisks_lvm.Base.{
  ℕ, true, Option, some, List, [], ◌∷◌, Bytes, codes, str_equal, map, ◌≡◌, refl, ap,
}
use udisks_lvm.Base.Table.{Table}
use udisks_lvm.Helper.{
  Lv, Pv, Vg, add_string, add_uint64, show_logical_volume, show_physical_volume, show_each, items,
  show_open_group, Lvm, group_info, show_opened, show_volume_group, command, main,
}
use udisks_lvm.Helper.Properties.{value_of, add_props, props_found}
use udisks_lvm.LogicalVolume.{LogicalVolume}
use udisks_lvm.LogicalVolume.Update.{type_of, attr_types, set_ratio, reference_path}
use udisks_lvm.LogicalVolume.Update as Volume
use udisks_lvm.PhysicalVolume.{PhysicalVolume}
use udisks_lvm.PhysicalVolume
use udisks_lvm.Util.Name.{decode_lvm_name}
use udisks_lvm.Variant.{
  Dict, lookup_value, as_string, as_uint64, list_of, as_dicts, lookup_string, lookup_uint64,
  lookup_dicts,
}
use udisks_lvm.VolumeGroup.{VolumeGroup}
use udisks_lvm.VolumeGroup.Update as Group

list_of-show_each :
    {A : Type 0} (show : A → Dict) (xs : List A) → list_of (show_each show xs) ≡ map show xs
unfolding list_of show_each
list_of-show_each show [] = refl
list_of-show_each show (x ∷ xs) = ap (λ ds. show x ∷ ds) (list_of-show_each show xs)

-- A property of lvm2app as a string and as a number.
abbrev pub text : Lv → String → Option Bytes
text lv key = as_string (value_of (lv.get_property key))

abbrev pub number : Lv → String → Option ℕ
number lv key = as_uint64 (value_of (lv.get_property key))

abbrev keys : List String
keys =
    "lv_attr" ∷ "move_pv" ∷ "pool_lv" ∷ "origin" ∷ "data_percent" ∷ "metadata_percent"
    ∷ "copy_percent" ∷ []

-- What a volume is to show.
abbrev pub shown_volume : LogicalVolume → Bytes → Table LogicalVolume → Lv → LogicalVolume
shown_volume volume group volumes lv = record volume {
  volume_group = some group;
  display_name = some (decode_lvm_name lv.lv_name);
  uuid = some lv.lv_uuid;
  size = lv.lv_size;
  type_ = some (type_of (attr_types (text lv "lv_attr")));
  data_allocated_ratio = set_ratio (number lv "data_percent") volume.data_allocated_ratio;
  metadata_allocated_ratio =
      set_ratio (number lv "metadata_percent") volume.metadata_allocated_ratio;
  thin_pool = reference_path volumes (text lv "pool_lv");
  origin = reference_path volumes (text lv "origin");
}

abbrev pub shown_group : VolumeGroup → Vg → VolumeGroup
shown_group self vg = record self {
  display_name = some (decode_lvm_name vg.vg_name);
  uuid = some vg.vg_uuid;
  size = vg.vg_size;
  free_size = vg.vg_free_size;
  extent_size = vg.vg_extent_size;
}

abbrev pub shown_physical : Option Bytes → Pv → PhysicalVolume
shown_physical path pv = record { volume_group = path; size = pv.pv_size; free_size = pv.pv_free }

module _ (lv : Lv) where
  abbrev d : Dict
  d = show_logical_volume lv

  finds :
      (lookup_string d "lv_attr" ≡ text lv "lv_attr")
      × (lookup_string d "pool_lv" ≡ text lv "pool_lv")
      × (lookup_string d "origin" ≡ text lv "origin")
      × (lookup_uint64 d "data_percent" ≡ number lv "data_percent")
      × (lookup_uint64 d "metadata_percent" ≡ number lv "metadata_percent")
  unfolding show_logical_volume add_string add_uint64 add_props lookup_string lookup_uint64
      lookup_value
  finds = (
    ap as_string (props_found lv keys "lv_attr"),
    ap as_string (props_found lv keys "pool_lv"),
    ap as_string (props_found lv keys "origin"),
    ap as_uint64 (props_found lv keys "data_percent"),
    ap as_uint64 (props_found lv keys "metadata_percent"),
  )

  pub finds_name : lookup_string (show_logical_volume lv) "name" ≡ some lv.lv_name
  unfolding show_logical_volume add_string lookup_string lookup_value as_string
  finds_name = refl

  finds_basics :
      (lookup_string d "name" ≡ some lv.lv_name)
      × (lookup_string d "uuid" ≡ some lv.lv_uuid)
      × (lookup_uint64 d "size" ≡ some lv.lv_size)
  unfolding show_logical_volume add_string add_uint64 lookup_string lookup_uint64 lookup_value
      as_string as_uint64
  finds_basics = (refl, refl, refl)

  volume_shown :
      (volume : LogicalVolume) (group : Bytes) (volumes : Table LogicalVolume)
      → Volume.update_props volume group volumes d ≡ shown_volume volume group volumes lv
  unfolding Volume.update_props
  volume_shown volume group volumes =
      let (a, b, c, d, e) = finds in
      let (f, g, h) = finds_basics in rw (a, b, c, d, e, f, g, h) refl

group_shown :
    (vg : Vg) (self : VolumeGroup)
    → (Group.update_props self (show_open_group vg) ≡ shown_group self vg)
      × (Group.infos_of (lookup_dicts (show_open_group vg) "lvs")
          ≡ map show_logical_volume (items vg.list_lvs))
      × (Group.infos_of (lookup_dicts (show_open_group vg) "pvs")
          ≡ map show_physical_volume (items vg.list_pvs))
unfolding Group.update_props show_open_group add_string add_uint64 lookup_string lookup_uint64
    lookup_dicts lookup_value as_string as_uint64 as_dicts
group_shown vg self = (
  refl,
  list_of-show_each show_logical_volume (items vg.list_lvs),
  list_of-show_each show_physical_volume (items vg.list_pvs),
)

physical_shown :
    (pv : Pv) (self : PhysicalVolume) (path : Option Bytes)
    → (PhysicalVolume.update self path (show_physical_volume pv) ≡ shown_physical path pv)
      × (lookup_string (show_physical_volume pv) "device" ≡ some pv.pv_name)
unfolding PhysicalVolume.update show_physical_volume add_string add_uint64 lookup_string
    lookup_uint64 lookup_value as_string as_uint64
physical_shown pv self path = (refl, refl)

-- The arguments with which `ul_volume_group_update` and `poll_now` run the helper.
abbrev pub show_args : Bytes → List Bytes
show_args name = codes "-b" ∷ codes "show" ∷ name ∷ []

printed :
    (lvm : Lvm) (name : Bytes) (vg : Vg)
    → lvm.vg_open name ≡ some vg
    → main lvm (show_args name) ≡ (true, group_info (show_open_group vg))
unfolding main command show_volume_group show_opened str_equal
printed lvm name vg h = ap (λ o. (true, show_opened o)) h

pub reported_volumes :
    (lvm : Lvm) (name : Bytes) (vg : Vg)
    → lvm.vg_open name ≡ some vg
    → (d : Dict) × (main lvm (show_args name) ≡ (true, group_info d))
      × (Group.infos_of (lookup_dicts d "lvs") ≡ map show_logical_volume (items vg.list_lvs))
unfolding show_open_group add_string add_uint64 lookup_dicts lookup_value as_dicts
reported_volumes lvm name vg h = (
  show_open_group vg,
  printed lvm name vg h,
  list_of-show_each show_logical_volume (items vg.list_lvs),
)

-- If lvm2app opens the group, the helper reports it, and the daemon takes from the report what lvm2app
-- has returned: the properties of the group, a report for each of its logical and physical volumes in
-- their order, and from such a report the properties of the volume, with the string and integer
-- properties of lvm2app where they are valid.
pub main-shown :
    (lvm : Lvm) (name : Bytes) (vg : Vg) (self : VolumeGroup) (lv : Lv) (volume : LogicalVolume)
    (group : Bytes) (volumes : Table LogicalVolume) (pv : Pv) (physical : PhysicalVolume)
    (path : Option Bytes)
    → lvm.vg_open name ≡ some vg
    → ((d : Dict) × (main lvm (show_args name) ≡ (true, group_info d))
        × (Group.update_props self d ≡ shown_group self vg)
        × (Group.infos_of (lookup_dicts d "lvs") ≡ map show_logical_volume (items vg.list_lvs))
        × (Group.infos_of (lookup_dicts d "pvs") ≡ map show_physical_volume (items vg.list_pvs)))
      × (Volume.update_props volume group volumes (show_logical_volume lv)
          ≡ shown_volume volume group volumes lv)
      × (PhysicalVolume.update physical path (show_physical_volume pv) ≡ shown_physical path pv)
      × (lookup_string (show_physical_volume pv) "device" ≡ some pv.pv_name)
main-shown lvm name vg self lv volume group volumes pv physical path h =
    let (a, b, c) = group_shown vg self in
    let (p, q) = physical_shown pv physical path in
    (
      (show_open_group vg, printed lvm name vg h, a, b, c),
      volume_shown lv volume group volumes,
      p,
      q,
    )
