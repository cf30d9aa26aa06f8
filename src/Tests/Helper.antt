-- ===== src/Tests/Helper.antt =====
-- The helper and what reads its output.
use Prim.Native.String.{String}
use text.Mathlib.Text.{◌==◌}
use udisks_lvm.Base.{
  true, false, none, some, List, [], ◌∷◌, Bytes, codes, map, ◌≡◌, refl, arith, if◌then◌else◌,
}
use udisks_lvm.Helper.{
  Property, Lv, Pv, Vg, Lvm, Wrote, wrote, write_error, write_all, items, show_logical_volume,
  show_physical_volume, group_info, main,
}
use udisks_lvm.Helper.Output.{write_all-Complete, Complete, Progresses}
use udisks_lvm.Helper.Shown.{main-shown, show_args, shown_group, shown_volume, shown_physical}
use udisks_lvm.Base.{length, taken, left_of, str_equal, sym, ap}
use udisks_lvm.Base.Table.{lookup}
use udisks_lvm.Cycle.{cycle-visible, reading, visible_names, dict_of}
use udisks_lvm.Daemon.Reader.{called_result, run, spawn_for_variant, spawn_pid}
use udisks_lvm.Helper.{Found, all_written, show_open_group, command, show_volume_group, show_opened}
use udisks_lvm.Tests.{world}
use udisks_lvm.VolumeGroup.Refresh.{info, update_with_variant}
use udisks_lvm.VolumeGroup.Update.{contains}
use udisks_lvm.VolumeGroup.Update.Tracking.{is_some}
use udisks_lvm.LogicalVolume
use udisks_lvm.LogicalVolume.Update as Volume
use udisks_lvm.PhysicalVolume
use udisks_lvm.Tests.{group}
use udisks_lvm.Variant.{Dict, lookup_string, lookup_dicts}
use udisks_lvm.VolumeGroup.Update as Group

abbrev attributes : String → Property
attributes key =
    if key == "lv_attr"
    then record {
      is_valid = true;
      is_string = true;
      is_integer = false;
      string_value = some (codes "-wi-a-s-");
      integer_value = 0;
    }
    else record {
      is_valid = key == "data_percent";
      is_string = false;
      is_integer = true;
      string_value = none;
      integer_value = 25000000;
    }

abbrev home : Lv
home = record {
  lv_name = codes "home";
  lv_uuid = codes "u1";
  lv_size = 1048576;
  get_property = attributes;
}

abbrev sda : Pv
sda = record {
  pv_name = codes "/dev/sda";
  pv_uuid = codes "u2";
  pv_size = 4194304;
  pv_free = 1048576;
}

abbrev vg : Vg
vg = record {
  vg_name = codes "vg";
  vg_uuid = codes "u0";
  vg_size = 4194304;
  vg_free_size = 1048576;
  vg_extent_size = 4096;
  list_lvs = some (home ∷ []);
  list_pvs = some (sda ∷ []);
}

abbrev lvm : Lvm
lvm = record { list_vg_names = codes "vg" ∷ []; vg_open = λ name. some vg }

main-shown_example :
    ((d : Dict) × (main lvm (show_args (codes "vg")) ≡ (true, group_info d))
      × (Group.update_props group d ≡ shown_group group vg)
      × (Group.infos_of (lookup_dicts d "lvs") ≡ map show_logical_volume (items vg.list_lvs))
      × (Group.infos_of (lookup_dicts d "pvs") ≡ map show_physical_volume (items vg.list_pvs)))
    × (Volume.update_props
          (LogicalVolume.new (codes "vg") (codes "home"))
          (codes "vg")
          []
          (show_logical_volume home)
        ≡ shown_volume (LogicalVolume.new (codes "vg") (codes "home")) (codes "vg") [] home)
    × (PhysicalVolume.update PhysicalVolume.new none (show_physical_volume sda)
        ≡ shown_physical none sda)
    × (lookup_string (show_physical_volume sda) "device" ≡ some sda.pv_name)
main-shown_example =
    main-shown lvm (codes "vg") vg group home (LogicalVolume.new (codes "vg") (codes "home"))
      (codes "vg") [] sda PhysicalVolume.new none refl

-- At most three bytes at a time, and an error at the third call.
abbrev pipe : List Bytes → Bytes → Wrote
pipe (a ∷ b ∷ pieces) mem = write_error
pipe pieces mem = wrote 3

pipe-Progresses : Progresses pipe
pipe-Progresses [] mem n h = ground arith
pipe-Progresses (a ∷ []) mem n h = ground arith
pipe-Progresses (a ∷ b ∷ pieces) mem n h = cc

write_all-Complete_example : Complete pipe (codes "report") (write_all pipe 6 (codes "report") [])
write_all-Complete_example = write_all-Complete pipe (codes "report") pipe-Progresses

abbrev serialize : Found → Bytes
serialize found = codes "report"

abbrev parse : Bytes → Dict
parse bytes = show_open_group vg

abbrev three : List Bytes → Bytes → Wrote
three pieces mem = wrote 3

opened_group : (main lvm (show_args (codes "vg"))).1 ≡ group_info (show_open_group vg)
unfolding main command show_volume_group show_opened str_equal
opened_group = refl

both_written :
    (let mem = serialize (main lvm (show_args (codes "vg"))).1 in
      write_all three (length mem) mem [])
    ≡ all_written (codes "ort" ∷ codes "rep" ∷ [])
unfolding write_all taken left_of
both_written = refl

cycle-visible_example :
    (bytes : Bytes) × ((run
        (reading (codes "re" ∷ codes "po" ∷ []) (codes "rt"))
        (spawn_for_variant (spawn_pid 77)).0).callbacks
      ≡ called_result 77 bytes ∷ [])
    × (is_some (
          lookup
            (codes "home")
            (update_with_variant (info (parse bytes)) world).self.logical_volumes)
        ≡ contains (visible_names (items vg.list_lvs)) (codes "home"))
cycle-visible_example =
    cycle-visible serialize parse three lvm (codes "vg") vg world 77
      (codes "ort" ∷ codes "rep" ∷ []) (codes "re" ∷ codes "po" ∷ []) (codes "rt") (codes "home")
      (ap dict_of (sym opened_group)) (λ pieces mem n h. ground (arith, h)) refl both_written refl
