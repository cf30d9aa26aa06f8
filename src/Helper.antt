-- ===== src/Helper.antt =====
-- src/helper.c: the program that asks lvm2app and prints what the daemon reads. What lvm2app returns,
-- and the two ways to print a GVariant, are parameters.
pub mod Output
pub mod Properties
pub mod Shown
use Prim.Native.String.{String}
use udisks_lvm.Base.{
  ℕ, zero, suc, Bool, true, false, ◌&&◌, Option, none, some, List, [], ◌∷◌, ◌++◌, Bytes, codes,
  str_equal, map, taken, left_of, ◌==◌, if◌then◌else◌,
}
use udisks_lvm.Variant.{Value, string, uint64, dicts, Dict, empty, entry, Dicts, end, dict}

-- lvm_property_value_t; a string may be NULL.
pub record Property : Type 0 where
  pub is_valid : Bool
  pub is_string : Bool
  pub is_integer : Bool
  pub string_value : Option Bytes
  pub integer_value : ℕ

-- What lvm2app returns of a logical volume, a physical volume and an open group; its lists may be NULL.
pub record Lv : Type 0 where
  pub lv_name : Bytes
  pub lv_uuid : Bytes
  pub lv_size : ℕ
  pub get_property : String → Property

pub record Pv : Type 0 where
  pub pv_name : Bytes
  pub pv_uuid : Bytes
  pub pv_size : ℕ
  pub pv_free : ℕ

pub record Vg : Type 0 where
  pub vg_name : Bytes
  pub vg_uuid : Bytes
  pub vg_size : ℕ
  pub vg_free_size : ℕ
  pub vg_extent_size : ℕ
  pub list_lvs : Option (List Lv)
  pub list_pvs : Option (List Pv)

pub record Lvm : Type 0 where
  pub list_vg_names : List Bytes
  pub vg_open : Bytes → Option Vg

-- A builder is given by the entries that are added later.
unfoldable pub add_string : String → Bytes → Dict → Dict
add_string key val later = entry key (string val) later

unfoldable pub add_uint64 : String → ℕ → Dict → Dict
add_uint64 key val later = entry key (uint64 val) later

-- `p.is_string && p.value.string`
abbrev pub string_of : Property → Option Bytes
string_of p = if p.is_string then p.string_value else none

unfoldable pub add_property : String → Property → Option Bytes → Dict → Dict
unfolding add_string add_uint64
add_property key p (some s) later = add_string key s later
add_property key p none later = if p.is_integer then add_uint64 key p.integer_value later else later

unfoldable pub add_lvprop : String → Lv → Dict → Dict
unfolding add_property
add_lvprop key lv later =
    let p = lv.get_property key in
    if p.is_valid then add_property key p (string_of p) later else later

unfoldable pub show_logical_volume : Lv → Dict
unfolding add_string add_uint64 add_lvprop
show_logical_volume lv = add_string "name" lv.lv_name (
    add_string "uuid" lv.lv_uuid (
      add_uint64 "size" lv.lv_size (
        add_lvprop "lv_attr" lv (
          add_lvprop "move_pv" lv (
            add_lvprop "pool_lv" lv (
              add_lvprop "origin" lv (
                add_lvprop "data_percent" lv
                  (add_lvprop "metadata_percent" lv (add_lvprop "copy_percent" lv empty)))))))))

unfoldable pub show_physical_volume : Pv → Dict
unfolding add_string add_uint64
show_physical_volume pv = add_string "device" pv.pv_name (
    add_string "uuid" pv.pv_uuid
      (add_uint64 "size" pv.pv_size (add_uint64 "free-size" pv.pv_free empty)))

-- dm_list_iterate_items
unfoldable pub show_each : {A : Type 0} → (A → Dict) → List A → Dicts
show_each show [] = end
show_each show (x ∷ xs) = dict (show x) (show_each show xs)

abbrev pub items : {A : Type 0} → Option (List A) → List A
items none = []
items (some xs) = xs

unfoldable pub show_open_group : Vg → Dict
unfolding add_string add_uint64 show_each
show_open_group vg = add_string "name" vg.vg_name (
    add_string "uuid" vg.vg_uuid (
      add_uint64 "size" vg.vg_size (
        add_uint64 "free-size" vg.vg_free_size (
          add_uint64 "extent-size" vg.vg_extent_size (
            entry "lvs" (dicts (show_each show_logical_volume (items vg.list_lvs)))
              (entry "pvs" (dicts (show_each show_physical_volume (items vg.list_pvs))) empty))))))

-- What the program has to print, or the status that it exits with.
pub data Found : Type 0 where
  group_names : List Bytes → Found
  group_info : Dict → Found
  exits : ℕ → Found

unfoldable pub show_opened : Option Vg → Found
unfolding show_open_group
show_opened none = exits 2
show_opened (some vg) = group_info (show_open_group vg)

unfoldable pub show_volume_group : Lvm → Bytes → Found
unfolding show_opened
show_volume_group lvm name = show_opened (lvm.vg_open name)

unfoldable pub list_volume_groups : Lvm → Found
list_volume_groups lvm = group_names lvm.list_vg_names

-- `main`, behind the option; `usage` exits with 1.
unfoldable pub command : Lvm → List Bytes → Found
unfolding show_volume_group list_volume_groups
command lvm [] = exits 1
command lvm (c ∷ []) = if str_equal c (codes "list") then list_volume_groups lvm else exits 1
command lvm (c ∷ name ∷ args) =
    if str_equal c (codes "list")
    then list_volume_groups lvm
    else if str_equal c (codes "show")
    then show_volume_group lvm name
    else exits 1

-- Whether the output is binary, and the result. The arguments are those behind `argv[0]`.
unfoldable pub main : Lvm → List Bytes → Bool × Found
unfolding command
main lvm [] = (false, command lvm [])
main lvm (arg ∷ args) =
    if str_equal arg (codes "-b")
    then (true, command lvm args)
    else (false, command lvm (arg ∷ args))

-- What write (2) returns: an error, or the number of bytes, which depends on the calls before.
pub data Wrote : Type 0 where
  write_error : Wrote
  wrote : ℕ → Wrote

-- The buffers that have been passed to write and what came of them, the latest first.
pub data Written : Type 0 where
  all_written : List Bytes → Written
  exit_failure : List Bytes → Written
  still_writing : Bytes → List Bytes → Written

-- `write_all`, for as many rounds as there is fuel; what has been written is a list of pieces.
module _ (write : List Bytes → Bytes → Wrote) where
  unfoldable pub write_all : ℕ → Bytes → List Bytes → Written
  write_all fuel [] pieces = all_written pieces
  write_all zero (c ∷ mem) pieces = still_writing (c ∷ mem) pieces
  write_all (suc fuel) (c ∷ mem) pieces = elim (write pieces (c ∷ mem)) [
    | write_error ↦ exit_failure pieces
    | wrote n ↦ write_all fuel (left_of n (c ∷ mem)) (taken n (c ∷ mem) ∷ pieces)
  ]
