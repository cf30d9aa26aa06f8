-- ===== src/LogicalVolume/Update.antt =====
-- src/logicalvolume.c: `ul_logical_volume_update` and `ul_logical_volume_dispose`.
use udisks_lvm.Base.{
  ℕ, ◌^◌, Bool, true, false, Option, none, some, List, [], ◌∷◌, Bytes, codes, ltb, ◌==◌,
  if◌then◌else◌,
}
use udisks_lvm.Base.Table.{Table, lookup}
use udisks_lvm.Bus.{Action, publish, unpublish, Thing, logical_volume}
use udisks_lvm.LogicalVolume.{LogicalVolume}
use udisks_lvm.Util.Name.{decode_lvm_name}
use udisks_lvm.Util.ObjectPath.{build_object_path}
use udisks_lvm.Variant.{Dict, lookup_string, lookup_uint64}

-- The `switch` over the target type, `str[6]`, with the volume type, `str[0]`.
unfoldable pub switch_type : ℕ → ℕ → Bytes
switch_type volume_type target_type =
    if target_type == b's'
    then codes "snapshot"
    else if target_type == b'm'
    then codes "mirror"
    else if target_type == b't'
    then (if volume_type == b't' then codes "thin-pool" else codes "thin")
    else if target_type == b'r'
    then codes "raid"
    else if target_type == b'-'
    then codes "plain"
    else codes "unsupported"

-- `str && strlen (str) > 6`, with `str[0]` and `str[6]`.
unfoldable pub attr_types : Option Bytes → Option (ℕ × ℕ)
attr_types (some (v ∷ _ ∷ _ ∷ _ ∷ _ ∷ _ ∷ t ∷ _)) = some (v, t)
attr_types _ = none

unfoldable pub type_of : Option (ℕ × ℕ) → Bytes
unfolding switch_type
type_of none = codes "unsupported"
type_of (some (v, t)) = switch_type v t

-- Whether `*needs_polling_ret = TRUE` is reached.
unfoldable pub polls : Option (ℕ × ℕ) → Bool
polls none = false
polls (some (v, t)) = t == b't'

-- The ratio is set only from a number that is not negative as an `int64_t`.
unfoldable pub set_ratio : Option ℕ → ℕ → ℕ
set_ratio none old = old
set_ratio (some num) old = if ltb num (2 ^ 63) then num else old

abbrev pub set_number : Option ℕ → ℕ → ℕ
set_number none old = old
set_number (some num) old = num

abbrev pub set_string : Option Bytes → Option Bytes → Option Bytes
set_string none old = old
set_string (some str) old = some str

abbrev pub set_decoded : Option Bytes → Option Bytes → Option Bytes
set_decoded none old = old
set_decoded (some str) old = some (decode_lvm_name str)

abbrev path_of : Option LogicalVolume → Option Bytes
path_of none = some (codes "/")
path_of (some volume) = volume.object_path

-- The object path of the pool or of the origin; `volumes` is the table of the group, in which
-- `ul_volume_group_find_logical_volume` looks.
unfoldable pub reference_path : Table LogicalVolume → Option Bytes → Option Bytes
unfolding lookup
reference_path volumes none = some (codes "/")
reference_path volumes (some []) = some (codes "/")
reference_path volumes (some (c ∷ s)) = path_of (lookup (c ∷ s) volumes)

-- `ul_daemon_publish` with a path that may be NULL: then it returns at once.
abbrev published : Option Bytes → Thing → List Action
published none thing = []
published (some path) thing = publish (some path) thing ∷ []

-- `if (self->needs_publish)`
unfoldable pub publish_if_needed : Option Bytes → LogicalVolume → LogicalVolume × List Action
publish_if_needed group_path self =
    let path = build_object_path group_path (self.name ∷ []) in
    if self.needs_publish
    then (
      record self { needs_publish = false; object_path = path },
      published path (logical_volume self.name),
    )
    else (self, [])

-- The properties, up to `ul_logical_volume_set_volume_group`.
unfoldable pub update_props : LogicalVolume → Bytes → Table LogicalVolume → Dict → LogicalVolume
unfolding set_ratio reference_path type_of attr_types
update_props self group volumes info = record self {
  volume_group = some group;
  display_name = set_decoded (lookup_string info "name") self.display_name;
  uuid = set_string (lookup_string info "uuid") self.uuid;
  size = set_number (lookup_uint64 info "size") self.size;
  type_ = some (type_of (attr_types (lookup_string info "lv_attr")));
  data_allocated_ratio = set_ratio (lookup_uint64 info "data_percent") self.data_allocated_ratio;
  metadata_allocated_ratio =
      set_ratio (lookup_uint64 info "metadata_percent") self.metadata_allocated_ratio;
  thin_pool = reference_path volumes (lookup_string info "pool_lv");
  origin = reference_path volumes (lookup_string info "origin");
}

-- `ul_logical_volume_update`: the group is given by its name, its object path and its table.
unfoldable pub update :
    LogicalVolume → Bytes → Option Bytes → Table LogicalVolume → Dict → LogicalVolume × List Action
unfolding update_props publish_if_needed
update self group group_path volumes info =
    publish_if_needed group_path (update_props self group volumes info)

-- What `*needs_polling_ret` becomes.
unfoldable pub needs_polling : Dict → Bool → Bool
unfolding polls attr_types
needs_polling info old = if polls (attr_types (lookup_string info "lv_attr")) then true else old

-- `ul_logical_volume_dispose` unpublishes a volume that has a path.
unfoldable pub dispose : LogicalVolume → List Action
dispose self = elim self.object_path [
  | none ↦ []
  | some path ↦ unpublish (some path) (logical_volume self.name) ∷ []
]
