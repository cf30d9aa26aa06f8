-- ===== src/VolumeGroup/Update.antt =====
-- src/volumegroup.c: `update_with_variant` and the functions that it calls, except `update_block`.
pub mod Progress
pub mod Published
pub mod Tracking
use udisks_lvm.Base.{
  ℕ, Bool, true, false, ◌||◌, not, Option, none, some, List, [], ◌∷◌, ◌++◌, Bytes, codes, str_equal,
  if◌then◌else◌, ◌≡◌, refl,
}
use udisks_lvm.Base.Table.{Table, lookup, insert, keep}
use Progress.{Job, update_operations}
use udisks_lvm.Block.{Block}
use udisks_lvm.Bus.{Action, publish, unpublish, Thing, volume_group}
use udisks_lvm.LogicalVolume.{LogicalVolume}
use udisks_lvm.LogicalVolume
use udisks_lvm.LogicalVolume.Update.{set_number, set_string, set_decoded, needs_polling, dispose}
use udisks_lvm.Util.ObjectPath.{build_object_path}
use udisks_lvm.Variant.{Dict, lookup_string, lookup_uint64, lookup_dicts}
use udisks_lvm.VolumeGroup.{VolumeGroup}
use udisks_lvm.VolumeGroup.Visible.{lv_is_visible, lv_is_pvmove_volume}

-- `volume_group_update_props`
unfoldable pub update_props : VolumeGroup → Dict → VolumeGroup
update_props self info = record self {
  display_name = set_decoded (lookup_string info "name") self.display_name;
  uuid = set_string (lookup_string info "uuid") self.uuid;
  size = set_number (lookup_uint64 info "size") self.size;
  free_size = set_number (lookup_uint64 info "free-size") self.free_size;
  extent_size = set_number (lookup_uint64 info "extent-size") self.extent_size;
}

abbrev published : Option Bytes → Thing → List Action
published none thing = []
published (some path) thing = publish (some path) thing ∷ []

-- `if (self->need_publish)`
unfoldable pub publish_if_needed : VolumeGroup → VolumeGroup × List Action
publish_if_needed self =
    let path = build_object_path (some (codes "/org/freedesktop/UDisks2/lvm")) (self.name ∷ []) in
    if self.need_publish
    then (
      record self { need_publish = false; object_path = path },
      published path (volume_group self.name),
    )
    else (self, [])

-- What the loop over the logical volumes changes. `new_lvs` is the table of that name, of which only
-- the keys are kept here: its values are those of `volumes`.
pub record Loop : Type 0 where
  pub volumes : Table LogicalVolume
  pub new_lvs : List Bytes
  pub polling : Bool
  pub jobs : List Job
  pub actions : List Action

-- g_hash_table_contains
unfoldable pub contains : List Bytes → Bytes → Bool
contains [] name = false
contains (n ∷ ns) name = str_equal n name || contains ns name

-- The volume of a name, or a new one.
abbrev pub volume_or_new : Option LogicalVolume → Bytes → Bytes → LogicalVolume
volume_or_new none group name = LogicalVolume.new group name
volume_or_new (some volume) group name = volume

-- The group that the loop is for: its name, and its object path.
pub record Owner : Type 0 where
  pub group : Bytes
  pub group_path : Option Bytes

-- The part of a round for a volume that is visible.
unfoldable pub show_volume : Owner → Bytes → Dict → Loop → Loop
show_volume o name info s =
    let volume = volume_or_new (lookup name s.volumes) o.group name in
    let (volume', done) = LogicalVolume.Update.update volume o.group o.group_path s.volumes info in
    record s {
      volumes = insert name volume' s.volumes;
      new_lvs = name ∷ s.new_lvs;
      polling = needs_polling info s.polling;
      actions = s.actions ++ done;
    }

-- `update_operations`, and the test that follows it.
unfoldable pub note_operations : List Block → Option Bytes → Dict → Loop → Loop
unfolding update_operations
note_operations blocks name info s =
    let (jobs', polling') = update_operations blocks name info (s.jobs, s.polling) in
    record s { jobs = jobs'; polling = polling' || lv_is_pvmove_volume name }

unfoldable pub show_if_visible : Owner → Option Bytes → Dict → Loop → Loop
unfolding show_volume
show_if_visible o none info s = s
show_if_visible o (some name) info s =
    if lv_is_visible (some name) then show_volume o name info s else s

-- `while (g_variant_iter_loop (iter, "@a{sv}", &lv_info))`. A volume without a name, which the helper
-- never reports, is taken as one whose name is NULL.
unfoldable pub rounds : Owner → List Block → List Dict → Loop → Loop
unfolding note_operations show_if_visible
rounds o blocks [] s = s
rounds o blocks (info ∷ infos) s =
    let name = lookup_string info "name" in
    rounds o blocks infos (show_if_visible o name info (note_operations blocks name info s))

-- What the volumes that are not in `new_lvs` unpublish when they are disposed.
unfoldable pub dispose_others : (Bytes → Bool) → Table LogicalVolume → List Action
unfolding dispose
dispose_others kept [] = []
dispose_others kept ((name, volume) ∷ m) =
    (if kept name then [] else dispose volume) ++ dispose_others kept m

abbrev pub infos_of : Option (List Dict) → List Dict
infos_of none = []
infos_of (some infos) = infos

-- From the creation of `new_lvs` to `lvm_volume_group_set_needs_polling`.
unfoldable pub update_volumes : List Block → Dict → List Job → VolumeGroup → VolumeGroup × Loop
unfolding rounds dispose_others
update_volumes blocks info jobs self =
    let s =
      rounds (record { group = self.name; group_path = self.object_path }) blocks
        (infos_of (lookup_dicts info "lvs"))
        (record {
          volumes = self.logical_volumes;
          new_lvs = [];
          polling = false;
          jobs = jobs;
          actions = [];
        }) in
    (
      record self {
        logical_volumes = keep (contains s.new_lvs) s.volumes;
        needs_polling = s.polling;
      },
      record s { actions = s.actions ++ dispose_others (contains s.new_lvs) s.volumes },
    )

unfoldable pub dispose_all : Table LogicalVolume → List Action
unfolding dispose
dispose_all [] = []
dispose_all ((name, volume) ∷ m) = dispose volume ++ dispose_all m

abbrev unpublish_at : Option Bytes → Bytes → List Action
unpublish_at none name = []
unpublish_at (some path) name = unpublish (some path) (volume_group name) ∷ []

-- `ul_volume_group_dispose`. An interface that is unpublished has no path any more.
unfoldable pub dispose_group : VolumeGroup → VolumeGroup × List Action
unfolding dispose_all
dispose_group self = (
  record self { need_publish = false; logical_volumes = []; object_path = none },
  dispose_all self.logical_volumes ++ unpublish_at self.object_path self.name,
)
