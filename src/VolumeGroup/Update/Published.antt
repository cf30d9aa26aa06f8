-- ===== src/VolumeGroup/Update/Published.antt =====
-- src/volumegroup.c: every logical volume in the table of a group is published, once, at the path that
-- its name gives.
use udisks_lvm.Base.{
  false, Option, none, some, List, [], ◌∷◌, Bytes, ◌≡◌, refl, inl, inr, arith, Bool-cases,
}
use udisks_lvm.Base.Table.{Table, lookup}
use udisks_lvm.Base.Table.Entries.{Entries, Entries-lookup, Entries-insert, Entries-keep}
use udisks_lvm.Block.{Block}
use udisks_lvm.LogicalVolume.{LogicalVolume}
use udisks_lvm.LogicalVolume
use udisks_lvm.LogicalVolume.Update.{update}
use udisks_lvm.Util.ObjectPath.{build_object_path}
use udisks_lvm.Variant.{Dict, lookup_string, lookup_dicts}
use udisks_lvm.VolumeGroup.{VolumeGroup}
use udisks_lvm.VolumeGroup.Update.Progress.{Job}
use udisks_lvm.VolumeGroup.Update.{
  Loop, Owner, volume_or_new, show_volume, note_operations, show_if_visible, rounds, update_volumes,
  infos_of,
}
use udisks_lvm.VolumeGroup.Visible.{lv_is_visible}

-- A volume of the table of the group `o` under the key `name`.
pub record Tracked (o : Owner) (name : Bytes) (v : LogicalVolume) : Type 0 where
  pub named : v.name ≡ name
  pub was_published : v.needs_publish ≡ false
  pub at_path : v.object_path ≡ build_object_path o.group_path (name ∷ [])
  pub of_group : v.volume_group ≡ some o.group

-- The same of a volume that may be new.
pub record Ready (o : Owner) (name : Bytes) (v : LogicalVolume) : Type 0 where
  pub named : v.name ≡ name
  pub if_published :
      v.needs_publish ≡ false → v.object_path ≡ build_object_path o.group_path (name ∷ [])

module _ (o : Owner) where
  new-Ready : (name : Bytes) → Ready o name (LogicalVolume.new o.group name)
  unfolding LogicalVolume.new
  new-Ready name = record { named = refl; if_published = λ e. cc }

  pub Tracked-Ready : (name : Bytes) (v : LogicalVolume) → Tracked o name v → Ready o name v
  Tracked-Ready name v t = record { named = t.named; if_published = λ _. t.at_path }

  pub update-Tracked :
      (name : Bytes) (v : LogicalVolume) (volumes : Table LogicalVolume) (info : Dict)
      → Ready o name v
      → Tracked o name (update v o.group o.group_path volumes info).0
  unfolding update
  update-Tracked name v volumes info r = ground arith

  volume_or_new-Ready :
      (name : Bytes) (m : Table LogicalVolume) (found : Option LogicalVolume)
      → Entries (Tracked o) m
      → lookup name m ≡ found
      → Ready o name (volume_or_new found o.group name)
  volume_or_new-Ready name m none h e = new-Ready name
  volume_or_new-Ready name m (some v) h e =
      Tracked-Ready name v (Entries-lookup (Tracked o) m name h e)

  abbrev AllTracked : Loop → Type 0
  AllTracked s = Entries (Tracked o) s.volumes

  show_volume-Tracked :
      (name : Bytes) (info : Dict) (s : Loop)
      → AllTracked s
      → AllTracked (show_volume o name info s)
  unfolding show_volume
  show_volume-Tracked name info s h = Entries-insert (Tracked o) s.volumes name _ h (
      update-Tracked name _ s.volumes info
        (volume_or_new-Ready name s.volumes (lookup name s.volumes) h refl))

  show-Tracked :
      (name : Option Bytes) (info : Dict) (s : Loop)
      → AllTracked s
      → AllTracked (show_if_visible o name info s)
  unfolding show_if_visible
  show-Tracked none info s h = h
  show-Tracked (some name) info s h = elim (Bool-cases (lv_is_visible (some name))) [
    | inl e ↦ rw e (show_volume-Tracked name info s h)
    | inr e ↦ rw e h
  ]

  pub rounds-Tracked :
      (blocks : List Block) (infos : List Dict) (s : Loop)
      → AllTracked s
      → AllTracked (rounds o blocks infos s)
  unfolding rounds note_operations
  rounds-Tracked blocks [] s h = h
  rounds-Tracked blocks (info ∷ infos) s h =
      rounds-Tracked blocks infos _ (show-Tracked (lookup_string info "name") info _ h)

abbrev pub owner : VolumeGroup → Owner
owner g = record { group = g.name; group_path = g.object_path }

pub update_volumes-Tracked :
    (blocks : List Block) (d : Dict) (jobs : List Job) (self : VolumeGroup)
    → Entries (Tracked (owner self)) self.logical_volumes
    → Entries (Tracked (owner self)) (update_volumes blocks d jobs self).0.logical_volumes
unfolding update_volumes
update_volumes-Tracked blocks d jobs self h =
    Entries-keep (Tracked (owner self)) _ _
      (rounds-Tracked (owner self) blocks (infos_of (lookup_dicts d "lvs")) _ h)
