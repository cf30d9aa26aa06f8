-- ===== src/VolumeGroup/Refresh/Keys.antt =====
-- src/volumegroup.c: `poll_with_variant` neither adds volumes to the table nor takes any out.
use udisks_lvm.Base.{
  ℕ, Option, none, some, List, [], ◌∷◌, Bytes, str_equal, str_equal_iff, ◌==◌, ◌≡◌, refl, sym, ap,
  ◌∙◌, inl, inr, Bool-cases,
}
use udisks_lvm.Base.Table.{Table, lookup, insert, lookup-insert}
use udisks_lvm.LogicalVolume.{LogicalVolume}
use udisks_lvm.Variant.{Dict, lookup_string, lookup_dicts}
use udisks_lvm.VolumeGroup.Refresh.{
  World, Report, info, failure, poll_found, poll_volume, poll_rounds, poll_report,
  poll_with_variant,
}
use udisks_lvm.VolumeGroup.Update.{infos_of, update_props}
use udisks_lvm.VolumeGroup.Update.Tracking.{is_some}

insert-keys {ℓ} :
    {V : Type ℓ} (name : Bytes) (old new : V) (m : Table V) (n : Bytes)
    → lookup name m ≡ some old
    → is_some (lookup n (insert name new m)) ≡ is_some (lookup n m)
insert-keys name old new m n e = elim (Bool-cases (str_equal name n)) [
  | inl hit ↦
      ap is_some (lookup-insert name n new m) ∙ rw (hit, sym ((str_equal_iff name n).0 hit), e) refl
  | inr miss ↦ ap is_some (lookup-insert name n new m) ∙ rw miss refl
]

module _ (n : Bytes) where
  poll_found-keys :
      (found : Option LogicalVolume) (name : Bytes) (d : Dict) (w : World)
      → lookup name w.self.logical_volumes ≡ found
      → is_some (lookup n (poll_found found name d w).self.logical_volumes)
        ≡ is_some (lookup n w.self.logical_volumes)
  unfolding poll_found
  poll_found-keys none name d w e = refl
  poll_found-keys (some volume) name d w e = insert-keys name volume _ w.self.logical_volumes n e

  poll_volume-keys :
      (name : Option Bytes) (d : Dict) (w : World)
      → is_some (lookup n (poll_volume name d w).self.logical_volumes)
        ≡ is_some (lookup n w.self.logical_volumes)
  poll_volume-keys none d w = unfold poll_volume in refl
  poll_volume-keys (some name) d w = unfold poll_volume in poll_found-keys _ name d w refl

  poll_rounds-keys :
      (ds : List Dict) (w : World)
      → is_some (lookup n (poll_rounds ds w).self.logical_volumes)
        ≡ is_some (lookup n w.self.logical_volumes)
  unfolding poll_rounds
  poll_rounds-keys [] w = refl
  poll_rounds-keys (d ∷ ds) w =
      poll_rounds-keys ds _ ∙ poll_volume-keys (lookup_string d "name") d _

  poll_report-keys :
      (report : Report) (w : World)
      → is_some (lookup n (poll_report report w).self.logical_volumes)
        ≡ is_some (lookup n w.self.logical_volumes)
  unfolding poll_report update_props
  poll_report-keys (failure message) w = refl
  poll_report-keys (info d) w = poll_rounds-keys (infos_of (lookup_dicts d "lvs")) _

  pub poll_with_variant-keys :
      (pid : ℕ) (report : Report) (w : World)
      → is_some (lookup n (poll_with_variant pid report w).self.logical_volumes)
        ≡ is_some (lookup n w.self.logical_volumes)
  unfolding poll_with_variant
  poll_with_variant-keys pid report w = elim (Bool-cases (pid == w.self.poll_pid)) [
    | inl e ↦ simp e (poll_report-keys report _)
    | inr e ↦ simp e refl
  ]
