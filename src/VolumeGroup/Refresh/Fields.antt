-- ===== src/VolumeGroup/Refresh/Fields.antt =====
-- src/volumegroup.c: what reports leave of the name of a group, and of whether it is to be published.
use udisks_lvm.Base.{
  ℕ, false, Option, none, some, List, [], ◌∷◌, Bytes, ◌≡◌, refl, ◌∙◌, inl, inr, Bool-cases, ◌==◌,
}
use udisks_lvm.LogicalVolume.{LogicalVolume}
use udisks_lvm.Variant.{Dict, lookup_string, lookup_dicts}
use udisks_lvm.VolumeGroup.{VolumeGroup}
use udisks_lvm.VolumeGroup.Refresh.{
  World, Report, info, failure, refresh, publish, update_with_variant, poll_found, poll_volume,
  poll_rounds, poll_report, poll_with_variant,
}
use udisks_lvm.VolumeGroup.Refresh.Invariant.{published}
use udisks_lvm.VolumeGroup.Update.{infos_of, update_props, publish_if_needed, update_volumes}

published-name : (g : VolumeGroup) → (publish_if_needed g).0.name ≡ g.name
unfolding publish_if_needed
published-name g = elim (Bool-cases g.need_publish) [ inl e ↦ rw e refl | inr e ↦ rw e refl ]

pub updated-name :
    (report : Report) (w : World) → (update_with_variant report w).self.name ≡ w.self.name
unfolding update_with_variant publish refresh update_volumes update_props
updated-name (failure message) w = published-name w.self
updated-name (info d) w = published-name (update_props w.self d)

-- Behind an update the group is published.
pub updated-published :
    (report : Report) (w : World) → (update_with_variant report w).self.need_publish ≡ false
unfolding update_with_variant publish refresh update_volumes update_props
updated-published (failure message) w = published w.self
updated-published (info d) w = published (update_props w.self d)

-- A poll keeps both.
abbrev pub Same : World → World → Type 0
Same w w' = (w'.self.name ≡ w.self.name) × (w'.self.need_publish ≡ w.self.need_publish)

poll_found-Same :
    (found : Option LogicalVolume) (name : Bytes) (d : Dict) (w : World)
    → Same w (poll_found found name d w)
unfolding poll_found
poll_found-Same none name d w = (refl, refl)
poll_found-Same (some volume) name d w = (refl, refl)

poll_volume-Same : (name : Option Bytes) (d : Dict) (w : World) → Same w (poll_volume name d w)
unfolding poll_volume
poll_volume-Same none d w = (refl, refl)
poll_volume-Same (some name) d w = poll_found-Same _ name d w

poll_rounds-Same : (ds : List Dict) (w : World) → Same w (poll_rounds ds w)
unfolding poll_rounds
poll_rounds-Same [] w = (refl, refl)
poll_rounds-Same (d ∷ ds) w =
    let (name, publish) = poll_volume-Same (lookup_string d "name") d _ in
    let (names, publishes) = poll_rounds-Same ds _ in (names ∙ name, publishes ∙ publish)

poll_report-Same : (report : Report) (w : World) → Same w (poll_report report w)
unfolding poll_report update_props
poll_report-Same (failure message) w = (refl, refl)
poll_report-Same (info d) w = poll_rounds-Same (infos_of (lookup_dicts d "lvs")) _

pub polled-Same : (pid : ℕ) (report : Report) (w : World) → Same w (poll_with_variant pid report w)
unfolding poll_with_variant
polled-Same pid report w = elim (Bool-cases (pid == w.self.poll_pid)) [
  | inl e ↦ rw e (poll_report-Same report _)
  | inr e ↦ rw e (refl, refl)
]
