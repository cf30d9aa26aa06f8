-- ===== src/VolumeGroup/Refresh/Invariant.antt =====
-- src/volumegroup.c: what holds of a group between two reports of the helper.
use udisks_lvm.Base.{
  ℕ, true, false, Option, none, some, List, [], ◌∷◌, Bytes, codes, ◌≡◌, refl, ap, inl, inr, arith,
  Bool-cases, ◌==◌,
}
use udisks_lvm.Base.Table.{lookup}
use udisks_lvm.Base.Table.Entries.{Entries, Entries-lookup, Entries-insert}
use udisks_lvm.LogicalVolume.{LogicalVolume}
use udisks_lvm.Util.ObjectPath.{build_object_path}
use udisks_lvm.Variant.{Dict, lookup_string, lookup_dicts}
use udisks_lvm.VolumeGroup.{VolumeGroup}
use udisks_lvm.VolumeGroup
use udisks_lvm.VolumeGroup.Refresh.{
  World, Report, info, failure, refresh, publish, update_with_variant, poll_found, poll_volume,
  poll_rounds, poll_report, poll_with_variant,
}
use udisks_lvm.VolumeGroup.Update.{infos_of, update_props, publish_if_needed, update_volumes}
use udisks_lvm.VolumeGroup.Update.Published.{
  Tracked, Tracked-Ready, update-Tracked, owner, update_volumes-Tracked,
}

abbrev root_path : Option Bytes
root_path = some (codes "/org/freedesktop/UDisks2/lvm")

pub record Inv (g : VolumeGroup) : Type 0 where
  -- a group that is to be published has no volumes yet
  pub fresh : g.need_publish ≡ true → g.logical_volumes ≡ []
  pub at_path : g.need_publish ≡ false → g.object_path ≡ build_object_path root_path (g.name ∷ [])
  pub tracked : Entries (Tracked (owner g)) g.logical_volumes

pub new-Inv : (name : Bytes) → Inv (VolumeGroup.new name)
unfolding VolumeGroup.new
new-Inv name = record { fresh = λ _. refl; at_path = λ e. cc; tracked = tt }

module _ (g : VolumeGroup) (v : Inv g) where
  publish-needed : g.need_publish ≡ true → Inv (publish_if_needed g).0
  unfolding publish_if_needed
  publish-needed e =
      simp e (record { fresh = λ c. cc; at_path = λ _. refl; tracked = rw (v.fresh e) tt })

  publish-done : g.need_publish ≡ false → Inv (publish_if_needed g).0
  unfolding publish_if_needed
  publish-done e = simp e v

  publish_if_needed-Inv : Inv (publish_if_needed g).0
  publish_if_needed-Inv = elim (Bool-cases g.need_publish) [
    | inl e ↦ publish-needed e
    | inr e ↦ publish-done e
  ]

  update_props-Inv : (d : Dict) → Inv (update_props g d)
  unfolding update_props
  update_props-Inv d = record { fresh = v.fresh; at_path = v.at_path; tracked = v.tracked }

pub published : (g : VolumeGroup) → (publish_if_needed g).0.need_publish ≡ false
unfolding publish_if_needed
published g = ground arith

refresh-Inv :
    (d : Dict) (w : World)
    → Inv w.self
    → w.self.need_publish ≡ false
    → Inv (refresh d w).self × ((refresh d w).self.need_publish ≡ false)
unfolding refresh update_volumes
refresh-Inv d w v e = (
  record {
    fresh = λ c. cc;
    at_path = v.at_path;
    tracked = update_volumes-Tracked w.blocks d w.jobs w.self v.tracked;
  },
  e,
)

-- One update.
pub update_with_variant-Inv :
    (report : Report) (w : World)
    → Inv w.self
    → Inv (update_with_variant report w).self
      × ((update_with_variant report w).self.need_publish ≡ false)
unfolding update_with_variant publish
update_with_variant-Inv (failure message) w v = (publish_if_needed-Inv w.self v, published w.self)
update_with_variant-Inv (info d) w v =
    refresh-Inv d (publish (record w { self = update_props w.self d }))
      (publish_if_needed-Inv _ (update_props-Inv w.self v d)) (published (update_props w.self d))

lookup-nil : (name : Bytes) → lookup {V = LogicalVolume} name [] ≡ none
unfolding lookup
lookup-nil name = refl

poll_found-Inv :
    (found : Option LogicalVolume) (name : Bytes) (d : Dict) (w : World)
    → lookup name w.self.logical_volumes ≡ found
    → Inv w.self
    → Inv (poll_found found name d w).self
unfolding poll_found
poll_found-Inv none name d w e v = v
poll_found-Inv (some volume) name d w e v =
    let o = owner w.self in
    let volumes = w.self.logical_volumes in
    record {
      fresh = λ c. cc (lookup-nil name, ap (lookup name) (v.fresh c), e);
      at_path = v.at_path;
      tracked = Entries-insert (Tracked o) volumes name _ v.tracked (
          update-Tracked o name volume volumes d
            (Tracked-Ready o name volume (Entries-lookup (Tracked o) volumes name v.tracked e)));
    }

poll_volume-Inv :
    (name : Option Bytes) (d : Dict) (w : World) → Inv w.self → Inv (poll_volume name d w).self
poll_volume-Inv none d w v = unfold poll_volume in v
poll_volume-Inv (some name) d w v = unfold poll_volume in poll_found-Inv _ name d w refl v

poll_rounds-Inv : (ds : List Dict) (w : World) → Inv w.self → Inv (poll_rounds ds w).self
unfolding poll_rounds
poll_rounds-Inv [] w v = v
poll_rounds-Inv (d ∷ ds) w v = poll_rounds-Inv ds _ (poll_volume-Inv (lookup_string d "name") d _ v)

poll_report-Inv : (report : Report) (w : World) → Inv w.self → Inv (poll_report report w).self
unfolding poll_report
poll_report-Inv (failure message) w v = v
poll_report-Inv (info d) w v =
    poll_rounds-Inv (infos_of (lookup_dicts d "lvs")) (record w { self = update_props w.self d })
      (update_props-Inv w.self v d)

-- The report of a poll, of whichever process it is, keeps the invariant of the group.
pub poll_with_variant-Inv :
    (pid : ℕ) (report : Report) (w : World) → Inv w.self → Inv (poll_with_variant pid report w).self
unfolding poll_with_variant
poll_with_variant-Inv pid report w v = elim (Bool-cases (pid == w.self.poll_pid)) [
  | inl e ↦ simp e (
      poll_report-Inv report _
        (record { fresh = v.fresh; at_path = v.at_path; tracked = v.tracked }))
  | inr e ↦ simp e v
]

-- Reports that come in, of an update and of a poll with its process.
data Delivery : Type 0 where
  of_update : Report → Delivery
  of_poll : ℕ → Report → Delivery

abbrev deliver : List Delivery → World → World
deliver [] w = w
deliver (of_update report ∷ rs) w = deliver rs (update_with_variant report w)
deliver (of_poll pid report ∷ rs) w = deliver rs (poll_with_variant pid report w)

deliver-Inv : (rs : List Delivery) (w : World) → Inv w.self → Inv (deliver rs w).self
deliver-Inv [] w v = v
deliver-Inv (of_update report ∷ rs) w v = deliver-Inv rs _ (update_with_variant-Inv report w v).0
deliver-Inv (of_poll pid report ∷ rs) w v = deliver-Inv rs _ (poll_with_variant-Inv pid report w v)

-- Reports of updates and of polls, of whichever process, in any number and order, failures among them,
-- keep the invariant of the group: while the group is to be published its table is empty; afterwards its
-- path is the one that its name gives; and each volume of the table has the name it stands under, is no
-- longer to be published, has the path that its name gives below that of the group, and refers to the
-- group. Behind a further update the group is no longer to be published.
reports-Inv :
    (rs : List Delivery) (report : Report) (w : World)
    → Inv w.self
    → Inv (deliver rs w).self
      × Inv (update_with_variant report (deliver rs w)).self
      × ((update_with_variant report (deliver rs w)).self.need_publish ≡ false)
reports-Inv rs report w v =
    let v' = deliver-Inv rs w v in
    let (a, b) = update_with_variant-Inv report (deliver rs w) v' in (v', a, b)
