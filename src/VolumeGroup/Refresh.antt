-- ===== src/VolumeGroup/Refresh.antt =====
-- src/volumegroup.c: the callbacks that get the helper's report, `update_with_variant` and
-- `poll_with_variant`.
pub mod Invariant
pub mod Keys
pub mod Fields
use udisks_lvm.Base.{
  ℕ, Bool, true, false, Option, none, some, List, [], ◌∷◌, ◌++◌, Bytes, ◌==◌, if◌then◌else◌,
}
use udisks_lvm.Base.Table.{Table, lookup, insert, keep}
use udisks_lvm.Block.{Block}
use udisks_lvm.Bus.{Action}
use udisks_lvm.LogicalVolume.{LogicalVolume}
use udisks_lvm.LogicalVolume
use udisks_lvm.LogicalVolume.Update.{needs_polling}
use udisks_lvm.Variant.{Dict, lookup_string, lookup_dicts}
use udisks_lvm.VolumeGroup.{VolumeGroup}
use udisks_lvm.VolumeGroup.Blocks.{collect_pvs, update_blocks}
use udisks_lvm.VolumeGroup.Update.{
  Loop, Owner, infos_of, update_props, publish_if_needed, update_volumes, contains,
}
use udisks_lvm.VolumeGroup.Update.Progress.{Job, update_operations}

-- What the callbacks read and change: the group, the blocks and jobs on the bus, and what has been
-- published and unpublished.
pub record World : Type 0 where
  pub self : VolumeGroup
  pub blocks : List Block
  pub jobs : List Job
  pub actions : List Action

-- The report of the helper: `info`, or a `GError`, which is only logged.
pub data Report : Type 0 where
  info : Dict → Report
  failure : Bytes → Report

-- The rest of `update_with_variant` when there is no error.
unfoldable pub refresh : Dict → World → World
unfolding update_volumes collect_pvs update_blocks
refresh d w =
    let (self', s) = update_volumes w.blocks d w.jobs w.self in
    let pvs = collect_pvs (infos_of (lookup_dicts d "pvs")) [] in
    let (blocks', linked) =
      update_blocks self'.name self'.object_path self'.logical_volumes pvs w.blocks in
    record {
      self = self';
      blocks = blocks';
      jobs = s.jobs;
      actions = w.actions ++ (s.actions ++ linked);
    }

-- After the basic properties the group is published, if that is not done already.
unfoldable pub publish : World → World
unfolding publish_if_needed
publish w =
    let (self', done) = publish_if_needed w.self in
    record w { self = self'; actions = w.actions ++ done }

unfoldable pub update_with_variant : Report → World → World
unfolding publish refresh update_props
update_with_variant (failure message) w = publish w
update_with_variant (info d) w = refresh d (publish (record w { self = update_props w.self d }))

-- A round of the loop of `poll_with_variant`: only volumes that are in the table are updated. What
-- `needs_polling` becomes there is not used.
unfoldable pub poll_found : Option LogicalVolume → Bytes → Dict → World → World
poll_found none name d w = w
poll_found (some volume) name d w =
    let (volume', done) =
      LogicalVolume.Update.update volume w.self.name w.self.object_path w.self.logical_volumes d in
    record w {
      self = record (w.self) { logical_volumes = insert name volume' w.self.logical_volumes };
      actions = w.actions ++ done;
    }

unfoldable pub poll_volume : Option Bytes → Dict → World → World
unfolding poll_found
poll_volume none d w = w
poll_volume (some name) d w = poll_found (lookup name w.self.logical_volumes) name d w

unfoldable pub poll_rounds : List Dict → World → World
unfolding update_operations poll_volume
poll_rounds [] w = w
poll_rounds (d ∷ ds) w =
    let name = lookup_string d "name" in
    let (jobs', _) = update_operations w.blocks name d (w.jobs, false) in
    poll_rounds ds (poll_volume name d (record w { jobs = jobs' }))

unfoldable pub poll_report : Report → World → World
unfolding poll_rounds update_props
poll_report (failure message) w = w
poll_report (info d) w =
    poll_rounds (infos_of (lookup_dicts d "lvs")) (record w { self = update_props w.self d })

-- `poll_with_variant`: the report of a process that is not the current one is dropped.
unfoldable pub poll_with_variant : ℕ → Report → World → World
unfolding poll_report
poll_with_variant pid report w =
    if pid == w.self.poll_pid
    then poll_report report (record w { self = record (w.self) { poll_pid = 0 } })
    else w
