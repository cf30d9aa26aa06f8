-- ===== src/Accessors/Agree.antt =====
-- src/daemon.c, src/block.c, src/volumegroup.c, src/logicalvolume.c, src/job.c, src/spawnedjob.c and
-- src/threadedjob.c: the accessors of each class have a case for the properties that its flags allow.
use udisks_lvm.Accessors.{Outcome, done, warned, aborted, set_once, Class}
use udisks_lvm.Accessors.Classes.{
  daemon, block, volume_group, logical_volume, job, spawned_job, threaded_job, Kind, class_of,
}
use udisks_lvm.Accessors.Jobs.{
  JobProp, cancellable, auto_estimate, JobObject, JobValue, job_flags, job_init, estimated,
  job_set_property, job_get_property, SpawnedProp, argv, input_string, run_as_uid, run_as_euid,
  SpawnedObject, SpawnedValue, spawned_flags, spawned_init, of_parent, spawned_set_property,
  spawned_get_property, ThreadedProp, job_func, user_data, user_data_free_func, ThreadedObject,
  ThreadedValue, threaded_flags, threaded_init, to_threaded, threaded_set_property,
  threaded_get_property,
}
use udisks_lvm.Accessors.Jobs as Jobs
use udisks_lvm.Accessors.Objects.{
  DaemonProp, connection, object_manager, resource_dir, replace_name, persist, DaemonObject,
  DaemonValue, daemon_flags, daemon_init, daemon_set_property, daemon_get_property, BlockProp,
  real_block, udev_client, BlockObject, BlockValue, block_flags, block_init, block_set_property,
  GroupProp, GroupObject, GroupValue, group_flags, group_init, group_set_property,
  group_get_property, VolumeProp, VolumeObject, VolumeValue, volume_flags, volume_init,
  volume_set_property, volume_get_property,
}
use udisks_lvm.Accessors.Objects as Objects
use udisks_lvm.Base.{ℕ, Bool, true, false, Option, none, some, Bytes, ◌≡◌, refl, ◌∙◌}
use udisks_lvm.Job.{Estimate, set_auto_estimate}

-- An accessor has a case for the property.
abbrev has_case : {S : Type 0} → Outcome S → Bool
has_case (done s) = true
has_case warned = false
has_case aborted = true

abbrev answers : {V : Type 0} → Option V → Bool
answers none = false
answers (some v) = true

abbrev Agrees : (c : Class) → c.Prop → Type 0
Agrees c p =
    (s : c.Self) (v : c.Value p)
    → (answers (c.get_property p s) ≡ (c.flags p).readable)
      × (has_case (c.set_property p v s) ≡ (c.flags p).writable)

once : {V S : Type 0} (o : Option V) (s : S) → has_case (set_once o s) ≡ true
unfolding set_once
once none s = refl
once (some v) s = refl

daemon-Agrees : (p : DaemonProp) → Agrees (class_of 0 (λ n. none) daemon) p
unfolding daemon_flags daemon_set_property daemon_get_property
daemon-Agrees connection s v = (refl, once s.connection _)
daemon-Agrees object_manager s v = (refl, refl)
daemon-Agrees resource_dir s v = (refl, once s.resource_dir _)
daemon-Agrees replace_name s v = (refl, refl)
daemon-Agrees persist s v = (refl, refl)

block-Agrees : (p : BlockProp) → Agrees (class_of 0 (λ n. none) block) p
unfolding block_flags block_set_property
block-Agrees real_block s none = (refl, refl)
block-Agrees udev_client s none = (refl, refl)
block-Agrees real_block s (some v) = (refl, refl)
block-Agrees udev_client s (some v) = (refl, refl)

group-Agrees : (p : GroupProp) → Agrees (class_of 0 (λ n. none) volume_group) p
unfolding group_flags group_set_property group_get_property
group-Agrees Objects.GroupProp.name s v = (refl, refl)

volume-Agrees :
    (path_of : ℕ → Option Bytes) (p : VolumeProp) → Agrees (class_of 0 path_of logical_volume) p
unfolding volume_flags volume_set_property volume_get_property
volume-Agrees path_of Objects.VolumeProp.name s v = (refl, refl)
volume-Agrees path_of Objects.VolumeProp.group s v = (refl, refl)
volume-Agrees path_of Objects.VolumeProp.volume_group s v = (refl, refl)

estimated_case : (e : Option Estimate) (s : JobObject) → has_case (estimated e s) ≡ true
unfolding estimated
estimated_case none s = refl
estimated_case (some e) s = refl

module _ (id : ℕ) where
  job-Agrees : (p : JobProp) → Agrees (class_of id (λ n. none) job) p
  unfolding job_flags job_set_property job_get_property
  job-Agrees cancellable s v = (refl, once s.cancellable _)
  job-Agrees auto_estimate s v = (refl, estimated_case (set_auto_estimate id v s.estimate) s)

  parent_case : (o : Outcome JobObject) (s : SpawnedObject) → has_case (of_parent o s) ≡ has_case o
  unfolding of_parent
  parent_case (done j) s = refl
  parent_case warned s = refl
  parent_case aborted s = refl

  spawned-Agrees : (p : SpawnedProp) → Agrees (class_of id (λ n. none) spawned_job) p
  unfolding spawned_flags spawned_set_property spawned_get_property
  spawned-Agrees argv s v = (refl, once s.argv _)
  spawned-Agrees input_string s v = (refl, once s.input_string _)
  spawned-Agrees run_as_uid s v = (refl, refl)
  spawned-Agrees run_as_euid s v = (refl, refl)
  spawned-Agrees (Jobs.SpawnedProp.of_job p) s v =
      let (get, set) = job-Agrees p s.job v in
      (get, parent_case (job_set_property id p v s.job) s ∙ set)

  threaded_case :
      (o : Outcome JobObject) (s : ThreadedObject) → has_case (to_threaded o s) ≡ has_case o
  unfolding to_threaded
  threaded_case (done j) s = refl
  threaded_case warned s = refl
  threaded_case aborted s = refl

  threaded-Agrees : (p : ThreadedProp) → Agrees (class_of id (λ n. none) threaded_job) p
  unfolding threaded_flags threaded_set_property threaded_get_property
  threaded-Agrees job_func s v = (refl, once s.job_func _)
  threaded-Agrees user_data s v = (refl, once s.user_data _)
  threaded-Agrees user_data_free_func s v = (refl, once s.user_data_free_func _)
  threaded-Agrees (Jobs.ThreadedProp.of_job p) s v =
      let (get, set) = job-Agrees p s.job v in
      (get, threaded_case (job_set_property id p v s.job) s ∙ set)

-- In each class, whatever the object and the value: `get_property` gives a value of the type of the
-- property if its flags say that it is readable, and warns if not; and `set_property` has a case for it exactly if
-- they say that it is writable.
class_of-Agrees :
    (id : ℕ) (path_of : ℕ → Option Bytes) (k : Kind) (p : (class_of id path_of k).Prop)
    → Agrees (class_of id path_of k) p
class_of-Agrees id path_of daemon p = daemon-Agrees p
class_of-Agrees id path_of block p = block-Agrees p
class_of-Agrees id path_of volume_group p = group-Agrees p
class_of-Agrees id path_of logical_volume p = volume-Agrees path_of p
class_of-Agrees id path_of job p = job-Agrees id p
class_of-Agrees id path_of spawned_job p = spawned-Agrees id p
class_of-Agrees id path_of threaded_job p = threaded-Agrees id p
