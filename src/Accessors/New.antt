-- ===== src/Accessors/New.antt =====
-- src/spawnedjob.c, src/threadedjob.c, src/volumegroup.c and src/logicalvolume.c: the values that
-- `..._new` gives to g_object_new, which sets them in an order of its own.
use udisks_lvm.Accessors.Jobs.{
  JobProp, cancellable, auto_estimate, JobValue, SpawnedProp, argv, input_string, run_as_uid,
  run_as_euid, SpawnedObject, SpawnedValue, spawned_init, ThreadedProp, job_func, user_data,
  user_data_free_func, ThreadedObject, ThreadedValue, threaded_init,
}
use udisks_lvm.Accessors.Jobs as Jobs
use udisks_lvm.Accessors.Objects.{
  GroupProp, GroupObject, GroupValue, group_init, VolumeProp, VolumeObject, VolumeValue,
  volume_init,
}
use udisks_lvm.Accessors.Objects as Objects
use udisks_lvm.Base.{ℕ, false, Option, none, some, List, Bytes}

unfoldable pub job_values : Option ℕ → (p : JobProp) → JobValue p
job_values c cancellable = c
job_values c auto_estimate = false

unfoldable pub spawned_values :
    List Bytes → Option Bytes → ℕ → ℕ → Option ℕ → (p : SpawnedProp) → SpawnedValue p
unfolding job_values
spawned_values args input uid euid c argv = some args
spawned_values args input uid euid c input_string = input
spawned_values args input uid euid c run_as_uid = uid
spawned_values args input uid euid c run_as_euid = euid
spawned_values args input uid euid c (Jobs.SpawnedProp.of_job p) = job_values c p

unfoldable pub threaded_values :
    Option ℕ → Option ℕ → Option ℕ → Option ℕ → (p : ThreadedProp) → ThreadedValue p
unfolding job_values
threaded_values func user free c job_func = func
threaded_values func user free c user_data = user
threaded_values func user free c user_data_free_func = free
threaded_values func user free c (Jobs.ThreadedProp.of_job p) = job_values c p

unfoldable pub group_values : Option Bytes → (p : GroupProp) → GroupValue p
group_values name Objects.GroupProp.name = name

unfoldable pub volume_values : ℕ → Bytes → (p : VolumeProp) → VolumeValue p
volume_values group name Objects.VolumeProp.name = some name
volume_values group name Objects.VolumeProp.group = some group
volume_values group name Objects.VolumeProp.volume_group = none
