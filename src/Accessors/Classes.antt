-- ===== src/Accessors/Classes.antt =====
-- The classes of src/daemon.c, src/block.c, src/volumegroup.c, src/logicalvolume.c, src/job.c,
-- src/spawnedjob.c and src/threadedjob.c that have properties.
use udisks_lvm.Accessors.{Class}
use udisks_lvm.Accessors.Jobs.{
  JobProp, JobObject, JobValue, job_flags, job_init, job_set_property, job_get_property,
  SpawnedProp, SpawnedObject, SpawnedValue, spawned_flags, spawned_init, spawned_set_property,
  spawned_get_property, ThreadedProp, ThreadedObject, ThreadedValue, threaded_flags, threaded_init,
  threaded_set_property, threaded_get_property,
}
use udisks_lvm.Accessors.Objects.{
  DaemonProp, DaemonObject, DaemonValue, daemon_flags, daemon_init, daemon_set_property,
  daemon_get_property, BlockProp, BlockObject, BlockValue, block_flags, block_init,
  block_set_property, GroupProp, GroupObject, GroupValue, group_flags, group_init,
  group_set_property, group_get_property, VolumeProp, VolumeObject, VolumeValue, volume_flags,
  volume_init, volume_set_property, volume_get_property,
}
use udisks_lvm.Base.{ℕ, Option, none, Bytes}

-- The classes.
pub data Kind : Type 0 where
  daemon block volume_group logical_volume job spawned_job threaded_job : Kind

-- With the identifier that a signal handler gets, and the object paths of volume groups.
abbrev pub class_of : ℕ → (ℕ → Option Bytes) → Kind → Class
class_of id path_of daemon = record {
  Self = DaemonObject;
  Prop = DaemonProp;
  Value = DaemonValue;
  flags = daemon_flags;
  init = daemon_init;
  set_property = daemon_set_property;
  get_property = daemon_get_property;
}
class_of id path_of block = record {
  Self = BlockObject;
  Prop = BlockProp;
  Value = BlockValue;
  flags = block_flags;
  init = block_init;
  set_property = block_set_property;
  get_property = λ p s. none;
}
class_of id path_of volume_group = record {
  Self = GroupObject;
  Prop = GroupProp;
  Value = GroupValue;
  flags = group_flags;
  init = group_init;
  set_property = group_set_property;
  get_property = group_get_property;
}
class_of id path_of logical_volume = record {
  Self = VolumeObject;
  Prop = VolumeProp;
  Value = VolumeValue;
  flags = volume_flags;
  init = volume_init;
  set_property = volume_set_property;
  get_property = volume_get_property path_of;
}
class_of id path_of job = record {
  Self = JobObject;
  Prop = JobProp;
  Value = JobValue;
  flags = job_flags;
  init = job_init;
  set_property = job_set_property id;
  get_property = job_get_property;
}
class_of id path_of spawned_job = record {
  Self = SpawnedObject;
  Prop = SpawnedProp;
  Value = SpawnedValue;
  flags = spawned_flags;
  init = spawned_init;
  set_property = spawned_set_property id;
  get_property = spawned_get_property;
}
class_of id path_of threaded_job = record {
  Self = ThreadedObject;
  Prop = ThreadedProp;
  Value = ThreadedValue;
  flags = threaded_flags;
  init = threaded_init;
  set_property = threaded_set_property id;
  get_property = threaded_get_property;
}
