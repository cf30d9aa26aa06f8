-- ===== src/Accessors/Construct/Instances.antt =====
-- The interface of what a class keeps in its objects, for each class.
use udisks_lvm.Accessors.Classes.{
  daemon, block, volume_group, logical_volume, job, spawned_job, threaded_job, Kind, class_of,
}
use udisks_lvm.Accessors.Construct.Fields.{Fields}
use udisks_lvm.Accessors.Construct.Jobs.{
  job_slot, job_put, JobAllowed, job_set, job_self, job_other, spawned_slot, spawned_put,
  SpawnedAllowed, spawned_set, spawned_self, spawned_other, threaded_slot, threaded_put,
  ThreadedAllowed, threaded_set, threaded_self, threaded_other,
}
use udisks_lvm.Accessors.Construct.Objects.{
  daemon_slot, daemon_put, DaemonAllowed, daemon_set, daemon_self, daemon_other, block_slot,
  block_put, BlockAllowed, block_set, block_self, block_other, group_slot, group_put, group_set,
  group_self, group_other, volume_slot, volume_put, VolumeAllowed, volume_set, volume_self,
  volume_other,
}
use udisks_lvm.Base.{ℕ, Option, Bytes}

abbrev pub fields_of :
    (id : ℕ) (path_of : ℕ → Option Bytes) (k : Kind) → Fields (class_of id path_of k)
fields_of id path_of daemon = record {
  slot = daemon_slot;
  put = daemon_put;
  Allowed = DaemonAllowed;
  set_put = λ p v s a e. daemon_set p v s a e;
  put_self = λ p v s a. daemon_self p v s a;
  put_other = daemon_other;
}
fields_of id path_of block = record {
  slot = block_slot;
  put = block_put;
  Allowed = BlockAllowed;
  set_put = λ p v s a e. block_set p v s a e;
  put_self = λ p v s a. block_self p v s a;
  put_other = block_other;
}
fields_of id path_of volume_group = record {
  slot = group_slot;
  put = group_put;
  Allowed = λ p v. Unit;
  set_put = λ p v s a e. group_set p v s;
  put_self = λ p v s a. group_self p v s;
  put_other = group_other;
}
fields_of id path_of logical_volume = record {
  slot = volume_slot;
  put = volume_put;
  Allowed = VolumeAllowed;
  set_put = λ p v s a e. volume_set p v s a;
  put_self = λ p v s a. volume_self p v s a;
  put_other = volume_other;
}
fields_of id path_of job = record {
  slot = job_slot;
  put = job_put;
  Allowed = JobAllowed;
  set_put = λ p v s a e. job_set id p v s a e;
  put_self = λ p v s a. job_self p v s;
  put_other = job_other;
}
fields_of id path_of spawned_job = record {
  slot = spawned_slot;
  put = spawned_put;
  Allowed = SpawnedAllowed;
  set_put = λ p v s a e. spawned_set id p v s a e;
  put_self = λ p v s a. spawned_self p v s;
  put_other = spawned_other;
}
fields_of id path_of threaded_job = record {
  slot = threaded_slot;
  put = threaded_put;
  Allowed = ThreadedAllowed;
  set_put = λ p v s a e. threaded_set id p v s a e;
  put_self = λ p v s a. threaded_self p v s;
  put_other = threaded_other;
}
