-- ===== src/Accessors/Jobs.antt =====
-- src/job.c, src/spawnedjob.c and src/threadedjob.c: the properties of jobs. An object, a function or
-- other data is its address, `none` is NULL.
use udisks_lvm.Accessors.{
  Flags, read_write, write_once, read_write_once, Outcome, done, warned, aborted, set_once,
}
use udisks_lvm.Base.{ℕ, Bool, false, Option, none, some, List, Bytes}
use udisks_lvm.Job.{Estimate, set_auto_estimate}

-- UlJob
pub data JobProp : Type 0 where
  cancellable auto_estimate : JobProp

pub record JobObject : Type 0 where
  pub cancellable : Option ℕ
  pub estimate : Estimate

abbrev pub JobValue : JobProp → Type 0
JobValue cancellable = Option ℕ
JobValue auto_estimate = Bool

unfoldable pub job_flags : JobProp → Flags
job_flags cancellable = read_write_once
job_flags auto_estimate = read_write

unfoldable pub job_init : JobObject
job_init = record {
  cancellable = none;
  estimate = record { auto_estimate = false; handler_id = 0; allocated = false };
}

unfoldable pub estimated : Option Estimate → JobObject → Outcome JobObject
estimated none self = aborted
estimated (some e) self = done (record self { estimate = e })

-- `ul_job_set_property`, with the identifier that a signal handler gets.
unfoldable pub job_set_property : ℕ → (p : JobProp) → JobValue p → JobObject → Outcome JobObject
unfolding set_once estimated set_auto_estimate
job_set_property id cancellable value self =
    set_once self.cancellable (record self { cancellable = value })
job_set_property id auto_estimate value self =
    estimated (set_auto_estimate id value self.estimate) self

-- `ul_job_get_property`
unfoldable pub job_get_property : (p : JobProp) → JobObject → Option (JobValue p)
job_get_property cancellable self = some self.cancellable
job_get_property auto_estimate self = some self.estimate.auto_estimate

-- UlSpawnedJob, which inherits the properties of UlJob.
pub data SpawnedProp : Type 0 where
  argv input_string run_as_uid run_as_euid : SpawnedProp
  of_job : JobProp → SpawnedProp

pub record SpawnedObject : Type 0 where
  pub job : JobObject
  pub argv : Option (List Bytes)
  pub input_string : Option Bytes
  pub run_as_uid : ℕ
  pub run_as_euid : ℕ

abbrev pub SpawnedValue : SpawnedProp → Type 0
SpawnedValue argv = Option (List Bytes)
SpawnedValue input_string = Option Bytes
SpawnedValue run_as_uid = ℕ
SpawnedValue run_as_euid = ℕ
SpawnedValue (of_job p) = JobValue p

unfoldable pub spawned_flags : SpawnedProp → Flags
unfolding job_flags
spawned_flags argv = read_write_once
spawned_flags input_string = write_once
spawned_flags run_as_uid = write_once
spawned_flags run_as_euid = write_once
spawned_flags (of_job p) = job_flags p

unfoldable pub spawned_init : SpawnedObject
unfolding job_init
spawned_init = record {
  job = job_init;
  argv = none;
  input_string = none;
  run_as_uid = 0;
  run_as_euid = 0;
}

unfoldable pub of_parent : Outcome JobObject → SpawnedObject → Outcome SpawnedObject
of_parent (done job) self = done (record self { job = job })
of_parent warned self = warned
of_parent aborted self = aborted

-- `ul_spawned_job_set_property`
unfoldable pub spawned_set_property :
    ℕ → (p : SpawnedProp) → SpawnedValue p → SpawnedObject → Outcome SpawnedObject
unfolding set_once job_set_property of_parent
spawned_set_property id argv value self = set_once self.argv (record self { argv = value })
spawned_set_property id input_string value self =
    set_once self.input_string (record self { input_string = value })
spawned_set_property id run_as_uid value self = done (record self { run_as_uid = value })
spawned_set_property id run_as_euid value self = done (record self { run_as_euid = value })
spawned_set_property id (of_job p) value self =
    of_parent (job_set_property id p value self.job) self

-- `ul_spawned_job_get_property`
unfoldable pub spawned_get_property : (p : SpawnedProp) → SpawnedObject → Option (SpawnedValue p)
unfolding job_get_property
spawned_get_property argv self = some self.argv
spawned_get_property input_string self = none
spawned_get_property run_as_uid self = none
spawned_get_property run_as_euid self = none
spawned_get_property (of_job p) self = job_get_property p self.job

-- UlThreadedJob
pub data ThreadedProp : Type 0 where
  job_func user_data user_data_free_func : ThreadedProp
  of_job : JobProp → ThreadedProp

pub record ThreadedObject : Type 0 where
  pub job : JobObject
  pub job_func : Option ℕ
  pub user_data : Option ℕ
  pub user_data_free_func : Option ℕ

abbrev pub ThreadedValue : ThreadedProp → Type 0
ThreadedValue job_func = Option ℕ
ThreadedValue user_data = Option ℕ
ThreadedValue user_data_free_func = Option ℕ
ThreadedValue (of_job p) = JobValue p

unfoldable pub threaded_flags : ThreadedProp → Flags
unfolding job_flags
threaded_flags job_func = read_write_once
threaded_flags user_data = read_write_once
threaded_flags user_data_free_func = read_write_once
threaded_flags (of_job p) = job_flags p

unfoldable pub threaded_init : ThreadedObject
unfolding job_init
threaded_init = record {
  job = job_init;
  job_func = none;
  user_data = none;
  user_data_free_func = none;
}

unfoldable pub to_threaded : Outcome JobObject → ThreadedObject → Outcome ThreadedObject
to_threaded (done job) self = done (record self { job = job })
to_threaded warned self = warned
to_threaded aborted self = aborted

-- `ul_threaded_job_set_property`
unfoldable pub threaded_set_property :
    ℕ → (p : ThreadedProp) → ThreadedValue p → ThreadedObject → Outcome ThreadedObject
unfolding set_once job_set_property to_threaded
threaded_set_property id job_func value self =
    set_once self.job_func (record self { job_func = value })
threaded_set_property id user_data value self =
    set_once self.user_data (record self { user_data = value })
threaded_set_property id user_data_free_func value self =
    set_once self.user_data_free_func (record self { user_data_free_func = value })
threaded_set_property id (of_job p) value self =
    to_threaded (job_set_property id p value self.job) self

-- `ul_threaded_job_get_property`
unfoldable pub threaded_get_property :
    (p : ThreadedProp) → ThreadedObject → Option (ThreadedValue p)
unfolding job_get_property
threaded_get_property job_func self = some self.job_func
threaded_get_property user_data self = some self.user_data
threaded_get_property user_data_free_func self = some self.user_data_free_func
threaded_get_property (of_job p) self = job_get_property p self.job
