-- ===== src/Daemon/JobObjects.antt =====
-- src/daemon.c: the objects of jobs, from `ul_daemon_launch_spawned_jobv` or
-- `ul_daemon_launch_threaded_job` to `on_job_completed`. Both launch in the same way; the job itself is
-- in SpawnedJob and ThreadedJob.
pub mod Exported
use udisks_lvm.Base.{
  ℕ, ◌+◌, ◌-◌, ◌%◌, ◌^◌, Bool, true, Option, none, some, List, [], ◌∷◌, ◌++◌, Bytes, codes, decimal,
  ltb, if◌then◌else◌,
}
use udisks_lvm.Base.Table.{Table, lookup, insert, steal}
use udisks_lvm.Daemon.Lifecycle.{Daemon, job_launched, on_job_completed}
use udisks_lvm.Job.{add_thing}
use udisks_lvm.Jobs.{until_null}

-- The properties of org.freedesktop.UDisks2.Job that are set.
pub record JobObject : Type 0 where
  pub objects : List Bytes
  pub cancelable : Bool
  pub operation : Bytes
  pub started_by_uid : ℕ

-- The daemon, the static `job_id`, and the exported jobs by object path.
pub record State : Type 0 where
  pub daemon : Daemon
  pub job_id : ℕ
  pub exported : Table JobObject

-- printf ("%d") of a `guint`.
unfoldable pub print_int : ℕ → Bytes
print_int n = if ltb n (2 ^ 31) then decimal n else codes "-" ++ decimal (2 ^ 32 - n)

unfoldable pub job_object_path : ℕ → Bytes
unfolding print_int
job_object_path id = codes "/org/freedesktop/UDisks2/jobs/" ++ print_int id

-- `object_or_interface`, by its path.
unfoldable pub things : Option Bytes → List Bytes
unfolding add_thing
things none = []
things (some path) = add_thing path []

-- What both functions do with a new job.
unfoldable pub launch_job : Option Bytes → Bytes → ℕ → State → State
unfolding job_launched
launch_job object_or_interface job_operation job_started_by_uid s = record {
  daemon = job_launched s.daemon;
  job_id = (s.job_id + 1) % 2 ^ 32;
  exported =
      insert (job_object_path s.job_id)
        (record {
          objects = things object_or_interface;
          cancelable = true;
          operation = job_operation;
          started_by_uid = job_started_by_uid;
        })
        s.exported;
}

-- A job that runs a command: its argument vector and input; and one that runs a function, by its name.
pub data Work : Type 0 where
  spawned_job : (argv : List Bytes) (input_string : Option Bytes) → Work
  threaded_job : (job_func : Bytes) → Work

-- `ul_daemon_launch_spawned_jobv`, with the job that it makes.
unfoldable pub launch_spawned_jobv :
    Option Bytes → Bytes → ℕ → Option Bytes → List Bytes → State → Work × State
unfolding launch_job
launch_spawned_jobv object_or_interface job_operation job_started_by_uid input_string argv s = (
  spawned_job argv input_string,
  launch_job object_or_interface job_operation job_started_by_uid s,
)

-- `ul_daemon_launch_spawned_job`, whose arguments end at the first NULL.
unfoldable pub launch_spawned_job :
    Option Bytes → Bytes → ℕ → Option Bytes → List (Option Bytes) → State → Work × State
unfolding launch_spawned_jobv until_null
launch_spawned_job object_or_interface job_operation job_started_by_uid input_string args s =
    launch_spawned_jobv object_or_interface job_operation job_started_by_uid input_string
      (until_null args) s

unfoldable pub launch_threaded_job : Option Bytes → Bytes → ℕ → Bytes → State → Work × State
unfolding launch_job
launch_threaded_job object_or_interface job_operation job_started_by_uid job_func s =
    (threaded_job job_func, launch_job object_or_interface job_operation job_started_by_uid s)

-- What is left when the count has been decreased; `none` where the assertion on it fails.
unfoldable pub counted : Bytes → State → Option Daemon → Option State
counted path s none = none
counted path s (some d) = some (record s { daemon = d; exported = steal path s.exported })

-- `on_job_completed`, for the job that is exported at the path, if there is one.
unfoldable pub job_completed : Bytes → State → Option JobObject → Option State
unfolding counted on_job_completed
job_completed path s none = some s
job_completed path s (some job) = counted path s (on_job_completed s.daemon)

pub data Event : Type 0 where
  -- object or interface, operation, user; then the input and the arguments, or the function
  launched_spawned : Option Bytes → Bytes → ℕ → Option Bytes → List (Option Bytes) → Event
  launched_threaded : Option Bytes → Bytes → ℕ → Bytes → Event
  completed : Bytes → Event

unfoldable pub handle : Event → State → Option State
unfolding launch_spawned_job launch_threaded_job job_completed
handle (launched_spawned thing operation uid input args) s =
    some (launch_spawned_job thing operation uid input args s).1
handle (launched_threaded thing operation uid job_func) s =
    some (launch_threaded_job thing operation uid job_func s).1
handle (completed path) s = job_completed path s (lookup path s.exported)

unfoldable pub run : List Event → Option State → Option State
unfolding handle
run [] o = o
run (e ∷ es) none = none
run (e ∷ es) (some s) = run es (handle e s)
