-- ===== src/Accessors/Construct/Jobs.antt =====
-- What the accessors of src/job.c, src/spawnedjob.c and src/threadedjob.c keep in objects.
use udisks_lvm.Accessors.{done}
use udisks_lvm.Accessors.Construct.Fields.{set_once-none}
use udisks_lvm.Accessors.Jobs.{
  JobProp, cancellable, auto_estimate, JobObject, JobValue, job_init, job_set_property, SpawnedProp,
  argv, input_string, run_as_uid, run_as_euid, SpawnedObject, SpawnedValue, spawned_init, of_parent,
  spawned_set_property, ThreadedProp, job_func, user_data, user_data_free_func, ThreadedObject,
  ThreadedValue, threaded_init, to_threaded, threaded_set_property,
}
use udisks_lvm.Accessors.Jobs as Jobs
use udisks_lvm.Base.{ℕ, ◌≡◌, ◌≢◌, refl, ap}

-- UlJob
abbrev pub job_slot : (p : JobProp) → JobObject → JobValue p
job_slot cancellable s = s.cancellable
job_slot auto_estimate s = s.estimate.auto_estimate

abbrev pub job_put : (p : JobProp) → JobValue p → JobObject → JobObject
job_put cancellable v s = record s { cancellable = v }
job_put auto_estimate v s = record s { estimate = record (s.estimate) { auto_estimate = v } }

abbrev pub JobAllowed : (p : JobProp) → JobValue p → Type 0
JobAllowed cancellable v = Unit
JobAllowed auto_estimate v = ⊥

pub job_set :
    (id : ℕ) (p : JobProp) (v : JobValue p) (s : JobObject)
    → JobAllowed p v
    → job_slot p s ≡ job_slot p job_init
    → job_set_property id p v s ≡ done (job_put p v s)
unfolding job_init job_set_property
job_set id cancellable v s a e = set_once-none s.cancellable _ e
job_set id auto_estimate v s a e = absurd a

pub job_self : (p : JobProp) (v : JobValue p) (s : JobObject) → job_slot p (job_put p v s) ≡ v
job_self cancellable v s = refl
job_self auto_estimate v s = refl

pub job_other :
    (p q : JobProp) (v : JobValue p) (s : JobObject)
    → q ≢ p
    → job_slot q (job_put p v s) ≡ job_slot q s
job_other cancellable cancellable v s h = absurd (h refl)
job_other auto_estimate auto_estimate v s h = absurd (h refl)
job_other p q v s h = refl

-- UlSpawnedJob
abbrev pub spawned_slot : (p : SpawnedProp) → SpawnedObject → SpawnedValue p
spawned_slot argv s = s.argv
spawned_slot input_string s = s.input_string
spawned_slot run_as_uid s = s.run_as_uid
spawned_slot run_as_euid s = s.run_as_euid
spawned_slot (Jobs.SpawnedProp.of_job p) s = job_slot p s.job

abbrev pub spawned_put : (p : SpawnedProp) → SpawnedValue p → SpawnedObject → SpawnedObject
spawned_put argv v s = record s { argv = v }
spawned_put input_string v s = record s { input_string = v }
spawned_put run_as_uid v s = record s { run_as_uid = v }
spawned_put run_as_euid v s = record s { run_as_euid = v }
spawned_put (Jobs.SpawnedProp.of_job p) v s = record s { job = job_put p v s.job }

abbrev pub SpawnedAllowed : (p : SpawnedProp) → SpawnedValue p → Type 0
SpawnedAllowed (Jobs.SpawnedProp.of_job p) v = JobAllowed p v
SpawnedAllowed p v = Unit

pub spawned_set :
    (id : ℕ) (p : SpawnedProp) (v : SpawnedValue p) (s : SpawnedObject)
    → SpawnedAllowed p v
    → spawned_slot p s ≡ spawned_slot p spawned_init
    → spawned_set_property id p v s ≡ done (spawned_put p v s)
unfolding spawned_init spawned_set_property
spawned_set id argv v s a e = set_once-none s.argv _ e
spawned_set id input_string v s a e = set_once-none s.input_string _ e
spawned_set id run_as_uid v s a e = refl
spawned_set id run_as_euid v s a e = refl
spawned_set id (Jobs.SpawnedProp.of_job p) v s a e =
    ap (λ o. of_parent o s) (job_set id p v s.job a e)

pub spawned_self :
    (p : SpawnedProp) (v : SpawnedValue p) (s : SpawnedObject)
    → spawned_slot p (spawned_put p v s) ≡ v
spawned_self argv v s = refl
spawned_self input_string v s = refl
spawned_self run_as_uid v s = refl
spawned_self run_as_euid v s = refl
spawned_self (Jobs.SpawnedProp.of_job p) v s = job_self p v s.job

pub spawned_other :
    (p q : SpawnedProp) (v : SpawnedValue p) (s : SpawnedObject)
    → q ≢ p
    → spawned_slot q (spawned_put p v s) ≡ spawned_slot q s
spawned_other argv argv v s h = absurd (h refl)
spawned_other input_string input_string v s h = absurd (h refl)
spawned_other run_as_uid run_as_uid v s h = absurd (h refl)
spawned_other run_as_euid run_as_euid v s h = absurd (h refl)
spawned_other (Jobs.SpawnedProp.of_job p) (Jobs.SpawnedProp.of_job q) v s h =
    job_other p q v s.job (λ e. h (ap (λ x. Jobs.SpawnedProp.of_job x) e))
spawned_other p q v s h = refl

-- UlThreadedJob
abbrev pub threaded_slot : (p : ThreadedProp) → ThreadedObject → ThreadedValue p
threaded_slot job_func s = s.job_func
threaded_slot user_data s = s.user_data
threaded_slot user_data_free_func s = s.user_data_free_func
threaded_slot (Jobs.ThreadedProp.of_job p) s = job_slot p s.job

abbrev pub threaded_put : (p : ThreadedProp) → ThreadedValue p → ThreadedObject → ThreadedObject
threaded_put job_func v s = record s { job_func = v }
threaded_put user_data v s = record s { user_data = v }
threaded_put user_data_free_func v s = record s { user_data_free_func = v }
threaded_put (Jobs.ThreadedProp.of_job p) v s = record s { job = job_put p v s.job }

abbrev pub ThreadedAllowed : (p : ThreadedProp) → ThreadedValue p → Type 0
ThreadedAllowed (Jobs.ThreadedProp.of_job p) v = JobAllowed p v
ThreadedAllowed p v = Unit

pub threaded_set :
    (id : ℕ) (p : ThreadedProp) (v : ThreadedValue p) (s : ThreadedObject)
    → ThreadedAllowed p v
    → threaded_slot p s ≡ threaded_slot p threaded_init
    → threaded_set_property id p v s ≡ done (threaded_put p v s)
unfolding threaded_init threaded_set_property
threaded_set id job_func v s a e = set_once-none s.job_func _ e
threaded_set id user_data v s a e = set_once-none s.user_data _ e
threaded_set id user_data_free_func v s a e = set_once-none s.user_data_free_func _ e
threaded_set id (Jobs.ThreadedProp.of_job p) v s a e =
    ap (λ o. to_threaded o s) (job_set id p v s.job a e)

pub threaded_self :
    (p : ThreadedProp) (v : ThreadedValue p) (s : ThreadedObject)
    → threaded_slot p (threaded_put p v s) ≡ v
threaded_self job_func v s = refl
threaded_self user_data v s = refl
threaded_self user_data_free_func v s = refl
threaded_self (Jobs.ThreadedProp.of_job p) v s = job_self p v s.job

pub threaded_other :
    (p q : ThreadedProp) (v : ThreadedValue p) (s : ThreadedObject)
    → q ≢ p
    → threaded_slot q (threaded_put p v s) ≡ threaded_slot q s
threaded_other job_func job_func v s h = absurd (h refl)
threaded_other user_data user_data v s h = absurd (h refl)
threaded_other user_data_free_func user_data_free_func v s h = absurd (h refl)
threaded_other (Jobs.ThreadedProp.of_job p) (Jobs.ThreadedProp.of_job q) v s h =
    job_other p q v s.job (λ e. h (ap (λ x. Jobs.ThreadedProp.of_job x) e))
threaded_other p q v s h = refl
