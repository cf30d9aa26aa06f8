-- ===== src/Daemon/Lifecycle/Finish.antt =====
-- src/daemon.c: when the daemon finishes.
use udisks_lvm.Base.{
  ℕ, zero, suc, ◌+◌, ◌-◌, true, false, Option, none, some, ◌==◌, ltb, ◌≡◌, ◌≢◌, refl, ap, ◌∙◌,
  arith, if◌then◌else◌,
}
use udisks_lvm.Daemon.Lifecycle.{
  Daemon, maybe_finished, is_idle, on_client_disappeared, on_job_completed,
}

-- `n` jobs are completed.
unfoldable pub complete_jobs : ℕ → Option Daemon → Option Daemon
complete_jobs zero o = o
complete_jobs (suc n) none = none
complete_jobs (suc n) (some self) = complete_jobs n (on_job_completed self)

-- A daemon that is not persistent, without clients and without its name.
abbrev pub gone : ℕ → ℕ → Daemon
gone jobs finished = record {
  persist = false;
  name_owner_id = 0;
  name_owned = false;
  num_clients = 0;
  num_jobs = jobs;
  finished = finished;
}

busy : (n f : ℕ) → maybe_finished (gone (suc n) f) ≡ gone (suc n) f
unfolding maybe_finished is_idle
busy n f = ground arith

one_job : (n f : ℕ) → on_job_completed (gone (suc n) f) ≡ some (maybe_finished (gone n f))
one_job n f =
    let more : ltb 0 (suc n) ≡ true = ground arith in
    let less : suc n - 1 ≡ n = omega arith in unfold on_job_completed in rw (more, less) refl

last_job : (f : ℕ) → on_job_completed (gone 1 f) ≡ some (gone 0 (f + 1))
last_job f = one_job 0 f ∙ ap some (unfold maybe_finished is_idle in refl)

-- One after the other, the jobs that are left are completed, and then the daemon finishes.
drain : (n f : ℕ) → complete_jobs (suc n) (some (gone (suc n) f)) ≡ some (gone 0 (f + 1))
unfolding complete_jobs
drain zero f = last_job f
drain (suc n) f = ap (complete_jobs (suc n)) (one_job (suc n) f ∙ ap some (busy n f)) ∙ drain n f

left :
    (d : Daemon)
    → d.persist ≡ false
    → d.name_owner_id ≢ 0
    → d.num_clients ≡ 1
    → on_client_disappeared d ≡ some (maybe_finished (gone d.num_jobs d.finished))
left d p o c =
    let owned : (d.name_owner_id == 0) ≡ false = ground arith in
    unfold on_client_disappeared in rw (c, p) (rw owned refl)

ends : (n f : ℕ) → complete_jobs n (some (maybe_finished (gone n f))) ≡ some (gone 0 (f + 1))
ends zero f = unfold complete_jobs maybe_finished is_idle in refl
ends (suc n) f = ap (λ d. complete_jobs (suc n) (some d)) (busy n f) ∙ drain n f

-- When the last client of a daemon goes that is not persistent and has asked for its name, the name
-- is given up; and when then the jobs that still run complete, in whatever number they are, "finished"
-- is emitted exactly once, by the last of them, or at once if there are none.
pub finishes_once :
    (d : Daemon)
    → d.persist ≡ false
    → d.name_owner_id ≢ 0
    → d.num_clients ≡ 1
    → (d' : Daemon) × (on_client_disappeared d ≡ some d')
      × (d'.name_owned ≡ false)
      × (d'.finished ≡ (if d.num_jobs == 0 then d.finished + 1 else d.finished))
      × (complete_jobs d.num_jobs (some d') ≡ some (gone 0 (d.finished + 1)))
finishes_once d p o c = (
  maybe_finished (gone d.num_jobs d.finished),
  left d p o c,
  unfold maybe_finished is_idle in ground arith,
  unfold maybe_finished is_idle in ground arith,
  ends d.num_jobs d.finished,
)
