-- ===== src/Daemon/JobObjects/Exported.antt =====
-- src/daemon.c: each job has an object of its own while it runs, and the daemon counts them right.
use udisks_lvm.Base.{
  ℕ, suc, ◌+◌, ◌-◌, ◌^◌, ◌≤◌, ◌<◌, true, false, Option, none, some, List, [], ◌∷◌, ◌++◌, Bytes,
  codes, decimal, read_decimal, read_decimal-decimal, str_equal, str_equal_iff, length, ltb, ◌≡◌,
  ◌⊎◌, refl, sym, ap, ◌∙◌, arith, inl, inr, Bool-cases,
}
use udisks_lvm.Base.Table.{Table, lookup, steal, lookup-insert}
use udisks_lvm.Base.Table.Sizes.{length-insert_new, length-steal, lookup-steal_absent}
use udisks_lvm.Daemon.JobObjects.{
  JobObject, State, print_int, job_object_path, launch_job, counted, job_completed, Event,
  completed, launched_spawned, launched_threaded, launch_spawned_job, launch_spawned_jobv,
  launch_threaded_job, handle, run,
}
use udisks_lvm.Daemon.Lifecycle.{Daemon, is_idle, maybe_finished, job_launched, on_job_completed}

abbrev pub launches : List Event → ℕ
launches [] = 0
launches (launched_spawned thing operation uid input args ∷ es) = suc (launches es)
launches (launched_threaded thing operation uid job_func ∷ es) = suc (launches es)
launches (completed path ∷ es) = launches es

-- The ids that are not used yet have no object, and the count is the number of objects.
pub record Tracked (s : State) : Type 0 where
  pub fresh : (id : ℕ) → s.job_id ≤ id → id < 2 ^ 31 → lookup (job_object_path id) s.exported ≡ none
  pub count : s.daemon.num_jobs ≡ length s.exported

dropped_prefix : (a b c : Bytes) → a ++ b ≡ a ++ c → b ≡ c
dropped_prefix [] b c e = e
dropped_prefix (x ∷ a) b c e = dropped_prefix a b c cc

print_int_small : (n : ℕ) → n < 2 ^ 31 → print_int n ≡ decimal n
unfolding print_int
print_int_small n h = ground (arith, h)

paths_differ : (i j : ℕ) → i < 2 ^ 31 → j < 2 ^ 31 → job_object_path i ≡ job_object_path j → i ≡ j
unfolding job_object_path
paths_differ i j hi hj e =
    sym (read_decimal-decimal i (omega (arith, hi)))
    ∙ ap (read_decimal 0) (
        sym (print_int_small i hi)
        ∙ dropped_prefix (codes "/org/freedesktop/UDisks2/jobs/") (print_int i) (print_int j) e
        ∙ print_int_small j hj)
    ∙ read_decimal-decimal j (omega (arith, hj))

unequal : (i j : ℕ) → i < j → j < 2 ^ 31 → str_equal (job_object_path i) (job_object_path j) ≡ false
unequal i j h hj = elim (Bool-cases (str_equal (job_object_path i) (job_object_path j))) [
  | inl e ↦ absurd (
      omega (
        arith,
        h,
        paths_differ i j (omega (arith, h, hj)) hj
            ((str_equal_iff (job_object_path i) (job_object_path j)).0 e),
      ))
  | inr e ↦ e
]

launch-Tracked :
    (thing : Option Bytes) (operation : Bytes) (uid : ℕ) (s : State)
    → s.job_id < 2 ^ 31
    → Tracked s
    → Tracked (launch_job thing operation uid s)
unfolding launch_job job_launched
launch-Tracked thing operation uid s h t = record {
  fresh = λ id a b.
      let less : s.job_id < id = omega (arith, a, h) in
      lookup-insert (job_object_path s.job_id) (job_object_path id) _ s.exported
      ∙ rw (unequal s.job_id id less b) (t.fresh id (omega (arith, less)) b);
  count =
      let new =
        length-insert_new (job_object_path s.job_id) _ s.exported
          (t.fresh s.job_id (omega arith) h) in
      ap (λ n. n + 1) t.count ∙ sym new;
}

maybe_finished-num_jobs : (d : Daemon) → (maybe_finished d).num_jobs ≡ d.num_jobs
unfolding maybe_finished
maybe_finished-num_jobs d = ground arith

less_one :
    (d : Daemon) (n : ℕ)
    → d.num_jobs ≡ n + 1
    → (d' : Daemon) × (on_job_completed d ≡ some d') × (d'.num_jobs ≡ n)
less_one d n e =
    let less = record d { num_jobs = d.num_jobs - 1 } in
    let positive : ltb 0 d.num_jobs ≡ true = ground (arith, e) in
    (
      maybe_finished less,
      unfold on_job_completed in rw positive refl,
      maybe_finished-num_jobs less ∙ omega (arith, e),
    )

-- No assertion has failed.
abbrev Goes : ℕ → Option State → Type 0
Goes id o = (s : State) × (o ≡ some s) × (s.job_id ≡ id) × Tracked s

complete-Tracked :
    (path : Bytes) (s : State) (found : Option JobObject)
    → lookup path s.exported ≡ found
    → Tracked s
    → Goes s.job_id (job_completed path s found)
unfolding job_completed counted
complete-Tracked path s none e t = (s, refl, refl, t)
complete-Tracked path s (some job) e t =
    let (d, e1, e2) =
      less_one s.daemon (length (steal path s.exported))
        (t.count ∙ length-steal path job s.exported e) in
    (
      record s { daemon = d; exported = steal path s.exported },
      ap (counted path s) e1,
      refl,
      record {
        fresh = λ id a b. lookup-steal_absent path (job_object_path id) s.exported (t.fresh id a b);
        count = e2;
      },
    )

busy : (d : Daemon) → is_idle d ≡ true → d.num_jobs ≡ 0
unfolding is_idle
busy d h = ground (arith, h)

none_left : (exported : Table JobObject) → length exported ≡ 0 → exported ≡ []
none_left [] e = refl
none_left (x ∷ exported) e = absurd (omega (arith, e))

next_id :
    (thing : Option Bytes) (operation : Bytes) (uid : ℕ) (s : State)
    → s.job_id < 2 ^ 31
    → (launch_job thing operation uid s).job_id ≡ s.job_id + 1
unfolding launch_job
next_id thing operation uid s h = omega (arith, h)

after_launch :
    (thing : Option Bytes) (operation : Bytes) (uid : ℕ) (es : List Event) (s : State)
    → s.job_id + suc (launches es) ≤ 2 ^ 31
    → Tracked s
    → let s1 = launch_job thing operation uid s in
      (s1.job_id ≡ s.job_id + 1
        → s1.job_id + launches es ≤ 2 ^ 31
        → Tracked s1
        → Goes (s1.job_id + launches es) (run es (some s1)))
      → Goes (s.job_id + suc (launches es)) (run es (some s1))
after_launch thing operation uid es s h t continue =
    let below : s.job_id < 2 ^ 31 = omega (arith, h) in
    let next = next_id thing operation uid s below in
    let (x, e1, e2, t') =
      continue next (omega (arith, h, next)) (launch-Tracked thing operation uid s below t) in
    (x, e1, omega (arith, e2, next), t')

run-Goes :
    (es : List Event) (s : State)
    → s.job_id + launches es ≤ 2 ^ 31
    → Tracked s
    → Goes (s.job_id + launches es) (run es (some s))
unfolding run handle launch_spawned_job launch_spawned_jobv launch_threaded_job
run-Goes [] s h t = (s, refl, omega arith, t)
run-Goes (launched_spawned thing operation uid input args ∷ es) s h t =
    after_launch thing operation uid es s h t λ k b t'. run-Goes es _ b t'
run-Goes (launched_threaded thing operation uid job_func ∷ es) s h t =
    after_launch thing operation uid es s h t λ k b t'. run-Goes es _ b t'
run-Goes (completed path ∷ es) s h t =
    let (s1, e1, e2, t1) = complete-Tracked path s (lookup path s.exported) refl t in
    let (x, e3, e4, t2) = run-Goes es s1 (omega (arith, h, e2)) t1 in
    (x, ap (run es) e1 ∙ e3, omega (arith, e4, e2), t2)

-- A daemon that has not launched a job.
unfoldable pub start : Daemon → State
start d = record { daemon = d; job_id = 0; exported = [] }

start-Tracked : (d : Daemon) → d.num_jobs ≡ 0 → Tracked (start d)
unfolding start
start-Tracked d h = record { fresh = λ id a b. unfold lookup in refl; count = h }

-- However jobs are launched and completed, up to 2 ^ 31 of them, each gets an object path that no other
-- exported job has, the daemon's count is the number of exported jobs, so that the assertion on it does
-- not fail, and the daemon is not taken for idle while a job is exported.
pub run-Tracked :
    (es : List Event) (d : Daemon)
    → d.num_jobs ≡ 0
    → launches es ≤ 2 ^ 31
    → (s : State) × (run es (some (start d)) ≡ some s)
      × Tracked s
      × ((is_idle s.daemon ≡ false) ⊎ (s.exported ≡ []))
run-Tracked es d h l =
    let (s, e, _, t) =
      run-Goes es (start d) (unfold start in omega (arith, l)) (start-Tracked d h) in
    (
      s,
      e,
      t,
      elim (Bool-cases (is_idle s.daemon)) [
        | inl i ↦ inr (none_left s.exported (sym t.count ∙ busy s.daemon i))
        | inr i ↦ inl i
      ],
    )
