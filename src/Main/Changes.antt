-- ===== src/Main/Changes.antt =====
-- src/main.c and src/daemon.c: what the events of the main loop do to the daemon, when it asks to quit.
use udisks_lvm.Base.{
  ℕ, Bool, true, false, Option, none, some, ltb, ◌⊎◌, ◌≡◌, refl, sym, inl, inr, Bool-cases, arith,
  ◌-◌, subst,
}
use udisks_lvm.Daemon.Lifecycle.{
  Daemon, is_idle, maybe_finished, on_name_lost, on_name_acquired, on_client_appeared, release_name,
  on_client_disappeared, job_launched, on_job_completed,
}
use udisks_lvm.Main.{
  State, Change, name_acquired, name_lost, client_appears, client_disappears, job_starts,
  job_completes, Event, bus_failed, bus_acquired, unix_signal, input_closed, changes, change,
  changed, on_change, handle,
}

-- The bus is there, and nobody ends the program.
abbrev pub Undisturbed : Event → Type 0
Undisturbed bus_failed = ⊥
Undisturbed unix_signal = ⊥
Undisturbed input_closed = ⊥
Undisturbed _ = Unit

-- The daemon is not persistent, and is without its name, clients and jobs.
pub record Unused (d : Daemon) : Type 0 where
  pub not_persistent : d.persist ≡ false
  pub no_name : d.name_owned ≡ false
  pub no_clients : d.num_clients ≡ 0
  pub no_jobs : d.num_jobs ≡ 0

-- The loop has not been asked to quit, or the daemon is not used.
abbrev pub Ends : State → Type 0
Ends s = (s.quit ≡ false) ⊎ ((d : Daemon) × (s.daemon ≡ some d) × Unused d)

idle-Unused : (d : Daemon) → is_idle d ≡ true → Unused d
unfolding is_idle
idle-Unused d e = record {
  not_persistent = ground (arith, e);
  no_name = ground (arith, e);
  no_clients = ground (arith, e);
  no_jobs = ground (arith, e);
}

never : (n m : ℕ) → n ≡ m → ltb n m ≡ true → ⊥
never n m e h = ground (arith, e, h)

finishes_idle :
    (d : Daemon) (n : ℕ)
    → n ≡ d.finished
    → ltb n (maybe_finished d).finished ≡ true
    → Unused (maybe_finished d)
unfolding maybe_finished
finishes_idle d n e h = elim (Bool-cases (is_idle d)) [
  | inl i ↦
      let u = idle-Unused d i in
      rw i (record {
        not_persistent = u.not_persistent;
        no_name = u.no_name;
        no_clients = u.no_clients;
        no_jobs = u.no_jobs;
      })
  | inr i ↦ absurd (never n d.finished e (rw i at h))
]

abbrev Finishes : Daemon → Option Daemon → Type 0
Finishes d none = Unit
Finishes d (some d') = ltb d.finished d'.finished ≡ true → Unused d'

release_name-finished : (d : Daemon) → (release_name d).finished ≡ d.finished
unfolding release_name
release_name-finished d = ground arith

client-Finishes : (d : Daemon) → Finishes d (on_client_disappeared d)
unfolding on_client_disappeared
client-Finishes d = elim (Bool-cases (ltb 0 d.num_clients)) [
  | inl e ↦ rw e λ h.
      let less = record d { num_clients = d.num_clients - 1 } in
      finishes_idle (release_name less) d.finished (sym (release_name-finished less)) h
  | inr e ↦ rw e tt
]

job-Finishes : (d : Daemon) → Finishes d (on_job_completed d)
unfolding on_job_completed
job-Finishes d = elim (Bool-cases (ltb 0 d.num_jobs)) [
  | inl e ↦ rw e λ h. finishes_idle (record d { num_jobs = d.num_jobs - 1 }) d.finished refl h
  | inr e ↦ rw e tt
]

not_less : (n : ℕ) → ltb n n ≡ false
not_less n = ground arith

change-Finishes : (c : Change) (d : Daemon) → Finishes d (change c d)
unfolding change on_name_lost on_name_acquired on_client_appeared job_launched
change-Finishes name_acquired d = λ h. cc (h, not_less d.finished)
change-Finishes name_lost d = λ h. finishes_idle (record d { name_owned = false }) d.finished refl h
change-Finishes client_appears d = λ h. cc (h, not_less d.finished)
change-Finishes client_disappears d = client-Finishes d
change-Finishes job_starts d = λ h. cc (h, not_less d.finished)
change-Finishes job_completes d = job-Finishes d

-- Nothing is claimed of a run in which an assertion has failed.
abbrev pub Ending : Option State → Type 0
Ending none = Unit
Ending (some s) = Ends s

changed-Ends : (d : Daemon) (o : Option Daemon) → Finishes d o → Ending (changed d false o)
unfolding changed
changed-Ends d none f = tt
changed-Ends d (some d') f = elim (Bool-cases (ltb d.finished d'.finished)) [
  | inl e ↦ inr (d', refl, f e)
  | inr e ↦ inl e
]

on_change-Ends :
    (c : Change) (o : Option Daemon) → Ending (on_change o c (record { daemon = o; quit = false }))
unfolding on_change
on_change-Ends c none = inl refl
on_change-Ends c (some d) = changed-Ends d (change c d) (change-Finishes c d)

handle-Ends :
    (opt_debug : Bool) (e : Event) (d : Option Daemon)
    → Undisturbed e
    → Ending (handle opt_debug e (record { daemon = d; quit = false }))
unfolding handle
handle-Ends opt_debug bus_failed d u = absurd u
handle-Ends opt_debug (bus_acquired id) d u = inl refl
handle-Ends opt_debug unix_signal d u = absurd u
handle-Ends opt_debug input_closed d u = absurd u
handle-Ends opt_debug (changes c) d u = on_change-Ends c d

pub handled-Ends :
    (opt_debug : Bool) (e : Event) (s : State)
    → Undisturbed e
    → s.quit ≡ false
    → Ending (handle opt_debug e s)
handled-Ends opt_debug e s u h =
    subst (λ q. Ending (handle opt_debug e (record { daemon = s.daemon; quit = q }))) (sym h)
      (handle-Ends opt_debug e s.daemon u)
