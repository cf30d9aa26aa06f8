-- ===== src/SpawnedJob/Descriptors.antt =====
-- src/spawnedjob.c: the descriptors of the pipes, which the job has to close.
use udisks_lvm.Base.{
  ℕ, ◌+◌, ◌⊎◌, inl, inr, Bool-cases, Bool, true, false, not, Option, none, some, List, [], ◌∷◌,
  ◌++◌, Bytes, ◌≡◌, refl, sym, ap, ◌∙◌, arith, ◌==◌, if◌then◌else◌,
}
use udisks_lvm.SpawnedJob.{
  Effect, kill, reap, close, write, disconnect, emit, Running, close_fd, fd_list, read_child_stdout,
  read_child_stderr, write_child_stdin, write_rest, nuke_child, disconnect_cancellable,
  release_resources, completed_default, emitted, signal, idle_cb, read_to_end, child_watch_cb,
  on_cancelled, emit_completed_with_error_in_idle,
}
use udisks_lvm.SpawnedJob.Events.{
  spawned, input_pipe, fresh, watched, constructed, Event, stdout_ready, stderr_ready, stdin_ready,
  child_exited, cancelled, idle_runs, finalized, handle, step, run, when, is_empty,
}
use udisks_lvm.Util.Error.{GError, Completed}
use udisks_lvm.Util.Status.{WaitMacros}

-- The descriptors that have been closed.
abbrev pub closes : List Effect → List ℕ
closes [] = []
closes (close n ∷ effects) = n ∷ closes effects
closes (kill pid ∷ effects) = closes effects
closes (reap pid ∷ effects) = closes effects
closes (emit c ∷ effects) = closes effects
closes (write s ∷ effects) = closes effects
closes (disconnect id ∷ effects) = closes effects

abbrev pub count : ℕ → List ℕ → ℕ
count n [] = 0
count n (m ∷ ms) = (if n == m then 1 else 0) + count n ms

-- How often `n` is one of our descriptors or has been closed.
pub ledger : ℕ → Running → ℕ
ledger n r =
    count n (fd_list r.job.stdin_pipe.fd)
    + count n (fd_list r.job.stdout_pipe.fd)
    + count n (fd_list r.job.stderr_pipe.fd)
    + count n (closes r.effects)

-- Nothing is left when the child is not watched any more.
Released : Running → Type 0
Released r =
    r.job.child_watch_source ≡ false
    → (r.job.stdin_pipe.fd ≡ none) × (r.job.stdout_pipe.fd ≡ none) × (r.job.stderr_pipe.fd ≡ none)

-- From `r` to `r'` the ledger does not change.
record Keeps (r r' : Running) : Type 0 where
  same : (n : ℕ) → ledger n r' ≡ ledger n r
  released : Released r → Released r'

Keeps-refl : (r : Running) → Keeps r r
Keeps-refl r = record { same = λ n. refl; released = λ h. h }

Keeps-trans : {r s t : Running} → Keeps r s → Keeps s t → Keeps r t
Keeps-trans a b = record {
  same = λ n. b.same n ∙ a.same n;
  released = λ h. b.released (a.released h);
}

close_fd-count :
    (n : ℕ) (fd : Option ℕ) (effects : List Effect)
    → count n (closes (close_fd fd effects)) ≡ count n (fd_list fd) + count n (closes effects)
unfolding close_fd
close_fd-count n none effects = omega arith
close_fd-count n (some m) effects = omega arith

nuke-closes : (pid : ℕ) (effects : List Effect) → closes (nuke_child pid effects) ≡ closes effects
unfolding nuke_child
nuke-closes pid effects = ground arith

disconnect-closes :
    (id : ℕ) (effects : List Effect) → closes (disconnect_cancellable id effects) ≡ closes effects
unfolding disconnect_cancellable
disconnect-closes id effects = ground arith

release-count :
    (n pid id : ℕ) (a b c : Option ℕ) (effects : List Effect)
    → 0
        + 0
        + 0
        + count n (
            closes (
              disconnect_cancellable id
                (close_fd c (close_fd b (close_fd a (nuke_child pid effects))))))
      ≡ count n (fd_list a) + count n (fd_list b) + count n (fd_list c) + count n (closes effects)
release-count n pid id a b c effects =
    let nuked = nuke_child pid effects in
    rw (disconnect-closes id (close_fd c (close_fd b (close_fd a nuked)))) (
      omega (
        arith,
        close_fd-count n c (close_fd b (close_fd a nuked)),
        close_fd-count n b (close_fd a nuked),
        close_fd-count n a nuked,
        ap (count n) (nuke-closes pid effects),
      ))

release-Keeps : (r : Running) → Keeps r (release_resources r)
unfolding release_resources ledger Released
release-Keeps r = record {
  same = λ n.
      release-count n r.job.child_pid r.job.cancellable_handler_id r.job.stdin_pipe.fd
        r.job.stdout_pipe.fd r.job.stderr_pipe.fd r.effects;
  released = λ h e. (refl, refl, refl);
}

release-Released : (r : Running) → Released (release_resources r)
unfolding release_resources Released
release-Released r e = (refl, refl, refl)

module _ (w : WaitMacros) (cmd : Bytes) where
  emitted-Keeps : (c : Option Completed) (r : Running) → Keeps r (emitted w cmd c r)
  unfolding emitted ledger Released
  emitted-Keeps none r = record { same = λ n. refl; released = λ h. h }
  emitted-Keeps (some c) r = record { same = λ n. refl; released = λ h. h }

  signal-Keeps : (e : Option GError) (status : ℕ) (r : Running) → Keeps r (signal w cmd e status r)
  unfolding signal
  signal-Keeps e status r =
      emitted-Keeps (completed_default w cmd e status r.job.child_stdout r.job.child_stderr) r

  idle-Keeps : (es : List GError) (r : Running) → Keeps r (idle_cb w cmd es r)
  unfolding idle_cb ledger Released
  idle-Keeps [] r = Keeps-refl r
  idle-Keeps (e ∷ es) r =
      let k = signal-Keeps (some e) 0 (record r { idle = es }) in
      record { same = k.same; released = k.released }

  watch-Keeps :
      (status : ℕ) (o e : Option Bytes) (r : Running) → Keeps r (child_watch_cb w cmd status o e r)
  unfolding child_watch_cb ledger Released
  watch-Keeps status o e r =
      let r0 = record r {
        job = record (r.job) {
          child_stdout = read_to_end w cmd r.job.child_stdout o;
          child_stderr = read_to_end w cmd r.job.child_stderr e;
        };
      } in
      let k = signal-Keeps none status r0 in
      let r1 = signal w cmd none status r0 in
      let r2 = record r1 { job = record (r1.job) { child_pid = 0; child_watch_source = false } } in
      record {
        same = λ n. (release-Keeps r2).same n ∙ k.same n;
        released = λ h. release-Released r2;
      }

  write-Keeps : (n : ℕ) (cursor : Option Bytes) (r : Running) → Keeps r (write_rest n cursor r)
  unfolding write_rest ledger Released
  write-Keeps n none r = record {
    same = λ m. omega (arith, close_fd-count m r.job.stdin_pipe.fd r.effects);
    released = λ h e. (refl, (h e).1, (h e).2);
  }
  write-Keeps n (some []) r = record {
    same = λ m. omega (arith, close_fd-count m r.job.stdin_pipe.fd r.effects);
    released = λ h e. (refl, (h e).1, (h e).2);
  }
  write-Keeps n (some (c ∷ s)) r = record { same = λ m. refl; released = λ h. h }

  when-Keeps :
      (b : Bool) (f : Running → Running) (r : Running) → Keeps r (f r) → Keeps r (when b f r)
  when-Keeps true f r k = k
  when-Keeps false f r k = Keeps-refl r

  handle-Keeps : (e : Event) (r : Running) → Keeps r (handle w cmd e r)
  unfolding handle
  handle-Keeps (stdout_ready chunk) r =
      when-Keeps r.job.stdout_pipe.source _ r
        (unfold read_child_stdout ledger Released in record { same = λ m. refl; released = λ h. h })
  handle-Keeps (stderr_ready chunk) r =
      when-Keeps r.job.stderr_pipe.source _ r
        (unfold read_child_stderr ledger Released in record { same = λ m. refl; released = λ h. h })
  handle-Keeps (stdin_ready n) r =
      when-Keeps r.job.stdin_pipe.source _ r
        (unfold write_child_stdin in write-Keeps n r.job.input_string_cursor r)
  handle-Keeps (child_exited status o e) r =
      when-Keeps r.job.child_watch_source _ r (watch-Keeps status o e r)
  handle-Keeps (cancelled e) r = when-Keeps (not (r.job.cancellable_handler_id == 0)) _ r (
      unfold on_cancelled emit_completed_with_error_in_idle ledger Released in
      record { same = λ m. refl; released = λ h. h })
  handle-Keeps idle_runs r = idle-Keeps r.idle r
  handle-Keeps finalized r = when-Keeps (is_empty r.idle) _ r (release-Keeps r)

  run-Keeps : (es : List Event) (r : Running) → Keeps r (run w cmd es r)
  unfolding run step
  run-Keeps [] r = Keeps-refl r
  run-Keeps (e ∷ es) r =
      Keeps-trans (when-Keeps (not r.crashed) _ r (handle-Keeps e r)) (run-Keeps es _)

  given :
      (argv : List Bytes) (input : Option Bytes) (id pid stdin stdout stderr n : ℕ)
      → ledger n (constructed argv input none id (spawned pid stdin stdout stderr))
        ≡ count n (fd_list (input_pipe input stdin).fd ++ stdout ∷ stderr ∷ [])
  unfolding constructed watched fresh ledger input_pipe
  given argv none id pid stdin stdout stderr n = omega arith
  given argv (some s) id pid stdin stdout stderr n = omega arith

  watching :
      (argv : List Bytes) (input : Option Bytes) (id pid stdin stdout stderr : ℕ)
      → Released (constructed argv input none id (spawned pid stdin stdout stderr))
  unfolding constructed watched fresh Released
  watching argv input id pid stdin stdout stderr h = cc

  all_closed :
      (n : ℕ) (r : Running)
      → Released r
      → r.job.child_watch_source ≡ false
      → ledger n r ≡ count n (closes r.effects)
  unfolding Released ledger
  all_closed n r f h = let (a, b, c) = f h in rw (a, b, c) (omega arith)

  -- The descriptors of the pipes of a job are closed once each: whatever happens to the job, what it
  -- has open and what it has closed are what it was given, and when the child is not watched any more,
  -- all of it is closed.
  pub run-ledger :
      (es : List Event) (argv : List Bytes) (input : Option Bytes)
      (id pid stdin stdout stderr n : ℕ)
      → let r = run w cmd es (constructed argv input none id (spawned pid stdin stdout stderr)) in
        let given = fd_list (input_pipe input stdin).fd ++ stdout ∷ stderr ∷ [] in
        (ledger n r ≡ count n given)
        × ((r.job.child_watch_source ≡ true) ⊎ (count n (closes r.effects) ≡ count n given))
  run-ledger es argv input id pid stdin stdout stderr n =
      let r0 = constructed argv input none id (spawned pid stdin stdout stderr) in
      let k = run-Keeps es r0 in
      let total = k.same n ∙ given argv input id pid stdin stdout stderr n in
      let free = k.released (watching argv input id pid stdin stdout stderr) in
      let r = run w cmd es r0 in
      (
        total,
        elim (Bool-cases r.job.child_watch_source) [
          | inl h ↦ inl h
          | inr h ↦ inr (sym (all_closed n r free h) ∙ total)
        ],
      )
