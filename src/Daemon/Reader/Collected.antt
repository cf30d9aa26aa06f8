-- ===== src/Daemon/Reader/Collected.antt =====
-- src/daemon.c: what the callback of a helper is given.
use udisks_lvm.Base.{ℕ, Bool, true, false, none, some, List, [], ◌∷◌, ◌++◌, Bytes, ◌≡◌, refl}
use udisks_lvm.Daemon.Reader.{
  Callback, called_result, called_error, Reader, Spawned, spawn_error, spawn_pid, spawn_for_variant,
  to_end, variant_reader_child_output, variant_reader_watch_child, variant_reader_destroy, Event,
  output_ready, child_exited, handle_output, handle_exit, handle, run,
}

-- What is read before the child exits, behind `before`.
abbrev pub callbacks_of : ℕ → Bytes → List Event → List Callback
callbacks_of pid before [] = []
callbacks_of pid before (output_ready chunk ∷ es) = callbacks_of pid (before ++ chunk) es
callbacks_of pid before (child_exited none rest ∷ es) =
    called_result pid (before ++ to_end rest) ∷ []
callbacks_of pid before (child_exited (some message) rest ∷ es) = called_error pid message ∷ []

-- The callbacks that a call gives rise to: at once, or from the events.
abbrev pub expected : Spawned → List Event → List Callback
expected (spawn_error message) es = called_error 0 message ∷ []
expected (spawn_pid pid) es = callbacks_of pid [] es

abbrev reader : Bool → ℕ → Bytes → List Callback → Reader
reader watch pid output callbacks = record {
  child_watch = watch;
  output_watch = watch;
  pid = pid;
  output = output;
  callbacks = callbacks;
}

done_stays :
    (es : List Event) (pid : ℕ) (output : Bytes) (callbacks : List Callback)
    → (run es (reader false pid output callbacks)).callbacks ≡ callbacks
unfolding run handle handle_output handle_exit
done_stays [] pid output callbacks = refl
done_stays (output_ready chunk ∷ es) pid output callbacks = done_stays es pid output callbacks
done_stays (child_exited e rest ∷ es) pid output callbacks = done_stays es pid output callbacks

reads :
    (es : List Event) (pid : ℕ) (output : Bytes)
    → (run es (reader true pid output [])).callbacks ≡ callbacks_of pid output es
unfolding run handle handle_output handle_exit variant_reader_child_output
    variant_reader_watch_child variant_reader_destroy
reads [] pid output = refl
reads (output_ready chunk ∷ es) pid output = reads es pid (output ++ chunk)
reads (child_exited none rest ∷ es) pid output = done_stays es 0 (output ++ to_end rest) _
reads (child_exited (some message) rest ∷ es) pid output = done_stays es 0 output _

-- The callback of `ul_daemon_spawn_for_variant` is called once, and with the process that the call
-- returns: at once if the helper cannot be run, and else when the helper exits, with its error or with
-- all that it has printed, in whatever pieces that was read.
pub run-expected :
    (spawned : Spawned) (es : List Event)
    → (run es (spawn_for_variant spawned).0).callbacks ≡ expected spawned es
unfolding spawn_for_variant
run-expected (spawn_error message) es = done_stays es 0 [] _
run-expected (spawn_pid pid) es = reads es pid []
