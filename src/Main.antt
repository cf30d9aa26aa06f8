-- ===== src/Main.antt =====
-- src/main.c: the main loop and what ends it, and the log. What GLib parses of the options, and which of
-- the callbacks run, are arguments.
pub mod Changes
pub mod Ending
use udisks_lvm.Base.{
  ℕ, Bool, true, false, not, ◌&&◌, ◌||◌, Option, none, some, List, [], ◌∷◌, Bytes, codes, str_equal,
  strstr, ltb, if◌then◌else◌,
}
use udisks_lvm.Daemon.Lifecycle.{
  Daemon, on_name_lost, on_name_acquired, on_client_appeared, on_client_disappeared, job_launched,
  on_job_completed,
}

-- G_LOG_LEVEL_..., and the priorities of syslog.
pub data Level : Type 0 where
  level_error level_critical level_warning level_message level_info level_debug other_level : Level

pub data Priority : Type 0 where
  log_crit log_err log_warning log_info : Priority

-- Whether a debug message of the domain is wanted; the first argument is G_MESSAGES_DEBUG.
unfoldable pub debugs : Option Bytes → Option Bytes → Bool
unfolding str_equal strstr
debugs none log_domain = false
debugs (some domains) none = str_equal domains (codes "all")
debugs (some domains) (some log_domain) =
    str_equal domains (codes "all") || strstr domains log_domain

-- `on_log_handler`: the priority of the message, or `none` where it is dropped.
unfoldable pub on_log_handler : Option Bytes → Option Bytes → Level → Option Priority
unfolding debugs
on_log_handler domains log_domain level_error = some log_crit
on_log_handler domains log_domain level_critical = some log_crit
on_log_handler domains log_domain level_warning = some log_err
on_log_handler domains log_domain level_message = some log_warning
on_log_handler domains log_domain other_level = some log_warning
on_log_handler domains log_domain level_info = some log_info
on_log_handler domains log_domain level_debug =
    if debugs domains log_domain then some log_info else none

-- The daemon once the bus is there, and whether g_main_loop_quit has been called.
pub record State : Type 0 where
  pub daemon : Option Daemon
  pub quit : Bool

-- What happens to the daemon.
pub data Change : Type 0 where
  name_acquired name_lost client_appears client_disappears job_starts job_completes : Change

-- What the main loop dispatches: the result of g_bus_get, with what g_bus_own_name_on_connection
-- returns; SIGINT, SIGTERM or SIGHUP; the end of the standard input; and what changes the daemon.
pub data Event : Type 0 where
  bus_failed : Event
  bus_acquired : ℕ → Event
  unix_signal : Event
  input_closed : Event
  changes : Change → Event

unfoldable pub change : Change → Daemon → Option Daemon
unfolding on_name_lost on_name_acquired on_client_appeared on_client_disappeared job_launched
    on_job_completed
change name_acquired d = some (on_name_acquired d)
change name_lost d = some (on_name_lost d)
change client_appears d = some (on_client_appeared d)
change client_disappears d = on_client_disappeared d
change job_starts d = some (job_launched d)
change job_completes d = on_job_completed d

-- g_object_new (UL_TYPE_DAEMON, ...): its name is asked for when it is constructed.
unfoldable pub new_daemon : ℕ → Daemon
new_daemon name_owner_id = record {
  persist = false;
  name_owner_id = name_owner_id;
  name_owned = false;
  num_clients = 0;
  num_jobs = 0;
  finished = 0;
}

-- "finished" is connected to g_main_loop_quit; `none` where an assertion has failed.
unfoldable pub changed : Daemon → Bool → Option Daemon → Option State
changed d quit none = none
changed d quit (some d') =
    some (record { daemon = some d'; quit = quit || ltb d.finished d'.finished })

unfoldable pub on_change : Option Daemon → Change → State → Option State
unfolding changed change
on_change none c s = some s
on_change (some d) c s = changed d s.quit (change c d)

-- `on_bus_acquired`, `on_sigint` and `on_stdout_close`, which is only connected in debug mode.
unfoldable pub handle : Bool → Event → State → Option State
unfolding new_daemon on_change
handle opt_debug bus_failed s = some (record s { quit = true })
handle opt_debug (bus_acquired id) s = some (record s { daemon = some (new_daemon id) })
handle opt_debug unix_signal s = some (record s { quit = true })
handle true input_closed s = some (record s { quit = true })
handle false input_closed s = some s
handle opt_debug (changes c) s = on_change s.daemon c s

-- The sources that are ready in one iteration of the main context: all of them are dispatched, those
-- behind a call of g_main_loop_quit too. `none` where an assertion has failed.
unfoldable pub iterate : Bool → List Event → Option State → Option State
unfolding handle
iterate opt_debug es none = none
iterate opt_debug [] (some s) = some s
iterate opt_debug (e ∷ es) (some s) = iterate opt_debug es (handle opt_debug e s)

-- The loop waits for more, has been left, or the program has been aborted.
pub data Loop : Type 0 where
  waiting left : State → Loop
  aborted : Loop

-- `g_main_loop_run`, with the iterations that there are: it looks between them whether it has been asked
-- to quit.
unfoldable pub main_loop_run : Bool → List (List Event) → State → Loop
unfolding iterate
main_loop_run opt_debug [] s = if s.quit then left s else waiting s
main_loop_run opt_debug (es ∷ ess) s = elim s.quit [
  | true ↦ left s
  | false ↦ elim (iterate opt_debug es (some s)) [
    | none ↦ aborted
    | some s' ↦ main_loop_run opt_debug ess s'
  ]
]

-- The program runs on; it has returned, with the state at the end of the loop if it got there; or it
-- has been aborted.
pub data Exit : Type 0 where
  runs : State → Exit
  returns : ℕ → Option State → Exit
  aborts : Exit

unfoldable pub loop_result : Loop → Exit
loop_result (waiting s) = runs s
loop_result (left s) = returns 0 (some s)
loop_result aborted = aborts

abbrev pub first_state : State
first_state = record { daemon = none; quit = false }

-- `main`, with whether g_setenv and g_option_context_parse succeed.
unfoldable pub main : Bool → Bool → Bool → List (List Event) → Exit
unfolding main_loop_run loop_result
main setenv parsed opt_debug ess =
    let run = main_loop_run opt_debug ess first_state in
    if setenv && parsed then loop_result run else returns 1 none
