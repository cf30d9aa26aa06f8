-- ===== src/Util/Status.antt =====
-- src/util.c, what became of a child process: `get_signal_name`,
-- `ul_util_check_status_and_output`. The macros of <sys/wait.h> that read a wait status, and the
-- numbers of the signals, are parameters.
use udisks_lvm.Base.{
  ℕ, Bool, true, false, ◌&&◌, Option, none, some, List, [], ◌∷◌, ◌++◌, Bytes, codes, decimal, ◌==◌,
  if◌then◌else◌, ◌≡◌, ◌↔◌, arith,
}

-- WIFEXITED, WEXITSTATUS, WIFSIGNALED, WTERMSIG, and the names of the signals with their numbers in
-- the order of the `switch`.
pub record WaitMacros : Type 0 where
  pub exited : ℕ → Bool
  pub exit_status : ℕ → ℕ
  pub signaled : ℕ → Bool
  pub term_sig : ℕ → ℕ
  pub number : Bytes → ℕ

pub data CheckResult : Type 0 where
  success : CheckResult
  failed : Bytes → CheckResult

-- The cases of `_HANDLE_SIG`.
abbrev pub handled_signals : List Bytes
handled_signals =
    codes "SIGHUP"
    ∷ codes "SIGINT"
    ∷ codes "SIGQUIT"
    ∷ codes "SIGILL"
    ∷ codes "SIGABRT"
    ∷ codes "SIGFPE"
    ∷ codes "SIGKILL"
    ∷ codes "SIGSEGV"
    ∷ codes "SIGPIPE"
    ∷ codes "SIGALRM"
    ∷ codes "SIGTERM"
    ∷ codes "SIGUSR1"
    ∷ codes "SIGUSR2"
    ∷ codes "SIGCHLD"
    ∷ codes "SIGCONT"
    ∷ codes "SIGSTOP"
    ∷ codes "SIGTSTP"
    ∷ codes "SIGTTIN"
    ∷ codes "SIGTTOU"
    ∷ codes "SIGBUS"
    ∷ codes "SIGPOLL"
    ∷ codes "SIGPROF"
    ∷ codes "SIGSYS"
    ∷ codes "SIGTRAP"
    ∷ codes "SIGURG"
    ∷ codes "SIGVTALRM"
    ∷ codes "SIGXCPU"
    ∷ codes "SIGXFSZ"
    ∷ []

-- A `switch` over the signals of the list.
unfoldable pub switch_signal : (Bytes → ℕ) → List Bytes → ℕ → Bytes
switch_signal number [] signal_number = codes "UNKNOWN_SIGNAL"
switch_signal number (sig ∷ sigs) signal_number =
    if number sig == signal_number then sig else switch_signal number sigs signal_number

unfoldable pub get_signal_name : WaitMacros → ℕ → Bytes
unfolding switch_signal
get_signal_name w signal_number = switch_signal w.number handled_signals signal_number

-- Whether a string is there and not empty; `none` is NULL.
unfoldable pub has_text : Option Bytes → Bool
has_text none = false
has_text (some []) = false
has_text (some (c ∷ s)) = true

abbrev text_of : Option Bytes → Bytes
text_of none = []
text_of (some s) = s

-- The first part of the message: the exit status or the signal.
unfoldable pub status_message : WaitMacros → Bytes → ℕ → Bytes
status_message w cmd status =
    if w.exited status
    then cmd ++ (codes " exited with non-zero exit status " ++ decimal (w.exit_status status))
    else if w.signaled status
    then cmd
      ++ (codes " was signaled with signal "
          ++ (get_signal_name w (w.term_sig status)
              ++ (codes " (" ++ (decimal (w.term_sig status) ++ codes ")"))))
    else []

-- The second part: what the program printed.
unfoldable pub output_message : Option Bytes → Option Bytes → Bytes
unfolding has_text
output_message standard_out standard_error =
    if has_text standard_out && has_text standard_error
    then codes "\nstdout: '"
      ++ (text_of standard_out ++ (codes "'\nstderr: '" ++ (text_of standard_error ++ codes "'")))
    else if has_text standard_out
    then codes ": " ++ text_of standard_out
    else if has_text standard_error
    then codes ": " ++ text_of standard_error
    else []

unfoldable pub check_status_and_output :
    WaitMacros → Bytes → ℕ → Option Bytes → Option Bytes → CheckResult
check_status_and_output w cmd status standard_out standard_error =
    if w.exited status && w.exit_status status == 0
    then success
    else failed (status_message w cmd status ++ output_message standard_out standard_error)

-- The check passes exactly when the program exited with status 0, whatever it printed.
pub check_status_iff :
    (w : WaitMacros) (cmd : Bytes) (status : ℕ) (out err : Option Bytes)
    → (check_status_and_output w cmd status out err ≡ success)
      ↔ ((w.exited status ≡ true) × (w.exit_status status ≡ 0))
unfolding check_status_and_output
check_status_iff w cmd status out err = (λ h. ground arith, λ h. ground arith)
