-- ===== src/Util/Host.antt =====
-- The operating system, as src/util.c and the job threads of src/manager.c and src/volumegroup.c use
-- it: an oracle answers each call, and may look at all the calls before it.
pub mod Calls
use udisks_lvm.Base.{ℕ, Bool, true, ◌↔◌, Option, none, some, List, [], ◌∷◌, Bytes, ◌≡◌, refl}
use udisks_lvm.Util.Status.{WaitMacros, CheckResult, success, failed, check_status_and_output}

pub data Syscall : Type 0 where
  -- open (device_file, O_RDWR | O_EXCL)
  open_exclusive : Bytes → Syscall
  -- open (device_file, O_RDONLY | O_EXCL)
  open_readonly : Bytes → Syscall
  -- write (fd, zeroes, 512)
  write_zeroes : Bytes → Syscall
  -- ioctl (fd, BLKRRPART, NULL)
  reread_partitions : Bytes → Syscall
  -- g_spawn_sync (argv, G_SPAWN_SEARCH_PATH)
  spawn_sync : List Bytes → Syscall

-- The calls made so far, the latest first.
abbrev pub History : Type 0
History = List Syscall

pub data IoctlResult : Type 0 where
  done einval other_errno : IoctlResult

pub data SpawnResult : Type 0 where
  -- the program could not be started; the message of the `GError`
  not_started : Bytes → SpawnResult
  -- wait status, standard output, standard error
  finished : ℕ → Bytes → Bytes → SpawnResult

pub record Host : Type 0 where
  pub opens : History → Bytes → Bool
  pub opens_readonly : History → Bytes → Bool
  pub writes : History → Bytes → Bool
  pub ioctls : History → Bytes → IoctlResult
  pub spawns : History → List Bytes → SpawnResult
  -- what `%m` prints
  pub errno_text : History → Bytes
  pub wait_macros : WaitMacros
  -- g_spawn_check_exit_status: NULL, or the message of the `GError`; as its documentation says, there is
  -- no error for a program that exited with status 0, and for no other
  pub exit_error : ℕ → Option Bytes
  pub exit_error_iff :
      (status : ℕ)
      → (exit_error status ≡ none)
        ↔ ((wait_macros.exited status ≡ true) × (wait_macros.exit_status status ≡ 0))

-- A run ends with a value, or with the message of a `GError`.
pub data Outcome {ℓ} (A : Type ℓ) : Type ℓ where
  returned : A → History → Outcome A
  raised : Bytes → History → Outcome A

abbrev pub Prog {ℓ} : Type ℓ → Type ℓ
Prog A = History → Outcome A

abbrev pub pure {ℓ} : {A : Type ℓ} → A → Prog A
pure a h = returned a h

abbrev pub raise {ℓ} : {A : Type ℓ} → Bytes → Prog A
raise e h = raised e h

infixl 5 ◌>>=◌ ◌>>◌
abbrev pub ◌>>=◌ {ℓ κ} : {A : Type ℓ} {B : Type κ} → Prog A → (A → Prog B) → Prog B
◌>>=◌ m f h = elim (m h) [ returned a h' ↦ f a h' | raised e h' ↦ raised e h' ]

abbrev pub ◌>>◌ {κ} : {B : Type κ} → Prog (Unit {0}) → Prog B → Prog B
m >> k = m >>= λ _. k

abbrev pub history_of {ℓ} : {A : Type ℓ} → Outcome A → History
history_of (returned a h) = h
history_of (raised e h) = h

-- The result of `ul_util_check_status_and_output`, as it sets `error`.
abbrev pub check : CheckResult → Prog (Unit {0})
check success = pure tt
check (failed message) = raise message

-- `g_spawn_sync` and then `ul_util_check_status_and_output` with the name of the program, which the
-- job threads do for each program that they run.
unfoldable pub checked : Host → Bytes → SpawnResult → Prog (Unit {0})
unfolding check_status_and_output
checked host cmd (not_started message) = raise message
checked host cmd (finished status out err) =
    check (check_status_and_output host.wait_macros cmd status (some out) (some err))

unfoldable pub spawn_checked : Host → Bytes → List Bytes → Prog (Unit {0})
unfolding checked
spawn_checked host cmd argv h = checked host cmd (host.spawns h argv) (spawn_sync argv ∷ h)
