-- ===== src/Job.antt =====
-- src/job.c: the base of all jobs: the objects it is about, its cancellation, and the samples of its
-- progress.
pub mod Requests
pub mod Samples
pub mod Estimation
pub mod Progress
use udisks_lvm.Base.{
  ℕ, zero, suc, Bool, true, false, Option, none, some, List, [], ◌∷◌, ◌++◌, Bytes, codes, str_equal,
  length, ◌==◌, if◌then◌else◌,
}
use udisks_lvm.Bus.{Reply, completed, error, failed, already_cancelled}
use udisks_lvm.Jobs.{until_null}

-- `n` NULLs, as g_new0 leaves them.
unfoldable pub nulls : ℕ → List (Option Bytes)
nulls zero = []
nulls (suc n) = none ∷ nulls n

unfoldable pub has_path : Bytes → List Bytes → Bool
has_path object_path [] = false
has_path object_path (p ∷ paths) =
    if str_equal p object_path then true else has_path object_path paths

-- `ul_job_add_thing`, on the property "objects". The new array has the new path behind as many entries
-- as there were, which are not copied; the property is read up to the first NULL.
unfoldable pub add_thing : Bytes → List Bytes → List Bytes
unfolding has_path nulls until_null
add_thing object_path paths =
    if has_path object_path paths
    then paths
    else until_null (nulls (length paths) ++ some object_path ∷ [])

-- `handle_cancel`, with the property "cancelable" and the state of the cancellable.
unfoldable pub handle_cancel : Bool → Bool → Bool × Reply
handle_cancel false cancelled = (cancelled, error failed (codes "The job cannot be canceled"))
handle_cancel true true =
    (true, error already_cancelled (codes "The job has already been cancelled"))
handle_cancel true false = (true, completed)

abbrev pub max_samples : ℕ
max_samples = 100

-- The samples, as far as `num_samples` goes.
module _ {S : Type 0} where
  -- memmove, when the array is full.
  unfoldable pub forget_first : List S → List S
  forget_first [] = []
  forget_first (s ∷ samples) = samples

  -- The part of `on_notify_progress` that adds a sample.
  unfoldable pub add_sample : S → List S → List S
  unfolding forget_first
  add_sample sample samples =
      (if length samples == max_samples then forget_first samples else samples) ++ sample ∷ []

  unfoldable pub add_samples : List S → List S → List S
  add_samples [] samples = samples
  add_samples (s ∷ news) samples = add_samples news (add_sample s samples)

-- `auto_estimate`, `notify_progress_signal_handler_id`, and whether `samples` is allocated.
pub record Estimate : Type 0 where
  pub auto_estimate : Bool
  pub handler_id : ℕ
  pub allocated : Bool

unfoldable pub connect : ℕ → Estimate → Option Estimate
connect id self =
    if self.handler_id == 0
    then (if id == 0
        then none
        else some (record { auto_estimate = true; handler_id = id; allocated = true }))
    else none

unfoldable pub disconnect : Estimate → Option Estimate
disconnect self =
    if self.handler_id == 0
    then none
    else some (record self { auto_estimate = false; handler_id = 0 })

unfoldable pub set_estimate : ℕ → Bool → Bool → Estimate → Option Estimate
unfolding connect disconnect
set_estimate id true true self = some self
set_estimate id false false self = some self
set_estimate id true false self = connect id self
set_estimate id false true self = disconnect self

-- `ul_job_set_auto_estimate`, with what g_signal_connect returns; `none` where an assertion fails.
unfoldable pub set_auto_estimate : ℕ → Bool → Estimate → Option Estimate
unfolding set_estimate
set_auto_estimate id value self = set_estimate id value self.auto_estimate self
