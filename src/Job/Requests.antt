-- ===== src/Job/Requests.antt =====
-- src/job.c: the objects that are added to a job, and the calls that cancel it.
use udisks_lvm.Base.{
  ℕ, zero, suc, Bool, true, false, List, [], ◌∷◌, Bytes, codes, ◌≡◌, refl, ap, ◌∙◌,
}
use udisks_lvm.Bus.{Reply, completed, error, already_cancelled}
use udisks_lvm.Job.{has_path, add_thing, handle_cancel}

alone : (p : Bytes) → add_thing p [] ≡ p ∷ []
unfolding add_thing
alone p = refl

lost :
    (first second : Bytes)
    → has_path second (first ∷ []) ≡ false
    → add_thing second (first ∷ []) ≡ []
lost first second h = unfold add_thing in rw h refl

-- The first object of a job is recorded; when another is added, no object is left.
pub add_thing_objects :
    (first second : Bytes)
    → has_path second (first ∷ []) ≡ false
    → (add_thing first [] ≡ first ∷ []) × (add_thing second (add_thing first []) ≡ [])
add_thing_objects first second h =
    (alone first, ap (add_thing second) (alone first) ∙ lost first second h)

-- Several calls of `Cancel`, with their replies in order.
unfoldable pub cancel_times : ℕ → Bool → List Reply
cancel_times zero cancelled = []
cancel_times (suc n) cancelled =
    let (cancelled', reply) = handle_cancel true cancelled in reply ∷ cancel_times n cancelled'

unfoldable pub already : ℕ → List Reply
already zero = []
already (suc n) = error already_cancelled (codes "The job has already been cancelled") ∷ already n

cancelled_before : (n : ℕ) → cancel_times n true ≡ already n
unfolding cancel_times already handle_cancel
cancelled_before zero = refl
cancelled_before (suc n) =
    ap (λ rs. error already_cancelled (codes "The job has already been cancelled") ∷ rs)
      (cancelled_before n)

-- Of any number of calls of `Cancel` on a job that can be cancelled, the first succeeds, and all later
-- ones are told that the job has already been cancelled.
pub cancel_times-suc : (n : ℕ) → cancel_times (suc n) false ≡ completed ∷ already n
cancel_times-suc n =
    unfold cancel_times handle_cancel in ap (λ rs. completed ∷ rs) (cancelled_before n)
