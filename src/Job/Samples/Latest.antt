-- ===== src/Job/Samples/Latest.antt =====
-- src/job.c: the samples that a job keeps are the latest ones.
use udisks_lvm.Base.{
  ℕ, zero, suc, ◌+◌, ◌-◌, ◌≤◌, Bool-cases, List, [], ◌∷◌, ◌++◌, map, length, length-append, left_of,
  ◌==◌, ◌≡◌, ◌≢◌, refl, sym, ap, ◌∙◌, inl, inr, arith,
}
use udisks_lvm.Job.{max_samples, forget_first, add_sample}
use udisks_lvm.Job.Samples.{Window}

left_of-append {ℓ} : {A : Type ℓ} (xs ys : List A) → left_of (length xs) (xs ++ ys) ≡ ys
unfolding left_of
left_of-append [] ys = refl
left_of-append (x ∷ xs) ys = left_of-append xs ys

-- The last `n` of a list, all if there are not more.
abbrev pub latest {ℓ} : {A : Type ℓ} → ℕ → List A → List A
latest n xs = left_of (length xs - n) xs

length-forget_first :
    {S : Type 0} (samples : List S) → length (forget_first samples) ≤ length samples
unfolding forget_first
length-forget_first [] = omega arith
length-forget_first (s ∷ samples) = omega arith

pub length-add_sample :
    {S : Type 0} (s : S) (samples : List S) → length (add_sample s samples) ≤ length samples + 1
length-add_sample s samples = elim (Bool-cases (length samples == max_samples)) [
  | inl e ↦
      unfold add_sample in
      rw e
        (omega (arith, length-append (forget_first samples) (s ∷ []), length-forget_first samples))
  | inr e ↦ unfold add_sample in rw e (omega (arith, length-append samples (s ∷ [])))
]

split_latest {ℓ} :
    {A : Type ℓ} (older samples : List A)
    → length samples ≤ max_samples
    → (older ≢ [] → length samples ≡ max_samples)
    → samples ≡ latest max_samples (older ++ samples)
split_latest [] samples fits full =
    let none_left : length samples - max_samples ≡ 0 = omega (arith, fits) in
    unfold left_of in rw none_left refl
split_latest (x ∷ older) samples fits full =
    let before : length ((x ∷ older) ++ samples) - max_samples ≡ length (x ∷ older) =
      omega (arith, full (λ e. cc), length-append (x ∷ older) samples) in
    sym (ap (λ k. left_of k ((x ∷ older) ++ samples)) before ∙ left_of-append (x ∷ older) samples)

pub length-left_of {ℓ} : {A : Type ℓ} (n : ℕ) (xs : List A) → length (left_of n xs) ≡ length xs - n
unfolding left_of
length-left_of zero xs = omega arith
length-left_of (suc n) [] = omega arith
length-left_of (suc n) (x ∷ xs) = omega (arith, length-left_of n xs)

pub length-map {ℓ κ} :
    {A : Type ℓ} {B : Type κ} (f : A → B) (xs : List A) → length (map f xs) ≡ length xs
length-map f [] = refl
length-map f (x ∷ xs) = ap suc (length-map f xs)

pub Window-latest :
    {S : Type 0} (all samples : List S) → Window all samples → samples ≡ latest max_samples all
Window-latest all samples w =
    split_latest w.older samples w.fits w.full ∙ ap (λ l. latest max_samples l) (sym w.split)

pub empty-Window : {S : Type 0} → Window {S = S} [] []
empty-Window = record { older = []; split = refl; fits = omega arith; full = λ h. absurd (h refl) }
