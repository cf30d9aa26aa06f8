-- ===== src/Job/Samples.antt =====
-- src/job.c: which samples of the progress a job keeps.
pub mod Latest
use udisks_lvm.Base.{
  ◌≤◌, List, [], ◌∷◌, ◌++◌, append_assoc, append-nil, length, length-append, ◌==◌, ==_iff, ◌≡◌, ◌≢◌,
  sym, ap, ◌∙◌, inl, inr, arith, Bool-cases,
}
use udisks_lvm.Job.{max_samples, forget_first, add_sample, add_samples}

module _ {S : Type 0} where
  -- The samples are the last of all that came in, and not more than the array holds.
  pub record Window (all samples : List S) : Type 0 where
    pub older : List S
    pub split : all ≡ older ++ samples
    pub fits : length samples ≤ max_samples
    pub full : older ≢ [] → length samples ≡ max_samples

  shifted :
      (all samples : List S) (s : S)
      → length samples ≡ max_samples
      → Window all samples
      → Window (all ++ s ∷ []) (forget_first samples ++ s ∷ [])
  unfolding forget_first
  shifted all [] s e w = absurd (omega (arith, e))
  shifted all (x ∷ rest) s e w = record {
    older = w.older ++ x ∷ [];
    split =
        ap (λ l. l ++ s ∷ []) w.split
        ∙ append_assoc w.older (x ∷ rest) (s ∷ [])
        ∙ sym (append_assoc w.older (x ∷ []) (rest ++ s ∷ []));
    fits = omega (arith, e, length-append rest (s ∷ []));
    full = λ h. omega (arith, e, length-append rest (s ∷ []));
  }

  grown :
      (all samples : List S) (s : S)
      → length samples ≢ max_samples
      → Window all samples
      → Window (all ++ s ∷ []) (samples ++ s ∷ [])
  grown all samples s e w = record {
    older = w.older;
    split = ap (λ l. l ++ s ∷ []) w.split ∙ append_assoc w.older samples (s ∷ []);
    fits = omega (arith, e, w.fits, length-append samples (s ∷ []));
    full = λ h. absurd (e (w.full h));
  }

  add_sample-Window :
      (all samples : List S) (s : S)
      → Window all samples
      → Window (all ++ s ∷ []) (add_sample s samples)
  unfolding add_sample
  add_sample-Window all samples s w = elim (Bool-cases (length samples == max_samples)) [
    | inl e ↦ rw e (shifted all samples s ((==_iff (length samples) max_samples).0 e) w)
    | inr e ↦ rw e (grown all samples s (λ z. cc (e, (==_iff (length samples) max_samples).1 z)) w)
  ]

  -- However many samples come in, the array is written within its bounds and holds the latest of them,
  -- in order: all of them if there is room, and otherwise as many as there is room for.
  pub add_samples-Window :
      (news all samples : List S)
      → Window all samples
      → Window (all ++ news) (add_samples news samples)
  unfolding add_samples
  add_samples-Window [] all samples w = rw (append-nil all) w
  add_samples-Window (s ∷ news) all samples w = rw (sym (append_assoc all (s ∷ []) news)) (
      add_samples-Window news (all ++ s ∷ []) (add_sample s samples)
        (add_sample-Window all samples s w))
