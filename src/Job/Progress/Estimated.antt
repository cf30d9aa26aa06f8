-- ===== src/Job/Progress/Estimated.antt =====
-- src/job.c: what the estimate of a job rests on.
use udisks_lvm.Base.{
  ℕ, ◌+◌, ◌-◌, ◌≤◌, ◌<◌, ltb, true, false, Bool-cases, List, [], ◌∷◌, ◌++◌, map, length,
  length-append, ◌≡◌, refl, sym, subst, ap, ◌∙◌, inl, inr, arith,
}
use udisks_lvm.Job.{max_samples, add_sample, add_samples}
use udisks_lvm.Job.Progress.{
  Floats, Sample, Progress, Notice, speed, sum_speeds, rate_of, estimate, on_notify_progress, run,
}
use udisks_lvm.Job.Samples.{add_samples-Window}
use udisks_lvm.Job.Samples.Latest.{latest, length-left_of, length-map, Window-latest, empty-Window}

module _ (floats : Floats) where
  open floats use {Double, of_nat, add, sub, mul, div, elapsed, to_uint64, later}

  abbrev pub sample_of : Notice floats → Sample floats
  sample_of notice = record { time_usec = notice.now; value = notice.current_progress }

  -- The speeds between the samples, and their mean.
  unfoldable pub speeds : List (Sample floats) → List Double
  speeds [] = []
  speeds (a ∷ []) = []
  speeds (a ∷ b ∷ samples) = speed floats a b ∷ speeds (b ∷ samples)

  unfoldable pub sum : Double → List Double → Double
  sum acc [] = acc
  sum acc (x ∷ xs) = sum (add acc x) xs

  unfoldable pub mean : List Double → Double
  unfolding sum
  mean xs = div (sum (of_nat 0) xs) (of_nat (length xs))

  sum_speeds_lem :
      (samples : List (Sample floats)) (acc : Double) (n : ℕ)
      → sum_speeds floats samples acc n ≡ (sum acc (speeds samples), n + length (speeds samples))
  unfolding sum_speeds sum speeds
  sum_speeds_lem [] acc n = ap (λ k. (acc, k)) (omega arith)
  sum_speeds_lem (a ∷ []) acc n = ap (λ k. (acc, k)) (omega arith)
  sum_speeds_lem (a ∷ b ∷ samples) acc n =
      sum_speeds_lem (b ∷ samples) (add acc (speed floats a b)) (n + 1)
      ∙ ap (λ k. (sum (add acc (speed floats a b)) (speeds (b ∷ samples)), k)) (omega arith)

  run-append :
      (notices : List (Notice floats)) (last : Notice floats) (self : Progress floats)
      → run floats (notices ++ last ∷ []) self
        ≡ on_notify_progress floats last (run floats notices self)
  unfolding run
  run-append [] last self = refl
  run-append (notice ∷ notices) last self =
      run-append notices last (on_notify_progress floats notice self)

  few_samples :
      (notice : Notice floats) (self : Progress floats)
      → length (add_sample (sample_of notice) self.samples) < 5
      → on_notify_progress floats notice self
        ≡ record self { samples = add_sample (sample_of notice) self.samples }
  unfolding on_notify_progress
  few_samples notice self h =
      let few : ltb (length (add_sample (sample_of notice) self.samples)) 5 ≡ true = ground arith in
      rw few refl

  enough_samples :
      (notice : Notice floats) (self : Progress floats)
      → 5 ≤ length (add_sample (sample_of notice) self.samples)
      → on_notify_progress floats notice self
        ≡ estimate floats notice
            (record self { samples = add_sample (sample_of notice) self.samples })
  unfolding on_notify_progress
  enough_samples notice self h =
      let few : ltb (length (add_sample (sample_of notice) self.samples)) 5 ≡ false =
        ground arith in
      rw few refl

  on_notify_samples :
      (notice : Notice floats) (self : Progress floats)
      → (on_notify_progress floats notice self).samples ≡ add_sample (sample_of notice) self.samples
  on_notify_samples notice self =
      elim (Bool-cases (ltb (length (add_sample (sample_of notice) self.samples)) 5)) [
        | inl few ↦ ap (λ (s : Progress floats). s.samples) (few_samples notice self (ground arith))
        | inr enough ↦
            ap (λ (s : Progress floats). s.samples) (enough_samples notice self (ground arith))
            ∙ (unfold estimate in refl)
      ]

  run-samples :
      (notices : List (Notice floats)) (self : Progress floats)
      → (run floats notices self).samples ≡ add_samples (map sample_of notices) self.samples
  unfolding run add_samples
  run-samples [] self = refl
  run-samples (notice ∷ notices) self =
      run-samples notices (on_notify_progress floats notice self)
      ∙ ap (add_samples (map sample_of notices)) (on_notify_samples notice self)

  length-speeds : (samples : List (Sample floats)) → length (speeds samples) ≡ length samples - 1
  unfolding speeds
  length-speeds [] = omega arith
  length-speeds (a ∷ []) = omega arith
  length-speeds (a ∷ b ∷ samples) = omega (arith, length-speeds (b ∷ samples))

  -- Of a job without samples, whatever notices come in: the samples are the latest that there is room
  -- for.
  run-latest :
      (notices : List (Notice floats)) (self : Progress floats)
      → self.samples ≡ []
      → (run floats notices self).samples ≡ latest max_samples (map sample_of notices)
  run-latest notices self e =
      run-samples notices self
      ∙ ap (add_samples (map sample_of notices)) e
      ∙ Window-latest (map sample_of notices) (add_samples (map sample_of notices) [])
          (add_samples-Window (map sample_of notices) [] [] empty-Window)

  abbrev pub Unestimated : Progress floats → Progress floats → Type 0
  Unestimated s t = (s.rate ≡ t.rate) × (s.expected_end_time ≡ t.expected_end_time)

  -- What the estimate is to be: from the mean of the speeds between the samples.
  abbrev pub Estimated : Notice floats → Progress floats → Type 0
  Estimated last s =
      (4 ≤ length (speeds s.samples))
      × (s.rate ≡ rate_of floats (mean (speeds s.samples)) last.bytes)
      × (s.expected_end_time
          ≡ later last.now (div (sub (of_nat 1) last.current_progress) (mean (speeds s.samples))))

  estimate-Estimated :
      (last : Notice floats) (self : Progress floats)
      → 5 ≤ length self.samples
      → Estimated last (estimate floats last self)
  unfolding estimate mean
  estimate-Estimated last self h =
      let mean_lem : div (sum_speeds floats self.samples (of_nat 0) 0).0
            (of_nat (sum_speeds floats self.samples (of_nat 0) 0).1)
          ≡ mean (speeds self.samples) =
        ap (λ p. div p.0 (of_nat p.1)) (sum_speeds_lem self.samples (of_nat 0) 0)
        ∙ ap (λ k. div (sum (of_nat 0) (speeds self.samples)) (of_nat k)) (omega arith) in
      (
        omega (arith, h, length-speeds self.samples),
        ap (λ m. rate_of floats m last.bytes) mean_lem,
        ap (λ m. later last.now (div (sub (of_nat 1) last.current_progress) m)) mean_lem,
      )

  enough :
      (notices : List (Notice floats)) (last : Notice floats) (self : Progress floats)
      → self.samples ≡ []
      → 4 ≤ length notices
      → Estimated last (run floats (notices ++ last ∷ []) self)
  enough notices last self e h =
      let before = run floats notices self in
      let all = map sample_of (notices ++ last ∷ []) in
      let kept : add_sample (sample_of last) before.samples ≡ latest max_samples all =
        sym (on_notify_samples last before)
        ∙ ap (λ (s : Progress floats). s.samples) (sym (run-append notices last self))
        ∙ run-latest (notices ++ last ∷ []) self e in
      let five : 5 ≤ length (add_sample (sample_of last) before.samples) = omega (
        arith,
        h,
        ap length kept,
        length-left_of (length all - max_samples) all,
        length-map sample_of (notices ++ last ∷ []),
        length-append notices (last ∷ []),
      ) in
      subst (Estimated last) (sym (run-append notices last self ∙ enough_samples last before five))
        (estimate-Estimated last
          (record before { samples = add_sample (sample_of last) before.samples }) five)
