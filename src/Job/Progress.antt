-- ===== src/Job/Progress.antt =====
-- src/job.c: `on_notify_progress`, which estimates the rate and the end of a job from the samples of
-- its progress.
pub mod Estimated
use udisks_lvm.Base.{ℕ, zero, suc, ◌+◌, ltb, Bool, List, [], ◌∷◌, length, if◌then◌else◌}
use udisks_lvm.Job.{add_sample}

-- `gdouble`, with the operations and conversions that are used of it.
pub record Floats : Type 1 where
  pub Double : Type 0
  pub of_nat : ℕ → Double
  pub add : Double → Double → Double
  pub sub : Double → Double → Double
  pub mul : Double → Double → Double
  pub div : Double → Double → Double
  -- the difference of two times, `b - a`, as a double
  pub elapsed : ℕ → ℕ → Double
  -- the conversion to guint64, and a time with an interval added that is converted to gint64
  pub to_uint64 : Double → ℕ
  pub later : ℕ → Double → ℕ

module _ (floats : Floats) where
  open floats use {Double, of_nat, add, sub, mul, div, elapsed, to_uint64, later}

  pub record Sample : Type 0 where
    pub time_usec : ℕ
    pub value : Double

  -- The samples, and the properties "rate" and "expected-end-time".
  pub record Progress : Type 0 where
    pub samples : List Sample
    pub rate : ℕ
    pub expected_end_time : ℕ

  -- A change of the property "progress": the time, its value, and the property "bytes".
  pub record Notice : Type 0 where
    pub now : ℕ
    pub current_progress : Double
    pub bytes : ℕ

  unfoldable pub speed : Sample → Sample → Double
  speed a b = div (sub b.value a.value) (elapsed a.time_usec b.time_usec)

  -- The loop, with `sum_of_speeds` and `num_speeds`.
  unfoldable pub sum_speeds : List Sample → Double → ℕ → Double × ℕ
  unfolding speed
  sum_speeds [] sum_of_speeds num_speeds = (sum_of_speeds, num_speeds)
  sum_speeds (a ∷ []) sum_of_speeds num_speeds = (sum_of_speeds, num_speeds)
  sum_speeds (a ∷ b ∷ samples) sum_of_speeds num_speeds =
      sum_speeds (b ∷ samples) (add sum_of_speeds (speed a b)) (num_speeds + 1)

  unfoldable pub rate_of : Double → ℕ → ℕ
  rate_of avg_speed bytes =
      if ltb 0 bytes then to_uint64 (mul (mul (of_nat bytes) avg_speed) (of_nat 1000000)) else 0

  unfoldable pub estimate : Notice → Progress → Progress
  unfolding sum_speeds rate_of
  estimate notice self =
      let (sum_of_speeds, num_speeds) = sum_speeds self.samples (of_nat 0) 0 in
      let avg_speed = div sum_of_speeds (of_nat num_speeds) in
      record self {
        rate = rate_of avg_speed notice.bytes;
        expected_end_time =
            later notice.now (div (sub (of_nat 1) notice.current_progress) avg_speed);
      }

  -- `on_notify_progress`
  unfoldable pub on_notify_progress : Notice → Progress → Progress
  unfolding estimate
  on_notify_progress notice self =
      let sample : Sample = record { time_usec = notice.now; value = notice.current_progress } in
      let self' = record self { samples = add_sample sample self.samples } in
      if ltb (length self'.samples) 5 then self' else estimate notice self'

  unfoldable pub run : List Notice → Progress → Progress
  run [] self = self
  run (notice ∷ notices) self = run notices (on_notify_progress notice self)
