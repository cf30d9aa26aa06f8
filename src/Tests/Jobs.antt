-- ===== src/Tests/Jobs.antt =====
-- Jobs.
use udisks_lvm.Base.{ℕ, ◌+◌, ◌-◌, ◌*◌, ◌/◌, List, [], ◌∷◌}
use udisks_lvm.Job.Progress.{Floats, Progress, Notice}
use udisks_lvm.Job.Progress.Estimated.{Estimated}

-- Numbers without fractions.
abbrev whole : Floats
whole = record {
  Double = ℕ;
  of_nat = λ n. n;
  add = λ a b. a + b;
  sub = λ a b. a - b;
  mul = λ a b. a * b;
  div = λ a b. a / b;
  elapsed = λ a b. b - a;
  to_uint64 = λ x. x;
  later = λ time x. time + x;
}

abbrev notice : ℕ → ℕ → Notice whole
notice time value = record { now = time; current_progress = value; bytes = 7 }

abbrev notices : List (Notice whole)
notices = notice 1 0 ∷ notice 2 10 ∷ notice 3 20 ∷ notice 4 50 ∷ []

abbrev progress : Progress whole
progress = record { samples = []; rate = 0; expected_end_time = 0 }
