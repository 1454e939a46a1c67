-- ===== src/Chrono/Sample.antt =====
-- Hours since an epoch: a timeline that satisfies the laws of the interface.
use twoliter.Prelude.{ℕ, ◌+◌, ◌-◌, ◌*◌, ◌/◌, ◌≤◌, ◌≡◌, false, some, arith, ltb}
use twoliter.Prelude.Classes.{nat_order}
use twoliter.Chrono.{Chrono}

times_mono : (d j k : ℕ) → j ≤ k → d * j ≤ d * k
times_mono d j k h = grind arith

pub later_multiple :
    (start end n j k : ℕ)
    → ltb end start ≡ false
    → j ≤ k
    → ltb (start + (end - start) / n * k) (start + (end - start) / n * j) ≡ false
later_multiple start end n j k h le = ground (arith, times_mono ((end - start) / n) j k)

abbrev pub hours : Chrono
hours = record {
  Time = ℕ;
  Duration = ℕ;
  order = nat_order;
  try_hours = λ n. some n;
  try_days = λ n. some (n * 24);
  try_weeks = λ n. some (n * 168);
  add = λ t d. t + d;
  sub = λ t s. t - s;
  div = λ d n. d / n;
  mul = λ d n. d * n;
  add-mul_mono = later_multiple;
}
