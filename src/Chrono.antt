-- ===== src/Chrono.antt =====
-- The part of the `chrono` crate that tools/update-metadata and tools/parse-datetime call. It is not
-- in the repository, so it is an interface: operations, and the laws that its documentation states.
pub mod Sample
use Prim.Native.Nat.{ℕ, ◌≤◌}
use mathlib.Core.Path.{◌≡◌}
use mathlib.Core.Option.{Option}
use mathlib.Core.Bool.{false}
use twoliter.Prelude.Classes.{Order}

pub record Chrono : Type 1 where
  -- `DateTime<Utc>` and `Duration`
  pub Time : Type 0
  pub Duration : Type 0
  pub order : Order Time
  -- `Duration::try_hours`, `try_days` and `try_weeks`, `None` when out of range
  pub try_hours : ℕ → Option Duration
  pub try_days : ℕ → Option Duration
  pub try_weeks : ℕ → Option Duration
  -- `time + duration`, `time - time`, `duration / i32` and `duration * i32`
  pub add : Time → Duration → Time
  pub sub : Time → Time → Duration
  pub div : Duration → ℕ → Duration
  pub mul : Duration → ℕ → Duration
  -- A later time is no earlier after the same wait, for a longer multiple of a forward duration.
  pub add-mul_mono :
      (start end : Time) (n j k : ℕ)
      → order.lt end start ≡ false
      → j ≤ k
      → order.lt
          (add start (mul (div (sub end start) n) k))
          (add start (mul (div (sub end start) n) j))
        ≡ false
