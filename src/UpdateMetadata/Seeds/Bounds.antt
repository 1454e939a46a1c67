-- ===== src/UpdateMetadata/Seeds/Bounds.antt =====
-- `seed_of_percent` of tools/update-metadata/src/lib.rs: single precision loses nothing.
use twoliter.Prelude.{
  ℕ, zero, suc, ◌*◌, ◌/◌, ◌≤◌, ◌<◌, ◌≡◌, refl, Bool, true, ◌&&◌, arith, ◌==◌, ==_iff,
}
use twoliter.UpdateMetadata.Seeds.{max_seed, seed_of_percent}

-- The seed of a percentage is the exact quotient.
is_exact : ℕ → Bool
is_exact percent = seed_of_percent percent == percent * max_seed / 100

-- The percentages before a bound, tested from the last one down.
exact_before : ℕ → Bool
exact_before zero = true
exact_before (suc last) = exact_before last && is_exact last

exact_before-at :
    (bound percent : ℕ) → percent < bound → exact_before bound ≡ true → is_exact percent ≡ true
unfolding exact_before
exact_before-at zero percent lt tested = absurd (omega arith)
exact_before-at (suc last) percent lt tested = ground (arith, exact_before-at last percent)

percentages_exact : exact_before 101 ≡ true
unfolding exact_before is_exact seed_of_percent
percentages_exact = refl

-- For every fleet percentage up to 100 the seed computed in single precision is the exact quotient
-- of percentage times MAX_SEED by 100, rounded down.
pub seed_of_percent_exact :
    (fleet_percentage : ℕ)
    → fleet_percentage ≤ 100
    → seed_of_percent fleet_percentage ≡ fleet_percentage * max_seed / 100
unfolding is_exact
seed_of_percent_exact p h = (==_iff _ _).0 (exact_before-at 101 p (omega arith) percentages_exact)
