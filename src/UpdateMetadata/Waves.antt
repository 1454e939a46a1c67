-- ===== src/UpdateMetadata/Waves.antt =====
-- tools/update-metadata/src/lib.rs: the wave that a host belongs to, and whether it may update.
-- A `BTreeMap<u32, DateTime<Utc>>` is its list of entries, in the order of the keys.
pub mod Position
pub mod Ready
pub mod Times
use twoliter.Prelude.{
  ℕ, ◌-◌, Bool, true, false, not, ◌&&◌, Option, none, some, List, [], ◌∷◌, ltb, leb, ◌==◌,
  if◌then◌else◌, keep,
}
use twoliter.Prelude.Panics.{Panics, returns, panics, ◌>>=◌}
use twoliter.Chrono.{Chrono}
use twoliter.UpdateMetadata.Seeds.{max_seed}

pub data Wave (Time : Type 0) : Type 0 where
  initial : (end_time : Time) (end_seed : ℕ) → Wave Time
  general : (start_time end_time : Time) (start_seed end_seed : ℕ) → Wave Time
  last : (start_time : Time) (start_seed : ℕ) → Wave Time

module _ {A : Type 0} where
  -- `iter.next()` and `iter.last()`
  abbrev pub first_of_list : List A → Option A
  first_of_list [] = none
  first_of_list (x ∷ xs) = some x

  abbrev pub last_of_list : List A → Option A
  last_of_list [] = none
  last_of_list (x ∷ xs) = elim (last_of_list xs) [ none ↦ some x | some y ↦ some y ]

-- `(Included(0), Excluded(seed))`, and `(Included(seed), Included(MAX_SEED))`
abbrev pub is_before : {Time : Type 0} → ℕ → ℕ × Time → Bool
is_before seed w = ltb w.0 seed

abbrev pub is_from : {Time : Type 0} → ℕ → ℕ × Time → Bool
is_from seed w = leb seed w.0 && leb w.0 max_seed

abbrev pub wave_between :
    {Time : Type 0} → Option (ℕ × Time) → Option (ℕ × Time) → Option (Wave Time)
wave_between none (some (end_seed, end_time)) = some (initial end_time end_seed)
wave_between (some (start_seed, start_time)) (some (end_seed, end_time)) =
    some (general start_time end_time start_seed end_seed)
wave_between (some (start_seed, start_time)) none = some (last start_time start_seed)
wave_between none none = none

-- `BTreeMap::range` panics where the range starts behind its end, except on a map that has no entry.
abbrev pub behind_end : {Time : Type 0} → List (ℕ × Time) → Panics (Option (Wave Time))
behind_end [] = returns none
behind_end (w ∷ ws) = panics

unfoldable pub update_wave : {Time : Type 0} → List (ℕ × Time) → ℕ → Panics (Option (Wave Time))
update_wave waves seed =
    if ltb max_seed seed
    then behind_end waves
    else returns (
        wave_between (last_of_list (keep (is_before seed) waves))
          (first_of_list (keep (is_from seed) waves)))

module _ (c : Chrono) where
  open c use {Time, order, add, sub, div, mul}

  -- `a <= b`, `a >= b`
  abbrev pub at_most : Time → Time → Bool
  at_most a b = not (order.lt b a)

  unfoldable pub has_started : Wave Time → Time → Bool
  has_started (initial _ _) time = true
  has_started (general start_time _ _ _) time = at_most start_time time
  has_started (last start_time _) time = at_most start_time time

  unfoldable pub has_passed : Wave Time → Time → Bool
  has_passed (initial end_time _) time = at_most end_time time
  has_passed (general _ end_time _ _) time = at_most end_time time
  has_passed (last start_time _) time = at_most start_time time

  -- The time from which a host with this seed may update within a wave that has a start and an end.
  unfoldable pub target_time : (start_time end_time : Time) (start_seed end_seed seed : ℕ) → Time
  target_time start_time end_time start_seed end_seed seed =
      add start_time (mul (div (sub end_time start_time) (end_seed - start_seed)) seed)

  -- What is left of `update_ready` for a wave that has started and has not passed.
  unfoldable pub position_passed : Wave Time → ℕ → Time → Bool
  unfolding target_time
  position_passed (general start_time end_time start_seed end_seed) seed time =
      if end_seed - start_seed == 0
      then true
      else at_most (target_time start_time end_time start_seed end_seed seed) time
  position_passed (initial _ _) seed time = true
  position_passed (last _ _) seed time = true

  unfoldable pub wave_ready : Option (Wave Time) → ℕ → Time → Bool
  unfolding has_started has_passed position_passed
  wave_ready none seed time = true
  wave_ready (some wave) seed time =
      if has_passed wave time
      then true
      else if not (has_started wave time)
      then false
      else position_passed wave seed time

  unfoldable pub update_ready : List (ℕ × Time) → ℕ → Time → Panics Bool
  unfolding update_wave wave_ready
  update_ready waves seed time = do
    wave ← update_wave waves seed
    returns (wave_ready wave seed time)
