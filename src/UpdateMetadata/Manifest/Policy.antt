-- ===== src/UpdateMetadata/Manifest/Policy.antt =====
-- `set_waves` of tools/update-metadata/src/lib.rs: at which seed and date the waves of a policy start.
use twoliter.Prelude.{
  ℕ, ◌*◌, ◌/◌, ◌≤◌, ◌≡◌, inl, inr, refl, ap, sym, ◌∙◌, Option, none, some, List, [], ◌∷◌, arith,
  if◌then◌else◌, Bool-cases, All,
}
use twoliter.Prelude.Classes.{◌==◌, nat_eq}
use twoliter.Prelude.Maps.{lookup}
use twoliter.Chrono.{Chrono}
use twoliter.ParseDatetime.{offset, invalid, parse_offset}
use twoliter.UpdateMetadata.Seeds.{max_seed}
use twoliter.UpdateMetadata.Seeds.Bounds.{seed_of_percent_exact}
use twoliter.UpdateMetadata.Manifest.FillWaves.{
  IsLegal, HasOffset, fill_waves-IsLegal, fill_waves-IsAscending, Checked-cases, some_ne_none,
  fill_waves_good, fill_waves_bad,
}
use twoliter.UpdateMetadata.Waves.Position.{IsAscending}
use twoliter.UpdateMetadata.Manifest.{UpdateWave, insert_wave, fill_waves, good, check_wave}

-- Each wave with the seed at which it starts: the part of MAX_SEED that the percentage before it makes.
abbrev pub with_starts : ℕ → List UpdateWave → List (ℕ × UpdateWave)
with_starts percentage [] = []
with_starts percentage (w ∷ ws) =
    (percentage * max_seed / 100, w) ∷ with_starts w.fleet_percentage ws

-- The last of the waves that start at a seed.
abbrev pub last_at : ℕ → List (ℕ × UpdateWave) → Option UpdateWave
last_at seed [] = none
last_at seed ((start, w) ∷ ws) = elim (last_at seed ws) [
  | some later ↦ some later
  | none ↦ if start == seed then some w else none
]

lookup-insert_wave :
    {Time : Type 0} (key other : ℕ) (t : Time) (m : List (ℕ × Time))
    → lookup other (insert_wave key t m) ≡ (if key == other then some t else lookup other m)
unfolding lookup insert_wave
lookup-insert_wave key other t [] = refl
lookup-insert_wave key other t ((j, u) ∷ m) = ground (arith, lookup-insert_wave key other t m)

module _ (c : Chrono) where
  open c use {Time, Duration, add}

  -- The date that a wave starts at, where its offset parses.
  abbrev pub date_of : Time → UpdateWave → Option Time
  date_of start_at w = elim (parse_offset c w.start_after) [
    | offset d ↦ some (add start_at d)
    | invalid e ↦ none
  ]

  -- The date that a policy gives to the hosts from a seed on, if one of its waves starts there.
  abbrev pub date_or : Option Time → Time → Option UpdateWave → Option Time
  date_or other start_at none = other
  date_or other start_at (some w) = date_of start_at w

  check_wave_date :
      (w : UpdateWave) (d : Duration)
      → check_wave c w ≡ good d
      → (w.fleet_percentage ≤ 100) × (parse_offset c w.start_after ≡ offset d)
  unfolding check_wave
  check_wave_date w d e = (ground arith, ground arith)

  date_or_step :
      (other : Option Time) (start_at : Time) (w : UpdateWave) (d : Duration) (start seed : ℕ)
      (later : Option UpdateWave)
      → parse_offset c w.start_after ≡ offset d
      → date_or (if start == seed then some (add start_at d) else other) start_at later
        ≡ date_or other start_at
            (elim later [ some v ↦ some v | none ↦ if start == seed then some w else none ])
  date_or_step other start_at w d start seed (some v) e = refl
  date_or_step other start_at w d start seed none e = elim (Bool-cases (start == seed)) [
    | inl here ↦
        let dated : date_of start_at w ≡ some (add start_at d) = rw (e, date_of) refl in
        rw here (sym dated)
    | inr away ↦ rw away refl
  ]

  -- The loop, from the percentage of the wave before on, leaves at each seed the date of the last wave
  -- that starts there, and the old date where none does.
  fill_waves-lookup :
      (start_at : Time) (percentage seed : ℕ) (ws : List UpdateWave) (m : List (ℕ × Time))
      → (fill_waves c start_at (percentage * max_seed / 100) ws m).1 ≡ none
      → lookup seed (fill_waves c start_at (percentage * max_seed / 100) ws m).0
        ≡ date_or (lookup seed m) start_at (last_at seed (with_starts percentage ws))
  fill_waves-lookup start_at percentage seed [] m e = unfold fill_waves in refl
  fill_waves-lookup start_at percentage seed (w ∷ ws) m e = elim (Checked-cases (check_wave c w)) [
    | inl (d, is_good) ↦
        let start = percentage * max_seed / 100 in
        let filled = insert_wave start (add start_at d) m in
        let (legal, dated) = check_wave_date w d is_good in
        let step : fill_waves c start_at start (w ∷ ws) m
            ≡ fill_waves c start_at (w.fleet_percentage * max_seed / 100) ws filled =
          fill_waves_good c start_at start w ws m d is_good
          ∙ ap (λ s. fill_waves c start_at s ws filled)
              (seed_of_percent_exact w.fleet_percentage legal) in
        let later = last_at seed (with_starts w.fleet_percentage ws) in
        ap (λ r. lookup seed r.0) step
        ∙ fill_waves-lookup start_at w.fleet_percentage seed ws filled
            (sym (ap (λ r. r.1) step) ∙ e)
        ∙ ap (λ x. date_or x start_at later) (lookup-insert_wave start seed (add start_at d) m)
        ∙ date_or_step (lookup seed m) start_at w d start seed later dated
    | inr (problem, is_bad) ↦ absurd (
        some_ne_none problem (
          sym (
            ap (λ r. r.1)
              (fill_waves_bad c start_at (percentage * max_seed / 100) w ws m problem is_bad))
          ∙ e))
  ]

module _ (c : Chrono) where
  open c use {Time}

  -- The waves are those of a policy: at each seed stands the date of the last wave that starts there,
  -- and nothing where none does. The policy has only legal percentages and offsets that parse.
  pub record IsPolicy (start_at : Time) (ws : List UpdateWave) (waves : List (ℕ × Time))
      : Type 0 where
    pub ascending : IsAscending waves
    pub dates :
        (seed : ℕ) → lookup seed waves ≡ date_or c none start_at (last_at seed (with_starts 0 ws))
    pub legal : All (λ w. IsLegal w.fleet_percentage × HasOffset c w) ws

  pub fill_waves-IsPolicy :
      (start_at : Time) (ws : List UpdateWave)
      → (fill_waves c start_at 0 ws []).1 ≡ none
      → IsPolicy start_at ws (fill_waves c start_at 0 ws []).0
  unfolding lookup
  fill_waves-IsPolicy start_at ws e = record {
    ascending = fill_waves-IsAscending c start_at 0 ws [] tt;
    dates = λ seed. fill_waves-lookup c start_at 0 seed ws [] e;
    legal = fill_waves-IsLegal c start_at 0 ws [] e;
  }
