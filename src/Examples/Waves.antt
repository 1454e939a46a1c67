-- ===== src/Examples/Waves.antt =====
-- Runs of tools/update-metadata and tools/parse-datetime on small inputs.
use twoliter.Prelude.{
  ℕ, ◌≡◌, ◌↔◌, refl, Bool, true, false, some, List, [], ◌∷◌, Text, text, arith, split_whitespace,
  parse_unsigned,
}
use twoliter.Prelude.Panics.{returns}
use twoliter.Chrono.Sample.{hours}
use twoliter.ParseDatetime.{offset, parse_offset}
use twoliter.ParseDatetime.Words.{AreParts, Reads, parse_offset_iff}
use twoliter.UpdateMetadata.Seeds.{seed_of_percent}
use twoliter.UpdateMetadata.Seeds.Bounds.{seed_of_percent_exact}
use twoliter.UpdateMetadata.Waves.{general, update_wave, update_ready}
use twoliter.UpdateMetadata.Waves.Position.{Surrounds, update_wave-Surrounds}
use twoliter.UpdateMetadata.Waves.Ready.{IsInside, update_ready_late}
use twoliter.UpdateMetadata.Waves.Times.{IsReady, update_ready_iff}

abbrev two_waves : List (ℕ × ℕ)
two_waves = (0, 10) ∷ (20, 34) ∷ (40, 74) ∷ []

update_wave-Surrounds_example :
    (wave : _) × (update_wave two_waves 30 ≡ returns wave) × Surrounds two_waves 30 wave
update_wave-Surrounds_example = update_wave-Surrounds two_waves 30 (omega arith) (omega arith)

update_wave_runs : update_wave two_waves 30 ≡ returns (some (general 34 74 20 40))
unfolding update_wave
update_wave_runs = refl

-- A seed at which a wave starts is in the wave before it; the first one may update before any start.
update_wave_at_start : update_wave two_waves 20 ≡ returns (some (general 10 34 0 20))
unfolding update_wave
update_wave_at_start = refl

ready_before_start : update_ready hours two_waves 0 0 ≡ returns true
unfolding update_ready
ready_before_start = refl

ready_at_25 : update_ready hours two_waves 10 25 ≡ returns true
unfolding update_ready
ready_at_25 = refl

IsInside-first : IsInside hours two_waves 10 34 0 20 10
unfolding update_wave
IsInside-first = record {
  ascending = omega arith;
  in_range = omega arith;
  found = refl;
  forward = refl;
}

IsInside-first_later : IsInside hours two_waves 10 34 0 20 15
unfolding update_wave
IsInside-first_later = record {
  ascending = omega arith;
  in_range = omega arith;
  found = refl;
  forward = refl;
}

IsInside-second : IsInside hours two_waves 34 74 20 40 30
unfolding update_wave
IsInside-second = record {
  ascending = omega arith;
  in_range = omega arith;
  found = refl;
  forward = refl;
}

update_ready_iff_example :
    (ready : Bool) × (update_ready hours two_waves 10 25 ≡ returns ready)
    × ((ready ≡ true) ↔ IsReady hours two_waves 10 25)
update_ready_iff_example = update_ready_iff hours two_waves 10 25 (omega arith) (omega arith)

ready_later_seed : update_ready hours two_waves 15 26 ≡ returns true
unfolding update_ready
ready_later_seed = refl

-- In the second wave of 20 seeds the host in the middle waits for the end of the wave.
update_ready_late_example : update_ready hours two_waves 30 73 ≡ returns false
update_ready_late_example = update_ready_late hours IsInside-second 73 refl (omega arith)

seed_of_percent_exact_example : seed_of_percent 1 ≡ 20
seed_of_percent_exact_example = seed_of_percent_exact 1 (omega arith)

seven_days : parse_offset hours (text "in  7 days") ≡ offset 168
unfolding parse_offset split_whitespace parse_unsigned
seven_days = refl

parse_offset_iff_example : (parse_offset hours (text "in  7 days") ≡ offset 168) ↔ (
    (count_str unit_str : Text) × AreParts hours
      (split_whitespace (text "in  7 days"))
      count_str
      unit_str
    × Reads hours 168 count_str unit_str)
parse_offset_iff_example = parse_offset_iff hours (text "in  7 days") 168
