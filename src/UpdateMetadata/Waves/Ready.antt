-- ===== src/UpdateMetadata/Waves/Ready.antt =====
-- `update_ready` of tools/update-metadata/src/lib.rs: when a host may update.
use twoliter.Prelude.{
  ℕ, ◌-◌, ◌≤◌, ◌<◌, ◌≡◌, ◌↔◌, ◌⊎◌, inl, inr, ap, sym, subst, ◌∙◌, refl, true, Option, none, some,
  List, ◌∷◌, arith,
}
use twoliter.Prelude.Panics.{Panics, returns, panics, ◌>>=◌}
use twoliter.Chrono.{Chrono}
use twoliter.UpdateMetadata.Seeds.{max_seed}
use twoliter.UpdateMetadata.Waves.Position.{IsAscending, Surrounds, update_wave-Surrounds}
use twoliter.UpdateMetadata.Waves.{
  Wave, initial, general, last, update_wave, at_most, target_time, wave_ready, update_ready,
}

returns-injective : {A : Type 0} {a b : A} → returns a ≡ returns b → a ≡ b
returns-injective h = cc

-- In a map that has entries the lookup of a wave panics for a seed above MAX_SEED.
update_wave_panics :
    {Time : Type 0} (waves : List (ℕ × Time)) (w : ℕ × Time) (seed : ℕ)
    → max_seed < seed
    → update_wave (w ∷ waves) seed ≡ panics
unfolding update_wave
update_wave_panics waves w seed h = ground arith

module _ (c : Chrono) where
  open c use {Time, order, add, sub, div, mul}

  at_most_trans :
      (a b d : Time) → at_most c a b ≡ true → at_most c b d ≡ true → at_most c a d ≡ true
  at_most_trans a b d h k =
      ground
        (arith, order.lt_trans d a b, order.lt_connex a b, order.lt_trans b d a, order.lt_irrefl a)

  wave_ready_mono :
      (wave : Option (Wave Time)) (seed : ℕ) (time later : Time)
      → at_most c time later ≡ true
      → wave_ready c wave seed time ≡ true
      → wave_ready c wave seed later ≡ true
  unfolding wave_ready target_time
  wave_ready_mono none seed time later h r = refl
  wave_ready_mono (some (initial e k)) seed time later h r = ground arith
  wave_ready_mono (some (last s j)) seed time later h r = ground (arith, at_most_trans s time later)
  wave_ready_mono (some (general s e j k)) seed time later h r = ground (
    arith,
    at_most_trans s time later,
    at_most_trans e time later,
    at_most_trans (add s (mul (div (sub e s) (k - j)) seed)) time later,
  )

  ready_mono :
      (found : Panics (Option (Wave Time))) (seed : ℕ) (time later : Time)
      → at_most c time later ≡ true
      → (found >>= λ w. returns (wave_ready c w seed time)) ≡ returns true
      → (found >>= λ w. returns (wave_ready c w seed later)) ≡ returns true
  ready_mono panics seed time later h r = cc
  ready_mono (returns w) seed time later h r = ap returns (wave_ready_mono w seed time later h (cc))

  -- A host that may update at a time may update at every later time.
  pub update_ready_mono :
      (waves : List (ℕ × Time)) (seed : ℕ) (time later : Time)
      → at_most c time later ≡ true
      → update_ready c waves seed time ≡ returns true
      → update_ready c waves seed later ≡ returns true
  unfolding update_ready
  update_ready_mono waves seed time later h r =
      ready_mono (update_wave waves seed) seed time later h r

module _ (c : Chrono) where
  open c use {Time, order, add, sub, div, mul, add-mul_mono}

  -- The facts about one seed in a wave with a start and an end.
  pub record IsInside (waves : List (ℕ × Time)) (start_time end_time : Time)
      (start_seed end_seed seed : ℕ) : Type 0 where
    pub ascending : IsAscending waves
    pub in_range : seed ≤ max_seed
    pub found :
        update_wave waves seed ≡ returns (some (general start_time end_time start_seed end_seed))
    pub forward : at_most c start_time end_time ≡ true

  module _ {waves : List (ℕ × Time)} {s e : Time} {j k seed : ℕ}
      (inside : IsInside waves s e j k seed) where
    -- The seed lies above the seed of the wave's start, and is at most that of its end.
    pub inside_seeds : (j < seed) × (seed ≤ k)
    inside_seeds =
        let (wave, same, around) =
          update_wave-Surrounds waves seed inside.ascending inside.in_range in
        let wave_is : wave ≡ some (general s e j k) = returns-injective (sym same ∙ inside.found) in
        let (is_start, is_end) = subst (Surrounds waves seed) wave_is around in
        (is_start.below, is_end.from)

    ready_of_found :
        (time : Time)
        → update_ready c waves seed time ≡ returns (wave_ready c (some (general s e j k)) seed time)
    unfolding update_ready
    ready_of_found time = rw inside.found

    -- In a wave with a start and an end a host may update exactly when the wave has passed, or it has
    -- started and the host's target time has come.
    update_ready-IsInside :
        (time : Time)
        → (update_ready c waves seed time ≡ returns true) ↔ (
            (at_most c e time ≡ true)
            ⊎ ((at_most c s time ≡ true) × (at_most c (target_time c s e j k seed) time ≡ true)))
    unfolding wave_ready
    update_ready-IsInside time = (
      λ h. ground (arith, ready_of_found time, inside_seeds),
      λ h. ground (arith, ready_of_found time, inside_seeds),
    )

    -- A host whose seed is at least the number of seeds of its wave may update no earlier than the end
    -- of the wave, where the duration of the wave is a multiple of that number: its target time is
    -- counted from seed 0 and not from the first seed of the wave.
    pub update_ready_late :
        (time : Time)
        → add s (mul (div (sub e s) (k - j)) (k - j)) ≡ e
        → k - j ≤ seed
        → update_ready c waves seed time ≡ returns (at_most c e time)
    unfolding wave_ready target_time
    update_ready_late time exact wide =
        let target = target_time c s e j k seed in
        let long : at_most c e target ≡ true =
          subst (λ x. at_most c x target ≡ true) exact
            (ground (arith, add-mul_mono s e (k - j) (k - j) seed, inside.forward)) in
        ground (arith, ready_of_found time, inside_seeds, at_most_trans c e target time)

  -- Of two hosts in the same wave the one with the smaller seed may update no later.
  pub update_ready_order :
      {waves : List (ℕ × Time)} {s e : Time} {j k seed after : ℕ} (time : Time)
      → IsInside waves s e j k seed
      → IsInside waves s e j k after
      → seed ≤ after
      → update_ready c waves after time ≡ returns true
      → update_ready c waves seed time ≡ returns true
  unfolding wave_ready target_time
  update_ready_order {s} {e} {j} {k} {seed} {after} time first second h r =
      let sooner = target_time c s e j k seed in
      let later = target_time c s e j k after in
      let ordered : at_most c sooner later ≡ true =
        ground (arith, add-mul_mono s e (k - j) seed after, first.forward) in
      elim ((update_ready-IsInside second time).0 r) [
        | inl passed ↦ (update_ready-IsInside first time).1 (inl passed)
        | inr (started, reached) ↦
            (update_ready-IsInside first time).1
              (inr (started, at_most_trans c sooner later time ordered reached))
      ]
