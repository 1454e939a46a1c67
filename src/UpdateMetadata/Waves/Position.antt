-- ===== src/UpdateMetadata/Waves/Position.antt =====
-- `update_wave` of tools/update-metadata/src/lib.rs: the wave it finds is the one around the seed.
use twoliter.Prelude.{
  ℕ, ◌≤◌, ◌<◌, ◌≡◌, refl, Option, none, some, List, [], ◌∷◌, arith, keep, Elem, inl, inr,
  Option-cases, Bool-cases, All, All-at, refl,
}
use twoliter.Prelude.Panics.{returns}
use twoliter.UpdateMetadata.Seeds.{max_seed}
use twoliter.UpdateMetadata.Waves.{
  Wave, initial, general, last, update_wave, is_before, is_from, first_of_list, last_of_list,
}

module _ {Time : Type 0} where
  -- The keys ascend strictly, as the keys of a `BTreeMap` do.
  abbrev pub IsAscending : List (ℕ × Time) → Type 0
  IsAscending [] = Unit
  IsAscending (w ∷ ws) = All (λ v. w.0 < v.0) ws × IsAscending ws

  -- The entry is the last one below the seed.
  pub record IsStart (waves : List (ℕ × Time)) (seed : ℕ) (w : ℕ × Time) : Type 0 where
    pub listed : Elem w waves
    pub below : w.0 < seed
    pub greatest : All (λ v. v.0 < seed → v.0 ≤ w.0) waves

  -- The entry is the first one from the seed on.
  pub record IsEnd (waves : List (ℕ × Time)) (seed : ℕ) (w : ℕ × Time) : Type 0 where
    pub listed : Elem w waves
    pub from : seed ≤ w.0
    pub within : w.0 ≤ max_seed
    pub least : All (λ v. seed ≤ v.0 → w.0 ≤ v.0) waves

  abbrev pub HasNoStart : List (ℕ × Time) → ℕ → Type 0
  HasNoStart waves seed = All (λ v. seed ≤ v.0) waves

  abbrev pub HasNoEnd : List (ℕ × Time) → ℕ → Type 0
  HasNoEnd waves seed = All (λ v. seed ≤ v.0 → max_seed < v.0) waves

  -- What each result says of the entries and the seed.
  abbrev pub Surrounds : List (ℕ × Time) → ℕ → Option (Wave Time) → Type 0
  Surrounds waves seed none = HasNoStart waves seed × HasNoEnd waves seed
  Surrounds waves seed (some (initial end_time end_seed)) =
      HasNoStart waves seed × IsEnd waves seed (end_seed, end_time)
  Surrounds waves seed (some (general start_time end_time start_seed end_seed)) =
      IsStart waves seed (start_seed, start_time) × IsEnd waves seed (end_seed, end_time)
  Surrounds waves seed (some (last start_time start_seed)) =
      IsStart waves seed (start_seed, start_time) × HasNoEnd waves seed

  All-weaken :
      {P Q : ℕ × Time → Type 0} (ws : List (ℕ × Time))
      → ((w : ℕ × Time) → P w → Q w)
      → All P ws
      → All Q ws
  All-weaken [] f h = tt
  All-weaken (w ∷ ws) f (p, h) = (f w p, All-weaken ws f h)

  no_start :
      (waves : List (ℕ × Time)) (seed : ℕ)
      → last_of_list (keep (is_before seed) waves) ≡ none
      → HasNoStart waves seed
  no_start [] seed e = tt
  no_start (w ∷ ws) seed e = (ground arith, no_start ws seed (ground arith))

  IsStart-found :
      (waves : List (ℕ × Time)) (seed : ℕ) (w : ℕ × Time)
      → IsAscending waves
      → last_of_list (keep (is_before seed) waves) ≡ some w
      → IsStart waves seed w
  IsStart-found [] seed w up e = cc
  IsStart-found (v ∷ vs) seed w (above, up) e =
      elim (Option-cases (last_of_list (keep (is_before seed) vs))) [
        | inl none_later ↦
            let same : w ≡ v = ground arith in
            let short : v.0 < seed = ground arith in
            rw same (record {
              listed = inl refl;
              below = short;
              greatest = (
                omega arith,
                All-weaken vs (λ u p h. absurd (omega arith)) (no_start vs seed none_later),
              );
            })
        | inr (u, found) ↦
            let same : w ≡ u = ground arith in
            let ih = IsStart-found vs seed w up (cc) in
            record {
              listed = inr ih.listed;
              below = ih.below;
              greatest =
                  (λ _. omega (arith, All-at (λ u. v.0 < u.0) w vs above ih.listed), ih.greatest);
            }
      ]

  no_end :
      (waves : List (ℕ × Time)) (seed : ℕ)
      → first_of_list (keep (is_from seed) waves) ≡ none
      → HasNoEnd waves seed
  no_end [] seed e = tt
  no_end (w ∷ ws) seed e = (λ h. ground arith, no_end ws seed (ground arith))

  IsEnd-found :
      (waves : List (ℕ × Time)) (seed : ℕ) (w : ℕ × Time)
      → IsAscending waves
      → first_of_list (keep (is_from seed) waves) ≡ some w
      → IsEnd waves seed w
  IsEnd-found [] seed w up e = cc
  IsEnd-found (v ∷ vs) seed w (above, up) e = elim (Bool-cases (is_from seed v)) [
    | inl here ↦
        let same : w ≡ v = ground arith in
        rw same (record {
          listed = inl refl;
          from = ground arith;
          within = ground arith;
          least = (λ _. omega arith, All-weaken vs (λ u p h. omega arith) above);
        })
    | inr away ↦
        let ih = IsEnd-found vs seed w up (ground arith) in
        let later = All-at (λ u. v.0 < u.0) w vs above ih.listed in
        record {
          listed = inr ih.listed;
          from = ih.from;
          within = ih.within;
          least = (λ h. ground (arith, later, ih.within), ih.least);
        }
  ]

  -- For a map of waves and a seed of at most MAX_SEED, the lookup returns, and its result is the wave
  -- around the seed: its start is the last entry below the seed and its end the first entry from the
  -- seed on, with the case where there is no start, no end or neither told apart. So a seed at which a
  -- wave starts is not in that wave but in the one that ends there, and the first of the first wave is
  -- in the initial wave, which has no start.
  pub update_wave-Surrounds :
      (waves : List (ℕ × Time)) (seed : ℕ)
      → IsAscending waves
      → seed ≤ max_seed
      → (wave : Option (Wave Time)) × (update_wave waves seed ≡ returns wave)
        × Surrounds waves seed wave
  unfolding update_wave
  update_wave-Surrounds waves seed up h =
      elim (Option-cases (last_of_list (keep (is_before seed) waves))) [
        | inl no_s ↦ elim (Option-cases (first_of_list (keep (is_from seed) waves))) [
          | inl no_e ↦ (none, ground arith, (no_start waves seed no_s, no_end waves seed no_e))
          | inr ((k, t), e) ↦ (
            some (initial t k),
            ground arith,
            (no_start waves seed no_s, IsEnd-found waves seed (k, t) up e),
          )
        ]
        | inr ((j, s), b) ↦ elim (Option-cases (first_of_list (keep (is_from seed) waves))) [
          | inl no_e ↦ (
            some (last s j),
            ground arith,
            (IsStart-found waves seed (j, s) up b, no_end waves seed no_e),
          )
          | inr ((k, t), e) ↦ (
            some (general s t j k),
            ground arith,
            (IsStart-found waves seed (j, s) up b, IsEnd-found waves seed (k, t) up e),
          )
        ]
      ]
