-- ===== src/UpdateMetadata/Manifest/SetWaves.antt =====
-- `set_waves` of tools/update-metadata/src/lib.rs: what it writes into a manifest.
use twoliter.Prelude.{
  ℕ, ◌≡◌, ◌⊎◌, ◌∙◌, Bool-cases, inl, inr, refl, ap, sym, subst, Bool, true, Option, none, some,
  List, [], ◌∷◌, ◌++◌, map, Text, arith, length, keep, All, Elem, if◌then◌else◌,
}
use twoliter.Prelude.Classes.{Order, nat_eq}
use twoliter.Chrono.{Chrono}
use twoliter.UpdateMetadata.Manifest.FillWaves.{
  wave_with, IsLegal, HasOffset, fill_waves_last, fill_waves-IsLegal,
}
use twoliter.UpdateMetadata.Manifest.Policy.{IsPolicy, fill_waves-IsPolicy}
use twoliter.UpdateMetadata.Manifest.{
  Update, Manifest, UpdateWave, Error, waves_ordered, validate_updates, fill_waves, is_chosen,
  with_waves, unchanged, fill_updates, matched, outcome_of, set_waves,
}

outcome_of-matched :
    (n k : ℕ) (p q : Option Error)
    → outcome_of n p q ≡ matched k
    → (n ≡ k) × (p ≡ none) × (q ≡ none)
outcome_of-matched n k none none e = (cc, refl, refl)
outcome_of-matched n k none (some x) e = cc
outcome_of-matched n k (some x) q e = cc

module _ {V : Type 0} ⦃o : Order V⦄ (c : Chrono) where
  open c use {Time}

  fill_updates_cong :
      (chosen : Update V Time → Bool) (start_at : Time) (ws vs : List UpdateWave)
      (us : List (Update V Time))
      → fill_waves c start_at 0 ws [] ≡ fill_waves c start_at 0 vs []
      → fill_updates c chosen start_at ws us ≡ fill_updates c chosen start_at vs us
  unfolding fill_updates
  fill_updates_cong chosen start_at ws vs [] e = refl
  fill_updates_cong chosen start_at ws vs (u ∷ us) e =
      let rest = fill_updates_cong chosen start_at ws vs us e in
      λ i. if chosen u then with_waves c u us (e i) (rest i) else unchanged c u (rest i)

  -- The fleet percentage of the last wave changes nothing, as long as it is legal.
  pub set_waves_last :
      (variant arch start_after : Text) (image_version : V) (start_at : Time) (p q : ℕ)
      (ws : List UpdateWave) (m : Manifest V Time)
      → IsLegal p
      → IsLegal q
      → set_waves c variant arch image_version start_at (ws ++ wave_with start_after p ∷ []) m
        ≡ set_waves c variant arch image_version start_at (ws ++ wave_with start_after q ∷ []) m
  unfolding set_waves
  set_waves_last variant arch start_after image_version start_at p q ws m h k =
      ap
        (λ (r : List (Update V Time) × Option Error). (
          record m { updates = r.0 },
          outcome_of (length (keep (is_chosen variant arch image_version) m.updates)) r.1
              (validate_updates c r.0),
        ))
        (fill_updates_cong (is_chosen variant arch image_version) start_at _ _ m.updates
          (fill_waves_last c start_at 0 p q start_after ws [] h k))

  -- What the outer loop does with an update once the waves are known.
  abbrev pub assign : (Update V Time → Bool) → List (ℕ × Time) → Update V Time → Update V Time
  assign chosen waves u = if chosen u then record u { waves = waves } else u

  fill_updates_ok :
      (chosen : Update V Time → Bool) (start_at : Time) (ws : List UpdateWave)
      (us : List (Update V Time))
      → (fill_updates c chosen start_at ws us).1 ≡ none
      → (fill_updates c chosen start_at ws us).0
        ≡ map (assign chosen (fill_waves c start_at 0 ws []).0) us
  unfolding fill_updates
  fill_updates_ok chosen start_at ws [] e = refl
  fill_updates_ok chosen start_at ws (u ∷ us) e =
      ground (arith, fill_updates_ok chosen start_at ws us)

  abbrev pub AreOrdered : List (Update V Time) → Type 0
  AreOrdered us = All (λ u. waves_ordered c u.waves ≡ true) us

  validate_updates-eq-none :
      (us : List (Update V Time)) → validate_updates c us ≡ none → AreOrdered us
  unfolding validate_updates
  validate_updates-eq-none [] e = tt
  validate_updates-eq-none (u ∷ us) e = (ground arith, validate_updates-eq-none us (ground arith))

  -- Where the outer loop ends without an error, no update was chosen, or the inner loop had no error.
  fill_updates_filled :
      (chosen : Update V Time → Bool) (start_at : Time) (ws : List UpdateWave)
      (us : List (Update V Time))
      → (fill_updates c chosen start_at ws us).1 ≡ none
      → (length (keep chosen us) ≡ 0) ⊎ ((fill_waves c start_at 0 ws []).1 ≡ none)
  unfolding fill_updates
  fill_updates_filled chosen start_at ws [] e = inl refl
  fill_updates_filled chosen start_at ws (u ∷ us) e = elim (Bool-cases (chosen u)) [
    | inl here ↦ inr (ground arith)
    | inr away ↦ elim (fill_updates_filled chosen start_at ws us (ground arith)) [
      | inl empty ↦ inl (rw away empty)
      | inr filled ↦ inr filled
    ]
  ]

  map-assign_none :
      (chosen : Update V Time → Bool) (waves : List (ℕ × Time)) (us : List (Update V Time))
      → length (keep chosen us) ≡ 0
      → map (assign chosen waves) us ≡ us
  map-assign_none chosen waves [] e = refl
  map-assign_none chosen waves (u ∷ us) e = elim (Bool-cases (chosen u)) [
    | inl here ↦ absurd (ground arith)
    | inr away ↦ rw away (ap (λ vs. u ∷ vs) (map-assign_none chosen waves us (rw away at e)))
  ]

  -- On success nothing but the waves of the updates for the architecture, variant and version changes.
  -- They are the same for all of these updates. The first wave of the policy starts at seed 0, and
  -- every other one at the part of MAX_SEED that the percentage of the wave before it makes, rounded
  -- down; its date is the start plus its offset, and of waves that start at one seed the last counts.
  -- Every percentage of the policy is from 1 to 100, and every offset parses. Where there is no such
  -- update, nothing changes. The count is that of these updates, and in every update of the manifest
  -- the dates ascend with the seeds.
  pub set_waves_ok :
      (variant arch : Text) (image_version : V) (start_at : Time) (ws : List UpdateWave)
      (m : Manifest V Time) (n : ℕ)
      → (set_waves c variant arch image_version start_at ws m).1 ≡ matched n
      → let result = (set_waves c variant arch image_version start_at ws m).0 in
        (((n ≡ 0) × (result ≡ m))
          ⊎ ((waves : List (ℕ × Time)) × IsPolicy c start_at ws waves
              × (result ≡ record m {
                updates = map (assign (is_chosen variant arch image_version) waves) m.updates;
              })))
        × (n ≡ length (keep (is_chosen variant arch image_version) m.updates))
        × AreOrdered result.updates
  unfolding set_waves
  set_waves_ok variant arch image_version start_at ws m n e =
      let chosen = is_chosen variant arch image_version in
      let waves = (fill_waves c start_at 0 ws []).0 in
      let (count, filled, ordered) = outcome_of-matched _ n _ _ e in
      let written = fill_updates_ok chosen start_at ws m.updates filled in
      (
        elim (fill_updates_filled chosen start_at ws m.updates filled) [
          | inl empty ↦ inl (
            sym count ∙ empty,
            ap (λ us. record m { updates = us })
                (written ∙ map-assign_none chosen waves m.updates empty),
          )
          | inr good ↦ inr (
            waves,
            fill_waves-IsPolicy c start_at ws good,
            ap (λ us. record m { updates = us }) written,
          )
        ],
        sym count,
        validate_updates-eq-none _ ordered,
      )

  fill_updates-none :
      (chosen : Update V Time → Bool) (start_at : Time) (ws : List UpdateWave)
      (us : List (Update V Time)) (u : Update V Time)
      → Elem u us
      → chosen u ≡ true
      → (fill_updates c chosen start_at ws us).1 ≡ none
      → (fill_waves c start_at 0 ws []).1 ≡ none
  unfolding fill_updates
  fill_updates-none chosen start_at ws [] u m h e = elim m [ ]
  fill_updates-none chosen start_at ws (v ∷ us) u (inl same_as) h e =
      let here = subst (λ x. chosen x ≡ true) same_as h in ground arith
  fill_updates-none chosen start_at ws (v ∷ us) u (inr m) h e =
      fill_updates-none chosen start_at ws us u m h (ground arith)

  -- If an update for the architecture, variant and version is there, waves are accepted only if every
  -- one of them has a percentage from 1 to 100 and an offset that parses.
  pub set_waves-IsLegal :
      (variant arch : Text) (image_version : V) (start_at : Time) (ws : List UpdateWave)
      (m : Manifest V Time) (n : ℕ) (u : Update V Time)
      → Elem u m.updates
      → is_chosen variant arch image_version u ≡ true
      → (set_waves c variant arch image_version start_at ws m).1 ≡ matched n
      → All (λ w. IsLegal w.fleet_percentage × HasOffset c w) ws
  unfolding set_waves
  set_waves-IsLegal variant arch image_version start_at ws m n u listed h e =
      let (_, filled, _) = outcome_of-matched _ n _ _ e in
      fill_waves-IsLegal c start_at 0 ws [] (
        fill_updates-none (is_chosen variant arch image_version) start_at ws m.updates u listed h
          filled)
