-- ===== src/UpdateMetadata/Manifest/FillWaves.antt =====
-- `set_waves` of tools/update-metadata/src/lib.rs: its inner loop, which makes the waves of one update.
use twoliter.Prelude.{
  ℕ, ◌≤◌, ◌<◌, ◌≡◌, ◌≢◌, ◌⊎◌, inl, inr, refl, ap, sym, ◌∙◌, subst, none, some, List, [], ◌∷◌, ◌++◌,
  Text, arith, All,
}
use twoliter.Chrono.{Chrono}
use twoliter.ParseDatetime.{offset, parse_offset}
use twoliter.UpdateMetadata.Seeds.{seed_of_percent}
use twoliter.UpdateMetadata.Waves.Position.{IsAscending}
use twoliter.UpdateMetadata.Manifest.{
  UpdateWave, Error, insert_wave, fill_waves, Checked, good, bad, check_wave,
}

module _ {Time : Type 0} where
  All-insert_wave :
      (j k : ℕ) (t : Time) (m : List (ℕ × Time))
      → j < k
      → All (λ v. j < v.0) m
      → All (λ v. j < v.0) (insert_wave k t m)
  unfolding insert_wave
  All-insert_wave j k t [] h a = (h, tt)
  All-insert_wave j k t ((i, u) ∷ m) h (p, a) = ground (arith, All-insert_wave j k t m h a)

  All-later : (j k : ℕ) (m : List (ℕ × Time)) → j < k → All (λ v. k < v.0) m → All (λ v. j < v.0) m
  All-later j k [] h a = tt
  All-later j k (v ∷ m) h (p, a) = (omega arith, All-later j k m h a)

  insert_wave-IsAscending :
      (k : ℕ) (t : Time) (m : List (ℕ × Time)) → IsAscending m → IsAscending (insert_wave k t m)
  unfolding insert_wave
  insert_wave-IsAscending k t [] a = (tt, tt)
  insert_wave-IsAscending k t ((j, u) ∷ m) (p, a) =
      ground (arith, All-later k j m, All-insert_wave j k t m, insert_wave-IsAscending k t m a)

pub some_ne_none : {A : Type 0} (a : A) → some a ≢ none
some_ne_none a e = cc

pub Checked-cases :
    {D : Type 0} (r : Checked D) → ((d : D) × (r ≡ good d)) ⊎ ((e : Error) × (r ≡ bad e))
Checked-cases (good d) = inl (d, refl)
Checked-cases (bad e) = inr (e, refl)

abbrev pub wave_with : Text → ℕ → UpdateWave
wave_with start_after p = record { start_after = start_after; fleet_percentage = p }

abbrev pub IsLegal : ℕ → Type 0
IsLegal p = (0 < p) × (p ≤ 100)

module _ (c : Chrono) where
  open c use {Time, Duration, order, add}

  pub fill_waves_good :
      (start_at : Time) (seed : ℕ) (w : UpdateWave) (ws : List UpdateWave) (m : List (ℕ × Time))
      (d : Duration)
      → check_wave c w ≡ good d
      → fill_waves c start_at seed (w ∷ ws) m
        ≡ fill_waves c start_at
            (seed_of_percent w.fleet_percentage)
            ws
            (insert_wave seed (add start_at d) m)
  unfolding fill_waves
  fill_waves_good start_at seed w ws m d e = ground arith

  pub fill_waves_bad :
      (start_at : Time) (seed : ℕ) (w : UpdateWave) (ws : List UpdateWave) (m : List (ℕ × Time))
      (problem : Error)
      → check_wave c w ≡ bad problem
      → fill_waves c start_at seed (w ∷ ws) m ≡ (m, some problem)
  unfolding fill_waves
  fill_waves_bad start_at seed w ws m problem e = ground arith

  -- The map that the inner loop leaves has ascending keys, also when it stops at an error.
  pub fill_waves-IsAscending :
      (start_at : Time) (seed : ℕ) (ws : List UpdateWave) (m : List (ℕ × Time))
      → IsAscending m
      → IsAscending (fill_waves c start_at seed ws m).0
  fill_waves-IsAscending start_at seed [] m a = unfold fill_waves in a
  fill_waves-IsAscending start_at seed (w ∷ ws) m a = elim (Checked-cases (check_wave c w)) [
    | inl (d, e) ↦
        subst (λ r. IsAscending r.0) (sym (fill_waves_good start_at seed w ws m d e))
          (fill_waves-IsAscending start_at (seed_of_percent w.fleet_percentage) ws
            (insert_wave seed (add start_at d) m)
            (insert_wave-IsAscending seed (add start_at d) m a))
    | inr (problem, e) ↦
        subst (λ r. IsAscending r.0) (sym (fill_waves_bad start_at seed w ws m problem e)) a
  ]

  check_wave_legal :
      (start_after : Text) (p q : ℕ)
      → IsLegal p
      → IsLegal q
      → check_wave c (wave_with start_after p) ≡ check_wave c (wave_with start_after q)
  unfolding check_wave
  check_wave_legal start_after p q h k = ground arith

  pub fill_waves_last :
      (start_at : Time) (seed p q : ℕ) (start_after : Text) (ws : List UpdateWave)
      (m : List (ℕ × Time))
      → IsLegal p
      → IsLegal q
      → fill_waves c start_at seed (ws ++ wave_with start_after p ∷ []) m
        ≡ fill_waves c start_at seed (ws ++ wave_with start_after q ∷ []) m
  fill_waves_last start_at seed p q start_after [] m h k =
      let alike = check_wave_legal start_after p q h k in
      elim (Checked-cases (check_wave c (wave_with start_after p))) [
        | inl (d, e) ↦
            fill_waves_good start_at seed (wave_with start_after p) [] m d e
            ∙ unfold fill_waves in
              sym (fill_waves_good start_at seed (wave_with start_after q) [] m d (sym alike ∙ e))
        | inr (problem, e) ↦
            fill_waves_bad start_at seed (wave_with start_after p) [] m problem e
            ∙ sym (
                fill_waves_bad start_at seed (wave_with start_after q) [] m problem (sym alike ∙ e))
      ]
  fill_waves_last start_at seed p q start_after (w ∷ ws) m h k =
      elim (Checked-cases (check_wave c w)) [
        | inl (d, e) ↦
            fill_waves_good start_at seed w (ws ++ wave_with start_after p ∷ []) m d e
            ∙ fill_waves_last start_at (seed_of_percent w.fleet_percentage) p q start_after ws
                (insert_wave seed (add start_at d) m) h k
            ∙ sym (fill_waves_good start_at seed w (ws ++ wave_with start_after q ∷ []) m d e)
        | inr (problem, e) ↦
            fill_waves_bad start_at seed w (ws ++ wave_with start_after p ∷ []) m problem e
            ∙ sym (fill_waves_bad start_at seed w (ws ++ wave_with start_after q ∷ []) m problem e)
      ]

module _ (c : Chrono) where
  open c use {Time, Duration, add}

  abbrev pub HasOffset : UpdateWave → Type 0
  HasOffset w = (d : Duration) × (parse_offset c w.start_after ≡ offset d)

  check_wave_good :
      (w : UpdateWave) (d : Duration)
      → check_wave c w ≡ good d
      → IsLegal w.fleet_percentage × HasOffset w
  unfolding check_wave
  check_wave_good w d e = ((ground arith, ground arith), (d, ground arith))

  pub fill_waves-IsLegal :
      (start_at : Time) (seed : ℕ) (ws : List UpdateWave) (m : List (ℕ × Time))
      → (fill_waves c start_at seed ws m).1 ≡ none
      → All (λ w. IsLegal w.fleet_percentage × HasOffset w) ws
  fill_waves-IsLegal start_at seed [] m e = tt
  fill_waves-IsLegal start_at seed (w ∷ ws) m e = elim (Checked-cases (check_wave c w)) [
    | inl (d, is_good) ↦ (
      check_wave_good w d is_good,
      fill_waves-IsLegal start_at (seed_of_percent w.fleet_percentage) ws
          (insert_wave seed (add start_at d) m)
          (sym (ap (λ r. r.1) (fill_waves_good c start_at seed w ws m d is_good)) ∙ e),
    )
    | inr (problem, is_bad) ↦ absurd (
        some_ne_none problem
          (sym (ap (λ r. r.1) (fill_waves_bad c start_at seed w ws m problem is_bad)) ∙ e))
  ]
