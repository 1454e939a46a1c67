-- ===== src/UpdateMetadata/Waves/Times.antt =====
-- `update_ready` of tools/update-metadata/src/lib.rs: the times at which a host may update, for every
-- map of waves.
use twoliter.Prelude.{
  ℕ, ◌-◌, ◌≤◌, ◌<◌, ◌≡◌, ◌↔◌, ◌⊎◌, inl, inr, refl, ap, subst, Bool, sym, ◌∙◌, true, false, none,
  some, List, [], ◌∷◌, arith, Elem, All-at, Option,
}
use twoliter.Prelude.Panics.{returns}
use twoliter.Chrono.{Chrono}
use twoliter.UpdateMetadata.Seeds.{max_seed}
use twoliter.UpdateMetadata.Waves.Position.{
  IsAscending, IsStart, IsEnd, HasNoStart, HasNoEnd, Surrounds, update_wave-Surrounds,
}
use twoliter.UpdateMetadata.Waves.{
  Wave, initial, general, last, target_time, wave_ready, update_ready,
}

module _ {Time : Type 0} where
  entry_unique :
      (waves : List (ℕ × Time)) (v w : ℕ × Time)
      → IsAscending waves
      → Elem v waves
      → Elem w waves
      → v.0 ≡ w.0
      → v ≡ w
  entry_unique [] v w up m n e = elim m [ ]
  entry_unique (u ∷ us) v w (above, up) (inl m) (inl n) e = m ∙ sym n
  entry_unique (u ∷ us) v w (above, up) (inl m) (inr n) e =
      let key = ap (λ x. x.0) m in absurd (omega (arith, All-at (λ x. u.0 < x.0) w us above n))
  entry_unique (u ∷ us) v w (above, up) (inr m) (inl n) e =
      let key = ap (λ x. x.0) n in absurd (omega (arith, All-at (λ x. u.0 < x.0) v us above m))
  entry_unique (u ∷ us) v w (above, up) (inr m) (inr n) e = entry_unique us v w up m n e

  IsStart-unique :
      (waves : List (ℕ × Time)) (seed : ℕ) (v w : ℕ × Time)
      → IsAscending waves
      → IsStart waves seed v
      → IsStart waves seed w
      → v ≡ w
  IsStart-unique waves seed v w up h k = entry_unique waves v w up h.listed k.listed (
      omega (
        arith,
        h.below,
        k.below,
        All-at (λ x. x.0 < seed → x.0 ≤ v.0) w waves h.greatest k.listed k.below,
        All-at (λ x. x.0 < seed → x.0 ≤ w.0) v waves k.greatest h.listed h.below,
      ))

  IsEnd-unique :
      (waves : List (ℕ × Time)) (seed : ℕ) (v w : ℕ × Time)
      → IsAscending waves
      → IsEnd waves seed v
      → IsEnd waves seed w
      → v ≡ w
  IsEnd-unique waves seed v w up h k = entry_unique waves v w up h.listed k.listed (
      omega (
        arith,
        All-at (λ x. seed ≤ x.0 → v.0 ≤ x.0) w waves h.least k.listed k.from,
        All-at (λ x. seed ≤ x.0 → w.0 ≤ x.0) v waves k.least h.listed h.from,
      ))

  HasNoStart-IsStart :
      (waves : List (ℕ × Time)) (seed : ℕ) (w : ℕ × Time)
      → HasNoStart waves seed
      → IsStart waves seed w
      → ⊥
  HasNoStart-IsStart waves seed w h k =
      let above = All-at (λ x. seed ≤ x.0) w waves h k.listed in let below = k.below in omega arith

  HasNoEnd-IsEnd :
      (waves : List (ℕ × Time)) (seed : ℕ) (w : ℕ × Time)
      → HasNoEnd waves seed
      → IsEnd waves seed w
      → ⊥
  HasNoEnd-IsEnd waves seed w h k =
      let above = All-at (λ x. seed ≤ x.0 → max_seed < x.0) w waves h k.listed k.from in
      let within = k.within in omega arith

module _ (c : Chrono) where
  open c use {Time, order, add, sub, div, mul}

  -- The cases in which a host may update: it has no wave that starts below its seed; or the wave
  -- around it has no end and has started; or that wave has an end, which has come, or it has started and
  -- the time has come that is counted from its start.
  abbrev pub IsReady : List (ℕ × Time) → ℕ → Time → Type 0
  IsReady waves seed time =
      HasNoStart waves seed
      ⊎ (((j : ℕ) × (s : Time) × IsStart waves seed (j, s)
            × HasNoEnd waves seed
            × (order.lt time s ≡ false))
          ⊎ ((j : ℕ) × (s : Time) × (k : ℕ) × (e : Time) × IsStart waves seed (j, s)
              × IsEnd waves seed (k, e)
              × ((order.lt time e ≡ false)
                  ⊎ ((order.lt time s ≡ false)
                      × (order.lt time (add s (mul (div (sub e s) (k - j)) seed)) ≡ false)))))

  last_ready :
      (s : Time) (j seed : ℕ) (time : Time)
      → (wave_ready c (some (last s j)) seed time ≡ true) ↔ (order.lt time s ≡ false)
  unfolding wave_ready
  last_ready s j seed time = (λ h. ground arith, λ h. ground arith)

  abbrev IsReadyWithin : Time → Time → ℕ → ℕ → ℕ → Time → Type 0
  IsReadyWithin s e j k seed time =
      (order.lt time e ≡ false)
      ⊎ ((order.lt time s ≡ false)
          × (order.lt time (add s (mul (div (sub e s) (k - j)) seed)) ≡ false))

  general_ready :
      (s e : Time) (j k seed : ℕ) (time : Time)
      → j < k
      → (wave_ready c (some (general s e j k)) seed time ≡ true) ↔ IsReadyWithin s e j k seed time
  unfolding wave_ready target_time
  general_ready s e j k seed time h = (λ r. ground arith, λ r. ground arith)

  wave_ready-IsReady :
      (waves : List (ℕ × Time)) (seed : ℕ) (time : Time) (wave : Option (Wave Time))
      → IsAscending waves
      → Surrounds waves seed wave
      → (wave_ready c wave seed time ≡ true) ↔ IsReady waves seed time
  unfolding wave_ready
  wave_ready-IsReady waves seed time none up (no_start, _) = (λ _. inl no_start, λ _. refl)
  wave_ready-IsReady waves seed time (some (initial e k)) up (no_start, _) =
      (λ _. inl no_start, λ _. ground arith)
  wave_ready-IsReady waves seed time (some (last s j)) up (start, no_end) = (
    λ r. inr (inl (j, s, start, no_end, (last_ready s j seed time).0 r)),
    λ r. elim r [
      | inl no_start ↦ absurd (HasNoStart-IsStart waves seed (j, s) no_start start)
      | inr (inl (i, t, other, _, begun)) ↦
          let same = IsStart-unique waves seed (i, t) (j, s) up other start in
          (last_ready s j seed time).1
            (subst (λ x. order.lt time x ≡ false) (ap (λ x. x.1) same) begun)
      | inr (inr (_, _, k, e, _, end, _)) ↦ absurd (HasNoEnd-IsEnd waves seed (k, e) no_end end)
    ],
  )
  wave_ready-IsReady waves seed time (some (general s e j k)) up (start, end) =
      let wide : j < k = omega (arith, start.below, end.from) in
      (
        λ r. inr (inr (j, s, k, e, start, end, (general_ready s e j k seed time wide).0 r)),
        λ r. elim r [
          | inl no_start ↦ absurd (HasNoStart-IsStart waves seed (j, s) no_start start)
          | inr (inl (_, _, _, no_end, _)) ↦ absurd (HasNoEnd-IsEnd waves seed (k, e) no_end end)
          | inr (inr (i, t, l, f, first, final, within)) ↦
              let same = IsStart-unique waves seed (i, t) (j, s) up first start in
              let same_end = IsEnd-unique waves seed (l, f) (k, e) up final end in
              (general_ready s e j k seed time wide).1 (
                subst (λ (x : ℕ × Time). IsReadyWithin x.1 e x.0 k seed time) same
                  (subst (λ (x : ℕ × Time). IsReadyWithin t x.1 i x.0 seed time) same_end within))
        ],
      )

  -- For a map of waves and a seed of at most MAX_SEED the test returns, and a host may update exactly in
  -- these cases: no wave starts below its seed, where it may at every time, so also where its seed is
  -- the first of the first wave; or the last wave below its seed has no wave after it and has started;
  -- or the wave after it, which is the first from the seed on, has started; or its own wave has started
  -- and the target time has come. The target time adds to the start of the wave as many times the
  -- duration per seed as the seed says, counted from seed 0.
  pub update_ready_iff :
      (waves : List (ℕ × Time)) (seed : ℕ) (time : Time)
      → IsAscending waves
      → seed ≤ max_seed
      → (ready : Bool) × (update_ready c waves seed time ≡ returns ready)
        × ((ready ≡ true) ↔ IsReady waves seed time)
  unfolding update_ready
  update_ready_iff waves seed time up in_range =
      let (wave, found, around) = update_wave-Surrounds waves seed up in_range in
      (
        wave_ready c wave seed time,
        rw found refl,
        wave_ready-IsReady waves seed time wave up around,
      )
