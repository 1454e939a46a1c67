-- ===== src/Ami/Wait/Rounds.antt =====
-- tools/pubsys/src/aws/ami/wait.rs: how long `wait_for_ami` waits, and what it has seen then.
use twoliter.Prelude.{
  ◌≡◌, refl, Bool, true, false, Option, some, ℕ, suc, zero, ◌+◌, ◌≤◌, arith, Bool-cases, inl, inr,
  Text, leb,
}
use twoliter.Prelude.Results.{Result, ok, err}
use twoliter.Ami.Wait.{
  WaitError, max_attempts, next_byte, minus_byte, Replies, look, wait_rounds, wait_for_ami,
}

module _ (replies : Replies) (id state : Text) (successes_required : ℕ) where
  -- The image was in the state in each of so many rounds before the given one.
  abbrev pub Streak : ℕ → ℕ → Type 0
  Streak zero round = Unit
  Streak (suc k) zero = ⊥
  Streak (suc k) (suc round) = (look replies id state round ≡ ok true) × Streak k round

  Streak-le : (k j round : ℕ) → j ≤ k → Streak k round → Streak j round
  Streak-le k zero round le h = tt
  Streak-le zero (suc j) round le h = ground arith
  Streak-le (suc k) (suc j) zero le h = h
  Streak-le (suc k) (suc j) (suc round) le (seen, h) =
      (seen, Streak-le k j round (omega (arith, le)) h)

  -- A round before which the image was seen as often in a row as required.
  abbrev pub IsSeen : Type 0
  IsSeen = (round : ℕ) × Streak successes_required round

  rounds_seen :
      (fuel round attempts successes : ℕ)
      → Streak successes round
      → wait_rounds replies id state successes_required fuel round attempts successes ≡ some (ok tt)
      → IsSeen
  unfolding wait_rounds
  rounds_seen zero round attempts successes streak e = cc
  rounds_seen (suc fuel) round attempts successes streak e =
      elim (Bool-cases (leb (minus_byte (next_byte attempts) successes) max_attempts)) [
        | inr late ↦
            let e' : some (err WaitError.max_attempts_reached) ≡ some (ok tt) =
              rw (late, wait_rounds) at e in
            cc
        | inl early ↦
            of_look (look replies id state round) refl (rw (early, wait_rounds) at e)
              (λ e'. rounds_seen fuel (suc round) (next_byte attempts) 0 tt e')
              (λ seen e'.
                rounds_seen fuel (suc round) (next_byte attempts) (next_byte successes)
                  (longer seen) e')
      ]
    where
      longer : look replies id state round ≡ ok true → Streak (next_byte successes) (suc round)
      longer seen =
          Streak-le (suc successes) (next_byte successes) (suc round) (omega arith) (seen, streak)

      rest : Result WaitError Bool → Option (Result WaitError Unit)
      rest (err e) = some (err e)
      rest (ok false) =
          wait_rounds replies id state successes_required fuel (suc round) (next_byte attempts) 0
      rest (ok true) = elim (leb successes_required (next_byte successes)) [
        | true ↦ some (ok tt)
        | false ↦
            wait_rounds replies id state successes_required fuel (suc round) (next_byte attempts)
              (next_byte successes)
      ]

      of_look :
          (r : Result WaitError Bool)
          → look replies id state round ≡ r
          → rest (look replies id state round) ≡ some (ok tt)
          → (wait_rounds replies id state successes_required fuel (suc round) (next_byte attempts) 0
                ≡ some (ok tt)
              → IsSeen)
          → (look replies id state round ≡ ok true
              → wait_rounds replies id state successes_required fuel
                  (suc round)
                  (next_byte attempts)
                  (next_byte successes)
                ≡ some (ok tt)
              → IsSeen)
          → IsSeen
      of_look (err x) f h missed seen =
          let h' : some (err x) ≡ some (ok tt) = rw (f, rest) at h in cc
      of_look (ok false) f h missed seen = missed (rw (f, rest) at h)
      of_look (ok true) f h missed seen =
          elim (Bool-cases (leb successes_required (next_byte successes))) [
            | inl enough ↦ (
              suc round,
              Streak-le (next_byte successes) successes_required (suc round) (ground arith)
                  (longer f),
            )
            | inr more ↦ seen f (rw (f, more, rest) at h)
          ]

  -- Waiting succeeds only after the image was in the state in as many rounds in a row as required.
  pub wait_for_ami_ok :
      (fuel : ℕ)
      → wait_for_ami replies id state successes_required fuel ≡ some (ok tt)
      → (round : ℕ) × Streak successes_required round
  unfolding wait_for_ami
  wait_for_ami_ok fuel e = rounds_seen fuel 0 0 0 tt e

  rounds_end :
      (fuel round attempts successes : ℕ)
      → successes_required ≤ 165
      → successes ≤ attempts
      → successes ≤ successes_required
      → successes ≤ 164
      → attempts ≤ 254
      → successes_required + 92 ≤ fuel + attempts
      → attempts ≤ 90 + successes_required
      → (r : Result WaitError Unit) × (wait_rounds replies id state successes_required fuel round
            attempts successes
          ≡ some r)
  unfolding wait_rounds
  rounds_end zero round attempts successes r a b c d f g = ground arith
  rounds_end (suc fuel) round attempts successes r a b c d f g =
      elim (Bool-cases (leb (minus_byte (next_byte attempts) successes) max_attempts)) [
        | inr late ↦ (err WaitError.max_attempts_reached, rw (late, wait_rounds) refl)
        | inl early ↦
            of_look (look replies id state round) refl early
              (rounds_end fuel (suc round) (next_byte attempts))
      ]
    where
      of_look :
          (x : Result WaitError Bool)
          → look replies id state round ≡ x
          → leb (minus_byte (next_byte attempts) successes) max_attempts ≡ true
          → ((s : ℕ)
              → successes_required ≤ 165
              → s ≤ next_byte attempts
              → s ≤ successes_required
              → s ≤ 164
              → next_byte attempts ≤ 254
              → successes_required + 92 ≤ fuel + next_byte attempts
              → next_byte attempts ≤ 90 + successes_required
              → (r : Result WaitError Unit) × (wait_rounds replies id state successes_required fuel
                    (suc round)
                    (next_byte attempts)
                    s
                  ≡ some r))
          → (r : Result WaitError Unit) × (wait_rounds replies id state successes_required
                (suc fuel)
                round
                attempts
                successes
              ≡ some r)
      of_look (err x) e early next = (err x, rw (early, e, wait_rounds) refl)
      of_look (ok false) e early next =
          let (y, h) =
            next 0 r (omega arith) (omega arith) (omega arith) (ground arith) (ground arith)
              (ground arith) in
          (y, rw (early, e, wait_rounds) h)
      of_look (ok true) e early next =
          elim (Bool-cases (leb successes_required (next_byte successes))) [
            | inl enough ↦ (ok tt, rw (early, e, enough, wait_rounds) refl)
            | inr more ↦
                let (y, h) =
                  next (next_byte successes) r (ground arith) (ground arith) (ground arith)
                    (ground arith) (ground arith) (ground arith) in
                (y, rw (early, e, more, wait_rounds) h)
          ]

  -- For at most 165 successes, so that the counters do not overflow, waiting ends within 92 rounds more
  -- than there are successes required, whatever is replied.
  pub wait_for_ami_end :
      (fuel : ℕ)
      → successes_required ≤ 165
      → successes_required + 92 ≤ fuel
      → (r : Result WaitError Unit) × (wait_for_ami replies id state successes_required fuel
          ≡ some r)
  unfolding wait_for_ami
  wait_for_ami_end fuel r enough =
      rounds_end fuel 0 0 0 r (omega arith) (omega arith) (omega arith) (omega arith)
        (omega (arith, enough)) (omega arith)
