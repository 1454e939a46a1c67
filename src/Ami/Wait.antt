-- ===== src/Ami/Wait.antt =====
-- `wait_for_ami` of tools/pubsys/src/aws/ami/wait.rs. An image's state is its name, which is what two
-- states are compared by. The counters are bytes, and the rounds are counted apart from them.
pub mod Rounds
use twoliter.Prelude.{
  ◌≡◌, refl, sym, subst, ap, ◌∙◌, Bool, true, false, Option, none, some, List, [], ◌∷◌, ◌&&◌, ◌||◌,
  not, ℕ, suc, zero, ◌+◌, ◌-◌, ◌%◌, ◌≤◌, ◌<◌, arith, Bool-cases, Option-cases, inl, inr, ◌⊎◌, Text,
  text, leb, if◌then◌else◌,
}
use twoliter.Prelude.Classes.{◌==◌, nat_eq, list_eq}
use twoliter.Prelude.Results.{Result, ok, err}

pub record FoundImage : Type 0 where
  pub image_id : Option Text
  pub state : Option Text

pub data Scan : Type 0 where
  saw_it : Scan
  in_state : Text → Scan
  not_seen : Scan

pub data WaitError : Type 0 where
  max_attempts_reached : WaitError
  describe_images : WaitError
  bad_state : Text → WaitError

abbrev pub max_attempts : ℕ
max_attempts = 90

-- Arithmetic on bytes, which wraps as in a release build.
abbrev pub next_byte : ℕ → ℕ
next_byte n = (n + 1) % 256

abbrev pub minus_byte : ℕ → ℕ → ℕ
minus_byte a b = (a + (256 - b)) % 256

abbrev pub is_failure : Text → Bool
is_failure s =
    s == text "invalid" || s == text "deregistered" || s == text "failed" || s == text "error"

-- The images of a reply, until one of them decides.
unfoldable pub scan : Text → Text → List FoundImage → Scan
scan id state [] = not_seen
scan id state (image ∷ images) =
    let rest = scan id state images in
    elim image.image_id [
      | none ↦ rest
      | some found_id ↦ elim image.state [
        | none ↦ rest
        | some found_state ↦
            if id == found_id && state == found_state
            then saw_it
            else if is_failure found_state
            then in_state found_state
            else rest
      ]
    ]

-- The reply in each round, which is not in the sources: none if the request fails, and the list of
-- images, if there is one.
abbrev pub Replies : Type 0
Replies = ℕ → Option (Option (List FoundImage))

module _ (replies : Replies) (id state : Text) where
  -- What a round sees.
  unfoldable pub look : ℕ → Result WaitError Bool
  unfolding scan
  look round = elim (replies round) [
    | none ↦ err describe_images
    | some none ↦ ok false
    | some (some images) ↦ elim (scan id state images) [
      | saw_it ↦ ok true
      | in_state s ↦ err (bad_state s)
      | not_seen ↦ ok false
    ]
  ]

module _ (replies : Replies) (id state : Text) (successes_required : ℕ) where
  unfoldable pub wait_rounds : ℕ → ℕ → ℕ → ℕ → Option (Result WaitError Unit)
  unfolding look
  wait_rounds zero round attempts successes = none
  wait_rounds (suc fuel) round attempts successes =
      elim (leb (minus_byte (next_byte attempts) successes) max_attempts) [
        | false ↦ some (err max_attempts_reached)
        | true ↦ elim (look replies id state round) [
          | err e ↦ some (err e)
          | ok false ↦ wait_rounds fuel (suc round) (next_byte attempts) 0
          | ok true ↦ elim (leb successes_required (next_byte successes)) [
            | true ↦ some (ok tt)
            | false ↦ wait_rounds fuel (suc round) (next_byte attempts) (next_byte successes)
          ]
        ]
      ]

  unfoldable pub wait_for_ami : ℕ → Option (Result WaitError Unit)
  unfolding wait_rounds
  wait_for_ami fuel = wait_rounds fuel 0 0 0
