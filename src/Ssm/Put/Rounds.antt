-- ===== src/Ssm/Put/Rounds.antt =====
-- tools/pubsys/src/aws/ssm/ssm.rs: what each round of `set_parameters` keeps holds when it ends.
use twoliter.Prelude.{
  ◌≡◌, subst, true, Option, some, ℕ, suc, zero, Bool-cases, inl, inr, ◌⊎◌, is_empty, ltb,
}
use twoliter.Ssm.Put.{
  PutService, Progress, SetResult, throttled, max_interval, drained, next_interval, send,
  set_rounds, finished,
}

ended :
    {S : Type 0} (x y : SetResult) (s t : S)
    → ◌≡◌ {A = Option (SetResult × S)} (some (x, s)) (some (y, t))
    → (y ≡ x) × (s ≡ t)
ended x y s t e = (cc, cc)

module _ {S : Type 0} (service : PutService S) where
  abbrev pub after_round : Progress → S → S × Progress
  after_round p s = send service (service.order s p.contexts) (drained p) s

  module _ (Holds : Progress → S → Type 0)
      (keeps : (p : Progress) (s : S)
        → Holds p s
        → Holds (after_round p s).1 (after_round p s).0) where
    -- Setting ends when nothing is pending, or it is given up.
    abbrev pub Ends : ℕ → SetResult → Progress → Type 0
    Ends total_count r q =
        ((is_empty q.contexts ≡ true) × (r ≡ finished total_count q)) ⊎ (r ≡ throttled max_interval)

    pub set_rounds-Holds :
        (fuel total_count interval : ℕ) (p : Progress) (s : S) (r : SetResult) (s' : S)
        → Holds p s
        → set_rounds service fuel total_count interval p s ≡ some (r, s')
        → (q : Progress) × Holds q s' × Ends total_count r q
    unfolding set_rounds
    set_rounds-Holds zero total_count interval p s r s' h e = cc
    set_rounds-Holds (suc fuel) total_count interval p s r s' h e =
        elim (Bool-cases (is_empty p.contexts)) [
          | inl none_left ↦
              let (result, same) =
                ended (finished total_count p) r s s' (rw (none_left, set_rounds) at e) in
              (p, subst (Holds p) same h, inl (none_left, result))
          | inr some_left ↦ elim (Bool-cases (ltb max_interval (next_interval interval p))) [
            | inl slow ↦
                let (result, same) =
                  ended (throttled max_interval) r s s' (rw (some_left, slow, set_rounds) at e) in
                (p, subst (Holds p) same h, inr result)
            | inr fast ↦
                let sent = after_round p s in
                set_rounds-Holds fuel total_count (next_interval interval p) sent.1 sent.0 r s'
                  (keeps p s h) (rw (some_left, fast, set_rounds) at e)
          ]
        ]
