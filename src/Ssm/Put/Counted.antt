-- ===== src/Ssm/Put/Counted.antt =====
-- tools/pubsys/src/aws/ssm/ssm.rs: the number of failures in the error of `set_parameters`.
use twoliter.Prelude.{
  ◌≡◌, refl, sym, subst, true, some, List, [], ◌∷◌, ℕ, arith, Bool-cases, inl, inr, All, All-append,
  All-of, All-at, Text, text, contains, leb, is_empty, if◌then◌else◌, length,
}
use twoliter.Prelude.Classes.{◌==◌, eqb_refl, nat_eq, list_eq}
use twoliter.Prelude.Maps.{Map, lookup, insert, entry_push}
use twoliter.Ssm.{Region, ssm_key_eq, SsmParameters}
use twoliter.Ssm.Put.Rounds.{after_round, set_rounds-Holds}
use twoliter.Ssm.Put.{
  RequestContext, Response, accepted, refused, PutService, Arranges, Progress, all_set, not_set,
  error_type_of, handle, contexts_of, drained, send, started, set_parameters,
}

-- The failures of one region stand under one key.
abbrev pub OneKey : Region → Map Region (List (Text × Text)) → Type 0
OneKey region [] = Unit
OneKey region ((j, failures) ∷ rest) = (j ≡ region) × (rest ≡ [])

entry_push-OneKey :
    (region : Region) (failure : Text × Text) (failed : Map Region (List (Text × Text)))
    → OneKey region failed
    → OneKey region (entry_push region failure failed)
unfolding entry_push lookup insert
entry_push-OneKey region failure [] h = (refl, refl)
entry_push-OneKey region failure ((j, failures) ∷ rest) (same, nothing) =
    let hit : (j == region) ≡ true = rw same (eqb_refl region) in
    rw nothing (rw (hit, entry_push) (rw hit (refl, refl)))

-- All requests, and all failures, are of one region.
abbrev pub IsRegional : Region → Progress → Type 0
IsRegional region p = All (λ c. c.key.region ≡ region) p.contexts × OneKey region p.failed

handle-IsRegional :
    (region : Region) (c : RequestContext) (response : Response) (p : Progress)
    → c.key.region ≡ region
    → IsRegional region p
    → IsRegional region (handle c response p)
unfolding handle
handle-IsRegional region c accepted p e h = h
handle-IsRegional region c (refused code) p e (all, one) =
    elim (Bool-cases (contains (error_type_of code) (text "ThrottlingException"))) [
      | inl throttle ↦ rw throttle (All-append In p.contexts (c ∷ []) all (e, tt), one)
      | inr other ↦ elim (Bool-cases (leb 4 c.failures)) [
        | inl last ↦
            rw (other, last)
              (
                all,
                subst (λ r. OneKey region (entry_push r (c.key.name, error_type_of code) p.failed))
                    (sym e)
                    (entry_push-OneKey region (c.key.name, error_type_of code) p.failed one),
              )
        | inr again ↦ rw (other, again) (All-append In p.contexts (_ ∷ []) all (e, tt), one)
      ]
    ]
  where
    In : RequestContext → Type 0
    In c = c.key.region ≡ region

module _ {S : Type 0} (service : PutService S) (region : Region) where
  send-IsRegional :
      (cs : List RequestContext) (p : Progress) (s : S)
      → All (λ c. c.key.region ≡ region) cs
      → IsRegional region p
      → IsRegional region (send service cs p s).1
  unfolding send
  send-IsRegional [] p s a h = h
  send-IsRegional (c ∷ cs) p s (a, rest) h =
      let (s', response) = service.put c.key c.value s in
      send-IsRegional cs (handle c response p) s' rest (handle-IsRegional region c response p a h)

  module _ (arranges : Arranges service) where
    round-IsRegional :
        (p : Progress) (s : S) → IsRegional region p → IsRegional region (after_round service p s).1
    round-IsRegional p s (all, one) =
        let cs = service.order s p.contexts in
        send-IsRegional cs (drained p) s
          (All-of (λ c. c.key.region ≡ region) cs
            λ c c_in.
              All-at (λ c. c.key.region ≡ region) c p.contexts all
                ((arranges s c p.contexts).0 c_in))
          (tt, one)

    contexts_of-region :
        (parameters : SsmParameters)
        → All (λ (k, v). k.region ≡ region) parameters
        → All (λ c. c.key.region ≡ region) (contexts_of parameters)
    contexts_of-region [] h = tt
    contexts_of-region ((k, v) ∷ parameters) (e, h) = (e, contexts_of-region parameters h)

    -- The number of failures reported counts regions: for parameters of one region it is one, however
    -- many of them failed.
    pub set_parameters-failures :
        (fuel : ℕ) (parameters : SsmParameters) (s s' : S) (failure_count total_count : ℕ)
        → All (λ (k, v). k.region ≡ region) parameters
        → set_parameters service fuel parameters s ≡ some (not_set failure_count total_count, s')
        → failure_count ≡ 1
    unfolding set_parameters
    set_parameters-failures fuel parameters s s' failure_count total_count h e =
        let (q, (all, one), ends) =
          set_rounds-Holds service (λ p s. IsRegional region p) round-IsRegional fuel
            (length (contexts_of parameters)) 100 (started service parameters) s
            (not_set failure_count total_count) s' (contexts_of-region parameters h, tt) e in
        of_ends q.failed one (elim ends [ inl (_, r) ↦ r | inr r ↦ cc ])
      where
        of_ends :
            (failed : Map Region (List (Text × Text)))
            → OneKey region failed
            → not_set failure_count total_count ≡ (
                if is_empty failed
                then all_set
                else not_set (length failed) (length (contexts_of parameters)))
            → failure_count ≡ 1
        of_ends [] one r = cc
        of_ends ((j, failures) ∷ rest) (same, nothing) r =
            let one : length rest ≡ 0 = rw nothing refl in ground arith
