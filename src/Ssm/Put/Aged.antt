-- ===== src/Ssm/Put/Aged.antt =====
-- tools/pubsys/src/aws/ssm/ssm.rs: `set_parameters` ends, since in each round a request is given up, all
-- that are left fail once more, or the interval grows.
use twoliter.Prelude.{
  ◌≡◌, refl, true, false, some, List, [], ◌∷◌, ℕ, suc, zero, ◌+◌, ◌-◌, ◌*◌, ◌≤◌, ◌<◌, arith,
  Bool-cases, inl, inr, ◌⊎◌, All, All-append, All-of, All-at, contains, text, length, is_empty, ltb,
  leb, if◌then◌else◌,
}
use twoliter.Ssm.{SsmParameters}
use twoliter.Ssm.Put.{
  RequestContext, Response, accepted, refused, PutService, Arranges, Progress, SetResult,
  max_interval, error_type_of, handle, contexts_of, drained, next_interval, send, set_rounds,
  started, set_parameters,
}

-- A request that has failed at least `n` times, and is not given up.
abbrev pub Aged : ℕ → RequestContext → Type 0
Aged n c = (n ≤ c.failures) × (c.failures ≤ 4)

-- Every pending request has failed `n` times, and once more if no request was throttled.
abbrev pub IsAged : ℕ → Progress → Type 0
IsAged n p = All (Aged n) p.contexts × ((p.should_increase ≡ true) ⊎ All (Aged (suc n)) p.contexts)

-- How often an interval can be doubled within the largest one.
abbrev pub Doublings : ℕ → ℕ → Type 0
Doublings zero interval = max_interval < interval * 2
Doublings (suc d) interval = Doublings d (interval * 2)

handle-IsAged :
    (n : ℕ) (c : RequestContext) (response : Response) (p : Progress)
    → Aged n c
    → IsAged n p
    → IsAged n (handle c response p)
unfolding handle
handle-IsAged n c accepted p a h = h
handle-IsAged n c (refused code) p (low, high) (old, flag) =
    elim (Bool-cases (contains (error_type_of code) (text "ThrottlingException"))) [
      | inl throttle ↦
          rw throttle (All-append (Aged n) p.contexts (c ∷ []) old ((low, high), tt), inl refl)
      | inr other ↦ elim (Bool-cases (leb 4 c.failures)) [
        | inl last ↦ rw (other, last) (old, flag)
        | inr again ↦
            let c' : RequestContext = record {
              key = c.key;
              value = c.value;
              failures = suc c.failures;
            } in
            let young : Aged n c' = (omega arith, ground arith) in
            let older : Aged (suc n) c' = (omega arith, ground arith) in
            rw (other, again)
              (
                All-append (Aged n) p.contexts (c' ∷ []) old (young, tt),
                elim flag [
                  | inl increase ↦ inl increase
                  | inr all ↦ inr (All-append (Aged (suc n)) p.contexts (c' ∷ []) all (older, tt))
                ],
              )
      ]
    ]

module _ {S : Type 0} (service : PutService S) where
  send-IsAged :
      (n : ℕ) (cs : List RequestContext) (p : Progress) (s : S)
      → All (Aged n) cs
      → IsAged n p
      → IsAged n (send service cs p s).1
  unfolding send
  send-IsAged n [] p s a h = h
  send-IsAged n (c ∷ cs) p s (a, all) h =
      let response = (service.put c.key c.value s).1 in
      send-IsAged n cs (handle c response p) (service.put c.key c.value s).0 all
        (handle-IsAged n c response p a h)

  -- A round sends requests, so one of them has been refused at most four times.
  young : (n : ℕ) (cs : List RequestContext) → is_empty cs ≡ false → All (Aged n) cs → n ≤ 4
  young n [] e h = cc
  young n (c ∷ cs) e ((low, high), h) = omega arith

  -- The allowance of doublings that a round uses up when the round before it was throttled.
  after_interval :
      (d interval : ℕ) (p : Progress)
      → Doublings d interval
      → next_interval interval p ≤ max_interval
      → (d' : ℕ) × Doublings d' (next_interval interval p)
        × (d' + (if p.should_increase then 1 else 0) ≤ d)
  after_interval d interval p m le = elim (Bool-cases p.should_increase) [
    | inl grows ↦ rw grows (of_allowance d m (rw grows at le))
    | inr same ↦ rw same (d, m, omega arith)
  ]
    where
      of_allowance :
          (d : ℕ)
          → Doublings d interval
          → interval * 2 ≤ max_interval
          → (d' : ℕ) × Doublings d' (interval * 2) × (d' + 1 ≤ d)
      of_allowance zero m le = ground arith
      of_allowance (suc d) m le = (d, m, omega arith)

  module _ (order_elem : Arranges service) where
    rounds_end :
        (fuel total_count n d interval : ℕ) (p : Progress) (s : S)
        → All (Aged n) p.contexts
        → Doublings d interval
        → (5 - n) + d + (if p.should_increase then 1 else 2) ≤ fuel
        → (r : SetResult × S) × (set_rounds service fuel total_count interval p s ≡ some r)
    unfolding set_rounds
    rounds_end zero total_count n d interval p s a m fuel_le = ground arith
    rounds_end (suc fuel) total_count n d interval p s a m fuel_le =
        elim (Bool-cases (is_empty p.contexts)) [
          | inl none_left ↦ rw (none_left, set_rounds) (_, refl)
          | inr some_left ↦ elim (Bool-cases (ltb max_interval (next_interval interval p))) [
            | inl slow ↦ rw (some_left, slow, set_rounds) (_, refl)
            | inr fast ↦
                let (d', m', d'_le) = after_interval d interval p m (ground arith) in
                let n_le = young n p.contexts some_left a in
                let cs = service.order s p.contexts in
                let sent = send service cs (drained p) s in
                let aged : All (Aged n) cs =
                  All-of (Aged n) cs
                    λ c c_in. All-at (Aged n) c p.contexts a ((order_elem s c p.contexts).0 c_in) in
                let (old, flag) = send-IsAged n cs (drained p) s aged (tt, inr tt) in
                rw (some_left, fast, set_rounds)
                  (elim flag [
                    | inl increase ↦
                        rounds_end fuel total_count n d' (next_interval interval p) sent.1 sent.0
                          old m' (ground arith)
                    | inr older ↦
                        rounds_end fuel total_count (suc n) d' (next_interval interval p) sent.1
                          sent.0 older m' (ground arith)
                  ])
          ]
        ]

    contexts_of-Aged : (parameters : SsmParameters) → All (Aged 0) (contexts_of parameters)
    contexts_of-Aged [] = tt
    contexts_of-Aged ((k, v) ∷ parameters) =
        ((omega arith, omega arith), contexts_of-Aged parameters)

    -- Whatever the service answers and in whatever order, setting parameters ends within eleven rounds.
    pub set_parameters_end :
        (fuel : ℕ) (parameters : SsmParameters) (s : S)
        → 11 ≤ fuel
        → (r : SetResult × S) × (set_parameters service fuel parameters s ≡ some r)
    unfolding set_parameters
    set_parameters_end fuel parameters s fuel_le =
        rounds_end fuel (length (contexts_of parameters)) 0 4 100 (started service parameters) s
          (contexts_of-Aged parameters) (ground arith) fuel_le
