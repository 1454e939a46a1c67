-- ===== src/Ssm/Put/Live.antt =====
-- tools/pubsys/src/aws/ssm/ssm.rs: what is live after `set_parameters`.
use twoliter.Ssm.Put.Retries.{
  updated, empty-Elem, Pends, Asks, handle-Retries, Stands, Retries-Stands, Retries-own,
  Retries-Asks,
}
use twoliter.Prelude.{
  ◌≡◌, refl, subst, ap, ◌∙◌, true, false, none, some, List, [], ◌∷◌, ℕ, arith, Bool-cases,
  Option-cases, inl, inr, ◌⊎◌, All, All-of, All-at, Text, is_empty, length,
}
use twoliter.Prelude.Classes.{◌==◌, eqb_refl, nat_eq, list_eq}
use twoliter.Prelude.Maps.{IsMap, lookup}
use twoliter.Ssm.{SsmKey, ssm_key_eq, SsmParameters}
use twoliter.Ssm.Put.Rounds.{after_round, Ends, set_rounds-Holds}
use twoliter.Ssm.Put.{
  RequestContext, Response, accepted, refused, PutService, PutLaws, Arranges, Progress, SetResult,
  all_set, max_interval, handle, contexts_of, drained, send, started, set_parameters, finished,
  throttled, not_set,
}

module _ {S : Type 0} (service : PutService S) (laws : PutLaws service)
    (parameters : SsmParameters) where
  handle-Asks :
      (c : RequestContext) (response : Response) (p : Progress)
      → Asks parameters c
      → All (Asks parameters) p.contexts
      → All (Asks parameters) (handle c response p).contexts
  unfolding handle
  handle-Asks c accepted p a h = h
  handle-Asks c (refused code) p a h =
      Retries-Asks parameters c p (handle c (refused code) p) (handle-Retries c code p) a h

  send-Asks :
      (cs : List RequestContext) (p : Progress) (s : S)
      → All (Asks parameters) cs
      → All (Asks parameters) p.contexts
      → All (Asks parameters) (send service cs p s).1.contexts
  unfolding send
  send-Asks [] p s a h = h
  send-Asks (c ∷ cs) p s (a, rest) h =
      let response = (service.put c.key c.value s).1 in
      send-Asks cs (handle c response p) (service.put c.key c.value s).0 rest
        (handle-Asks c response p a h)

  -- A parameter that is not to be set stays as it is.
  send-other :
      (k : SsmKey) (cs : List RequestContext) (p : Progress) (s : S)
      → lookup k parameters ≡ none
      → All (Asks parameters) cs
      → laws.live (send service cs p s).0 k ≡ laws.live s k
  unfolding send
  send-other k [] p s h a = refl
  send-other k (c ∷ cs) p s h (a, rest) =
      let (s', response) = service.put c.key c.value s in
      let apart : (c.key == k) ≡ false = ground (arith, ssm_key_eq.eqb_iff c.key k) in
      send-other k cs (handle c response p) s' h rest ∙ laws.put_keeps c.key k c.value s apart

  -- Where a parameter that is to be set stands while requests are sent.
  abbrev pub Settles : SsmKey → Text → List RequestContext → Progress → S → Type 0
  Settles k v cs p s = Pends k v cs ⊎ Stands k v p ⊎ (laws.live s k ≡ some v)

  handle-Stands :
      (k : SsmKey) (v : Text) (c : RequestContext) (response : Response) (p : Progress)
      → Stands k v p
      → Stands k v (handle c response p)
  unfolding handle
  handle-Stands k v c accepted p h = h
  handle-Stands k v c (refused code) p h =
      Retries-Stands k v c p (handle c (refused code) p) (handle-Retries c code p) h

  put-own :
      (k : SsmKey) (v : Text) (c : RequestContext) (cs : List RequestContext) (p : Progress) (s : S)
      → c.key ≡ k
      → c.value ≡ v
      → (response : Response) → (service.put c.key c.value s).1 ≡ response
      → Settles k v cs (handle c response p) (service.put c.key c.value s).0
  put-own k v c cs p s ek ev accepted e = inr (
      inr (
        subst (λ x. laws.live (service.put c.key c.value s).0 x ≡ some v) ek
          (laws.put_sets c.key c.value s e ∙ ap some ev)))
  put-own k v c cs p s ek ev (refused code) e =
      inr (inl (Retries-own k v c p (handle c (refused code) p) (handle-Retries c code p) ek ev))

  put-other :
      (k : SsmKey) (v : Text) (c : RequestContext) (cs : List RequestContext) (p : Progress) (s : S)
      → (c.key == k) ≡ false
      → Settles k v (c ∷ cs) p s
      → Settles k v cs (handle c (service.put c.key c.value s).1 p) (service.put c.key c.value s).0
  put-other k v c cs p s apart (inl (d, inl e, dk, dv)) =
      let same : (c.key == k) ≡ true =
        (ssm_key_eq.eqb_iff c.key k).1 (subst (λ x. x.key ≡ k) e dk) in
      cc
  put-other k v c cs p s apart (inl (d, inr d_in, dk, dv)) = inl (d, d_in, dk, dv)
  put-other k v c cs p s apart (inr (inl h)) =
      inr (inl (handle-Stands k v c (service.put c.key c.value s).1 p h))
  put-other k v c cs p s apart (inr (inr h)) =
      inr (inr (laws.put_keeps c.key k c.value s apart ∙ h))

  send-Settles :
      (k : SsmKey) (v : Text) (cs : List RequestContext) (p : Progress) (s : S)
      → lookup k parameters ≡ some v
      → All (Asks parameters) cs
      → Settles k v cs p s
      → Settles k v [] (send service cs p s).1 (send service cs p s).0
  unfolding send
  send-Settles k v [] p s wanted a h = h
  send-Settles k v (c ∷ cs) p s wanted (asks, rest) h =
      let (s', response) = service.put c.key c.value s in
      send-Settles k v cs (handle c response p) s' wanted rest (elim (Bool-cases (c.key == k)) [
        | inl same ↦
            let ek : c.key ≡ k = (ssm_key_eq.eqb_iff c.key k).0 same in
            let ev : c.value ≡ v = cc in put-own k v c cs p s ek ev response refl
        | inr apart ↦ put-other k v c cs p s apart h
      ])

  -- A parameter that is to be set, between the rounds.
  abbrev pub IsSettled : SsmKey → Text → Progress → S → Type 0
  IsSettled k v p s = Stands k v p ⊎ (laws.live s k ≡ some v)

  round-IsSettled :
      (arranges : Arranges service) (k : SsmKey) (v : Text) (p : Progress) (s : S)
      → lookup k parameters ≡ some v
      → All (Asks parameters) p.contexts
      → IsSettled k v p s
      → let r = send service (service.order s p.contexts) (drained p) s in IsSettled k v r.1 r.0
  round-IsSettled arranges k v p s wanted a h =
      let cs = service.order s p.contexts in
      let asks : All (Asks parameters) cs =
        All-of (Asks parameters) cs
          λ c c_in. All-at (Asks parameters) c p.contexts a ((arranges s c p.contexts).0 c_in) in
      let start : Settles k v cs (drained p) s = elim h [
        | inl (inl (c, c_in, ck, cv)) ↦ inl (c, (arranges s c p.contexts).1 c_in, ck, cv)
        | inl (inr failed) ↦ inr (inl (inr failed))
        | inr live ↦ inr (inr live)
      ] in
      elim (send-Settles k v cs (drained p) s wanted asks start) [
        | inl (c, c_in, ck, cv) ↦ elim c_in [ ]
        | inr rest ↦ rest
      ]

  -- What the rounds keep, from the state `before` them.
  abbrev pub Keeps : S → Progress → S → Type 0
  Keeps before p s =
      All (Asks parameters) p.contexts
      × ((k : SsmKey) (v : Text) → lookup k parameters ≡ some v → IsSettled k v p s)
      × ((k : SsmKey) → lookup k parameters ≡ none → laws.live s k ≡ laws.live before k)

  round-Keeps :
      (arranges : Arranges service) (before : S) (p : Progress) (s : S)
      → Keeps before p s
      → Keeps before (after_round service p s).1 (after_round service p s).0
  round-Keeps arranges before p s (asks, settled, other) =
      let cs = service.order s p.contexts in
      let arranged : All (Asks parameters) cs =
        All-of (Asks parameters) cs
          λ c c_in. All-at (Asks parameters) c p.contexts asks ((arranges s c p.contexts).0 c_in) in
      (
        send-Asks cs (drained p) s arranged tt,
        λ k v wanted. round-IsSettled arranges k v p s wanted asks (settled k v wanted),
        λ k h. send-other k cs (drained p) s h arranged ∙ other k h,
      )

contexts_of-Pends :
    (k : SsmKey) (v : Text) (parameters : SsmParameters)
    → lookup k parameters ≡ some v
    → Pends k v (contexts_of parameters)
unfolding lookup
contexts_of-Pends k v [] h = cc
contexts_of-Pends k v ((j, w) ∷ parameters) h = elim (Bool-cases (j == k)) [
  | inl same ↦
      let e : some w ≡ some v = rw same at h in (_, inl refl, (ssm_key_eq.eqb_iff j k).0 same, cc)
  | inr apart ↦
      let (c, c_in, ck, cv) = contexts_of-Pends k v parameters (rw apart at h) in
      (c, inr c_in, ck, cv)
]

contexts_of-Asks :
    (parameters : SsmParameters) → IsMap parameters → All (Asks parameters) (contexts_of parameters)
unfolding lookup
contexts_of-Asks [] h = tt
contexts_of-Asks ((j, w) ∷ parameters) (fresh, h) =
    let all = contexts_of-Asks parameters h in
    (
      rw (eqb_refl j) refl,
      All-of (Asks ((j, w) ∷ parameters)) (contexts_of parameters) λ c c_in.
          let asks = All-at (Asks parameters) c (contexts_of parameters) all c_in in
          ground (arith, ssm_key_eq.eqb_iff j c.key),
    )

module _ {S : Type 0} (service : PutService S) (laws : PutLaws service)
    (arranges : Arranges service) where
  set_parameters-Keeps :
      (fuel : ℕ) (parameters : SsmParameters) (s s' : S) (r : SetResult)
      → IsMap parameters
      → set_parameters service fuel parameters s ≡ some (r, s')
      → (q : Progress) × Keeps service laws parameters s q s'
        × Ends service
            (Keeps service laws parameters s)
            (round-Keeps service laws parameters arranges s)
            (length (contexts_of parameters))
            r
            q
  unfolding set_parameters
  set_parameters-Keeps fuel parameters s s' r m e =
      set_rounds-Holds service (Keeps service laws parameters s)
        (round-Keeps service laws parameters arranges s) fuel (length (contexts_of parameters)) 100
        (started service parameters) s r s'
        (
          contexts_of-Asks parameters m,
          λ k v wanted. inl (inl (contexts_of-Pends k v parameters wanted)),
          λ k h. refl,
        )
        e

  -- Whatever the result, the parameters that are not given stay as they are.
  pub set_parameters_other :
      (fuel : ℕ) (parameters : SsmParameters) (s s' : S) (r : SetResult) (k : SsmKey)
      → IsMap parameters
      → set_parameters service fuel parameters s ≡ some (r, s')
      → lookup k parameters ≡ none
      → laws.live s' k ≡ laws.live s k
  set_parameters_other fuel parameters s s' r k m e h =
      let (q, (asks, settled, other), ends) = set_parameters-Keeps fuel parameters s s' r m e in
      other k h

  -- When setting ends without an error, all parameters are updated.
  pub set_parameters_ok :
      (fuel : ℕ) (parameters : SsmParameters) (s s' : S) (k : SsmKey)
      → IsMap parameters
      → set_parameters service fuel parameters s ≡ some (all_set, s')
      → laws.live s' k ≡ updated (laws.live s) parameters k
  set_parameters_ok fuel parameters s s' k m e =
      let (q, (asks, settled, other), ends) =
        set_parameters-Keeps fuel parameters s s' all_set m e in
      elim (Option-cases (lookup k parameters)) [
        | inl h ↦ rw (h, updated) (other k h)
        | inr (v, h) ↦ rw (h, updated) (of_ends q ends v (settled k v h))
      ]
    where
      of_ends :
          (q : Progress)
          → ((is_empty q.contexts ≡ true)
              × (all_set ≡ finished (length (contexts_of parameters)) q))
            ⊎ (all_set ≡ throttled max_interval)
          → (v : Text) → IsSettled service laws parameters k v q s'
          → laws.live s' k ≡ some v
      of_ends q (inr e) v h = cc
      of_ends q (inl (none_left, e)) v (inr h) = h
      of_ends q (inl (none_left, e)) v (inl (inr failed)) =
          let e' : all_set ≡ not_set (length q.failed) (length (contexts_of parameters)) =
            rw failed at e in
          cc
      of_ends q (inl (none_left, e)) v (inl (inl (c, c_in, ck, cv))) =
          elim (empty-Elem c q.contexts none_left c_in) [ ]
