-- ===== src/Ssm/Put/Retries.antt =====
-- tools/pubsys/src/aws/ssm/ssm.rs: what becomes of a request in `set_parameters` that is refused.
use twoliter.Prelude.{
  ◌≡◌, refl, sym, subst, ◌∙◌, true, false, Option, none, some, List, [], ◌∷◌, ◌++◌, arith,
  Bool-cases, inl, inr, ◌⊎◌, All, All-append, Elem, Elem-append_left, Elem-append_right, Text,
  contains, text, is_empty, leb,
}
use twoliter.Prelude.Classes.{nat_eq, list_eq}
use twoliter.Prelude.Maps.{Map, lookup, insert, entry_push}
use twoliter.Ssm.{SsmKey, ssm_key_eq, SsmParameters}
use twoliter.Ssm.Put.{RequestContext, refused, Progress, error_type_of, handle}

-- What the parameters are to be after they are set: the given values, and the others as before.
abbrev pub updated : (SsmKey → Option Text) → SsmParameters → SsmKey → Option Text
updated before parameters k = elim (lookup k parameters) [ none ↦ before k | some v ↦ some v ]

pub empty-Elem :
    (c : RequestContext) (cs : List RequestContext) → is_empty cs ≡ true → Elem c cs → ⊥
empty-Elem c [] e m = m
empty-Elem c (d ∷ cs) e m = cc

-- The request for a parameter among others.
abbrev pub Pends : SsmKey → Text → List RequestContext → Type 0
Pends k v cs = (c : RequestContext) × Elem c cs × (c.key ≡ k) × (c.value ≡ v)

-- The requests are for parameters that are to be set.
abbrev pub Asks : SsmParameters → RequestContext → Type 0
Asks parameters c = lookup c.key parameters ≡ some c.value

entry_push-nonempty :
    (region : Text) (failure : Text × Text) (failed : Map Text (List (Text × Text)))
    → is_empty (entry_push region failure failed) ≡ false
unfolding entry_push insert
entry_push-nonempty region failure [] = refl
entry_push-nonempty region failure ((j, w) ∷ failed) = ground arith

-- A refused request is sent again, or given up and recorded.
abbrev pub Retries : RequestContext → Progress → Progress → Type 0
Retries c p q =
    ((c' : RequestContext) × (c'.key ≡ c.key)
      × (c'.value ≡ c.value)
      × (q.contexts ≡ p.contexts ++ (c' ∷ []))
      × (q.failed ≡ p.failed))
    ⊎ ((q.contexts ≡ p.contexts) × (is_empty q.failed ≡ false))

pub handle-Retries :
    (c : RequestContext) (code : Option Text) (p : Progress)
    → Retries c p (handle c (refused code) p)
unfolding handle
handle-Retries c code p =
    elim (Bool-cases (contains (error_type_of code) (text "ThrottlingException"))) [
      | inl throttle ↦ rw throttle (inl (c, refl, refl, refl, refl))
      | inr other ↦ elim (Bool-cases (leb 4 c.failures)) [
        | inl last ↦
            rw (other, last)
              (inr
                (refl, entry_push-nonempty c.key.region (c.key.name, error_type_of code) p.failed))
        | inr again ↦ rw (other, again) (inl (_, refl, refl, refl, refl))
      ]
    ]

-- Where a parameter that is to be set stands: its request is pending, or was recorded as failed.
abbrev pub Stands : SsmKey → Text → Progress → Type 0
Stands k v p = Pends k v p.contexts ⊎ (is_empty p.failed ≡ false)

pub Retries-Stands :
    (k : SsmKey) (v : Text) (c : RequestContext) (p q : Progress)
    → Retries c p q
    → Stands k v p
    → Stands k v q
Retries-Stands k v c p q (inr (same, failed)) h = inr failed
Retries-Stands k v c p q (inl (c', ek, ev, more, same)) (inr failed) =
    inr (subst (λ x. is_empty x ≡ false) (sym same) failed)
Retries-Stands k v c p q (inl (c', ek, ev, more, same)) (inl (d, d_in, dk, dv)) =
    inl (d, subst (Elem d) (sym more) (Elem-append_left d p.contexts (c' ∷ []) d_in), dk, dv)

pub Retries-own :
    (k : SsmKey) (v : Text) (c : RequestContext) (p q : Progress)
    → Retries c p q
    → c.key ≡ k
    → c.value ≡ v
    → Stands k v q
Retries-own k v c p q (inr (same, failed)) hk hv = inr failed
Retries-own k v c p q (inl (c', ek, ev, more, same)) hk hv = inl (
  c',
  subst (Elem c') (sym more) (Elem-append_right c' p.contexts (c' ∷ []) (inl refl)),
  ek ∙ hk,
  ev ∙ hv,
)

pub Retries-Asks :
    (parameters : SsmParameters) (c : RequestContext) (p q : Progress)
    → Retries c p q
    → Asks parameters c
    → All (Asks parameters) p.contexts
    → All (Asks parameters) q.contexts
Retries-Asks parameters c p q (inr (same, failed)) a h = subst (All (Asks parameters)) (sym same) h
Retries-Asks parameters c p q (inl (c', ek, ev, more, same)) a h =
    let a' : Asks parameters c' = rw (ek, ev) a in
    subst (All (Asks parameters)) (sym more)
      (All-append (Asks parameters) p.contexts (c' ∷ []) h (a', tt))
