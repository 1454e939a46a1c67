-- ===== src/Ssm/Validate/Origins.antt =====
-- tools/pubsys/src/aws/validate_ssm/mod.rs: the results of the parameters of a region, taken apart.
use twoliter.Prelude.{
  ◌≡◌, refl, arith, sym, subst, ap, ◌∙◌, true, false, Option, none, some, [], ◌∷◌, ◌||◌, Bool-cases,
  inl, inr, Elem, Text, is_some,
}
use twoliter.Prelude.Classes.{◌==◌, nat_eq, list_eq}
use twoliter.Prelude.Maps.{IsMap, Elem-lookup, remove-IsMap, lookup, remove, lookup-remove}
use twoliter.Ssm.{SsmKey, ssm_key_eq, SsmParameters}
use twoliter.Ssm.Validate.{
  Status, correct, incorrect, missing, unexpected, unreachable, SsmValidationResult, ssm_result_eq,
  status_of, new_result, expected_results, remaining,
}

-- The status that a parameter is to have, by its expected and its actual value.
abbrev pub IsStatus : Option Text → Option Text → Status → Type 0
IsStatus expected actual correct = (v : Text) × (expected ≡ some v) × (actual ≡ some v)
IsStatus expected actual incorrect =
    (v : Text) × (w : Text) × (expected ≡ some v) × (actual ≡ some w) × (w ≡ v → ⊥)
IsStatus expected actual missing = (v : Text) × (expected ≡ some v) × (actual ≡ none)
IsStatus expected actual unexpected = (w : Text) × (expected ≡ none) × (actual ≡ some w)
IsStatus expected actual unreachable = ⊥

pub status_of-IsStatus :
    (expected actual : Option Text)
    → (is_some expected || is_some actual) ≡ true
    → IsStatus expected actual (status_of expected (some actual))
status_of-IsStatus none none h = cc
status_of-IsStatus none (some w) h = (w, refl, refl)
status_of-IsStatus (some v) none h = (v, refl, refl)
status_of-IsStatus (some v) (some w) h = elim (Bool-cases (w == v)) [
  | inl same ↦ rw same (v, refl, ap some ((list_eq.eqb_iff w v).0 same))
  | inr other ↦
      rw other (v, w, refl, refl, λ e. let same : (w == v) ≡ true = (list_eq.eqb_iff w v).1 e in cc)
]

pub remaining-lookup :
    (k : SsmKey) (expected actual : SsmParameters)
    → lookup k expected ≡ none
    → lookup k (remaining expected actual) ≡ lookup k actual
unfolding remaining lookup
remaining-lookup k [] actual h = refl
remaining-lookup k ((j, v) ∷ expected) actual h = elim (Bool-cases (j == k)) [
  | inl same ↦ let wrong : some v ≡ none = rw (same, lookup) at h in cc
  | inr apart ↦
      remaining-lookup k expected (remove j actual) (rw (apart, lookup) at h)
      ∙ lookup-remove j k actual
      ∙ rw apart refl
]

pub expected_results-Elem :
    (k : SsmKey) (v : Text) (expected actual : SsmParameters)
    → lookup k expected ≡ some v
    → Elem
        (new_result k.name (some v) (some (lookup k actual)) k.region)
        (expected_results expected actual)
unfolding expected_results lookup
expected_results-Elem k v [] actual h = cc
expected_results-Elem k v ((j, w) ∷ expected) actual h = elim (Bool-cases (j == k)) [
  | inl same ↦
      let ev : some w ≡ some v = rw (same, lookup) at h in
      let ej : j ≡ k = (ssm_key_eq.eqb_iff j k).0 same in
      let ew : v ≡ w = cc in inl (rw (sym ej, ew) refl)
  | inr apart ↦
      let unchanged : lookup k (remove j actual) ≡ lookup k actual =
        lookup-remove j k actual ∙ rw apart refl in
      inr (
        subst
          (λ x.
            Elem (new_result k.name (some v) (some x) k.region)
              (expected_results expected (remove j actual)))
          unchanged
          (expected_results-Elem k v expected (remove j actual) (rw (apart, lookup) at h)))
]

pub remaining_of :
    (k : SsmKey) (w : Text) (expected actual : SsmParameters)
    → IsMap actual
    → Elem (k, w) (remaining expected actual)
    → (lookup k expected ≡ none) × (lookup k actual ≡ some w)
unfolding remaining lookup
remaining_of k w [] actual h m = (refl, Elem-lookup k w actual h m)
remaining_of k w ((j, v) ∷ expected) actual h m =
    let (new, there) = remaining_of k w expected (remove j actual) (remove-IsMap j actual h) m in
    ground (arith, lookup-remove j k actual)

pub expected_results_of :
    (r : SsmValidationResult) (expected actual : SsmParameters)
    → IsMap expected
    → Elem r (expected_results expected actual)
    → (k : SsmKey) × (v : Text) × (lookup k expected ≡ some v)
      × (r ≡ new_result k.name (some v) (some (lookup k actual)) k.region)
unfolding expected_results lookup
expected_results_of r [] actual h m = elim m [ ]
expected_results_of r ((j, w) ∷ expected) actual h (inl e) =
    let here : (j == j) ≡ true = (ssm_key_eq.eqb_iff j j).1 refl in (j, w, rw here refl, e)
expected_results_of r ((j, w) ∷ expected) actual (fresh, h) (inr m) =
    let (k, v, found, e) = expected_results_of r expected (remove j actual) h m in
    let apart : (j == k) ≡ false = elim (Bool-cases (j == k)) [
      | inl same ↦
          let same_lookup = ap (λ x. lookup x expected) ((ssm_key_eq.eqb_iff j k).0 same) in cc
      | inr other ↦ other
    ] in
    let unchanged : lookup k (remove j actual) ≡ lookup k actual =
      lookup-remove j k actual ∙ rw apart refl in
    (k, v, rw apart found, e ∙ ap (λ x. new_result k.name (some v) (some x) k.region) unchanged)
