-- ===== src/Ssm/Validate/Statuses.antt =====
-- tools/pubsys/src/aws/validate_ssm/mod.rs: the results of the parameters of a region.
use twoliter.Prelude.{
  ◌≡◌, refl, sym, subst, ◌∙◌, Bool, true, false, Option, none, some, List, [], ◌++◌, ◌&&◌, ◌||◌,
  inl, inr, Elem, Elem-map, Elem-map_of, Elem-append, Elem-append_left, Elem-append_right, map,
  Text, is_some, and_true, if◌then◌else◌,
}
use twoliter.Prelude.Classes.{nat_eq, list_eq}
use twoliter.Prelude.Maps.{IsMap, lookup, lookup-Elem, collect_set, collect_set-Elem}
use twoliter.Ssm.{SsmKey, ssm_key_eq, SsmParameters}
use twoliter.Ssm.Validate.Origins.{
  IsStatus, status_of-IsStatus, remaining-lookup, expected_results-Elem, remaining_of,
  expected_results_of,
}
use twoliter.Ssm.Validate.{
  SsmValidationResult, ssm_result_eq, new_result, expected_results, remaining, unexpected_result,
  validate_parameters_in_region,
}

-- What a result says of the parameter with a key.
abbrev pub IsResultOf : SsmParameters → SsmParameters → SsmKey → SsmValidationResult → Type 0
IsResultOf expected actual k r =
    (r.name ≡ k.name)
    × (r.region ≡ k.region)
    × IsStatus (lookup k expected) (lookup k actual) r.status

-- The parameters that are checked: those expected, and if `check_unexpected` is set those found.
abbrev pub is_checked : SsmParameters → SsmParameters → Bool → SsmKey → Bool
is_checked expected actual check_unexpected k =
    is_some (lookup k expected) || (check_unexpected && is_some (lookup k actual))

checked-Elem :
    (expected actual : SsmParameters) (check_unexpected : Bool) (k : SsmKey)
    → is_checked expected actual check_unexpected k ≡ true
    → (r : SsmValidationResult) × Elem r
        (validate_parameters_in_region expected (some actual) check_unexpected)
      × IsResultOf expected actual k r
unfolding validate_parameters_in_region new_result
checked-Elem expected actual check_unexpected k checked = of_value (lookup k expected) refl
  where
    more : List SsmValidationResult
    more = if check_unexpected then map unexpected_result (remaining expected actual) else []

    all : List SsmValidationResult
    all = expected_results expected actual ++ more

    Result : Type 0
    Result = (r : SsmValidationResult) × Elem r (collect_set all) × IsResultOf expected actual k r

    of_actual :
        lookup k expected ≡ none
        → check_unexpected ≡ true
        → (o : Option Text) → lookup k actual ≡ o
        → is_some (lookup k actual) ≡ true
        → Result
    of_actual h on none a there = let wrong : false ≡ true = rw a at there in cc
    of_actual h on (some w) a there =
        let left = remaining-lookup k expected actual h ∙ a in
        let here =
          Elem-map unexpected_result (k, w) (remaining expected actual)
            (lookup-Elem k w (remaining expected actual) left) in
        (
          unexpected_result (k, w),
          (collect_set-Elem (unexpected_result (k, w)) all).1 (
              Elem-append_right (unexpected_result (k, w)) (expected_results expected actual) more
                (rw on here)),
          (refl, refl, (w, h, a)),
        )

    of_value : (o : Option Text) → lookup k expected ≡ o → Result
    of_value (some v) h = (
      new_result k.name (some v) (some (lookup k actual)) k.region,
      (collect_set-Elem (new_result k.name (some v) (some (lookup k actual)) k.region) all).1 (
          Elem-append_left (new_result k.name (some v) (some (lookup k actual)) k.region)
            (expected_results expected actual) more (expected_results-Elem k v expected actual h)),
      (refl, refl, rw h (status_of-IsStatus (some v) (lookup k actual) refl)),
    )
    of_value none h =
        let checked' : (check_unexpected && is_some (lookup k actual)) ≡ true = rw h at checked in
        of_actual h (and_true check_unexpected (is_some (lookup k actual)) checked').0
          (lookup k actual) refl (and_true check_unexpected (is_some (lookup k actual)) checked').1

result_of :
    (expected actual : SsmParameters) (check_unexpected : Bool)
    → IsMap expected
    → IsMap actual
    → (r : SsmValidationResult)
    → Elem r (validate_parameters_in_region expected (some actual) check_unexpected)
    → (k : SsmKey) × (is_checked expected actual check_unexpected k ≡ true)
      × IsResultOf expected actual k r
unfolding validate_parameters_in_region new_result
result_of expected actual check_unexpected h g r m =
    elim (Elem-append r (expected_results expected actual) more ((collect_set-Elem r all).0 m)) [
      | inl early ↦ of_expected (expected_results_of r expected actual h early)
      | inr late ↦ of_more check_unexpected refl late
    ]
  where
    more : List SsmValidationResult
    more = if check_unexpected then map unexpected_result (remaining expected actual) else []

    all : List SsmValidationResult
    all = expected_results expected actual ++ more

    Origin : Type 0
    Origin =
        (k : SsmKey) × (is_checked expected actual check_unexpected k ≡ true)
        × IsResultOf expected actual k r

    of_expected :
        (k : SsmKey) × (v : Text) × (lookup k expected ≡ some v)
          × (r ≡ new_result k.name (some v) (some (lookup k actual)) k.region)
        → Origin
    of_expected (k, v, found, e) = (
      k,
      rw found refl,
      subst (IsResultOf expected actual k) (sym e)
          (refl, refl, rw found (status_of-IsStatus (some v) (lookup k actual) refl)),
    )

    of_remaining :
        (x : SsmKey × Text) × Elem x (remaining expected actual) × (r ≡ unexpected_result x)
        → check_unexpected ≡ true
        → Origin
    of_remaining ((k, w), there, e) on =
        let (new, found) = remaining_of k w expected actual g there in
        (
          k,
          rw (new, on, found) refl,
          subst (IsResultOf expected actual k) (sym e) (refl, refl, (w, new, found)),
        )

    of_more :
        (b : Bool)
        → check_unexpected ≡ b
        → Elem r (if b then map unexpected_result (remaining expected actual) else [])
        → Origin
    of_more true on late =
        of_remaining (Elem-map_of unexpected_result r (remaining expected actual) late) on
    of_more false off late = elim late [ ]

-- In a region that was reached, the results are those of the parameters that are expected and, if
-- unexpected ones are checked, of those that were found, and of no others. Each parameter has a result,
-- and each result is one of such a parameter: it has the name and the region of the parameter, and the
-- status that the expected and the actual value give it.
pub validate_parameters_in_region-IsStatus :
    (expected actual : SsmParameters) (check_unexpected : Bool)
    → IsMap expected
    → IsMap actual
    → let results = validate_parameters_in_region expected (some actual) check_unexpected in
      ((k : SsmKey)
        → is_checked expected actual check_unexpected k ≡ true
        → (r : SsmValidationResult) × Elem r results × IsResultOf expected actual k r)
      × ((r : SsmValidationResult)
          → Elem r results
          → (k : SsmKey) × (is_checked expected actual check_unexpected k ≡ true)
            × IsResultOf expected actual k r)
validate_parameters_in_region-IsStatus expected actual check_unexpected h g = (
  λ k checked. checked-Elem expected actual check_unexpected k checked,
  λ r m. result_of expected actual check_unexpected h g r m,
)
