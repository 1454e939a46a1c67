-- ===== src/Ssm/Validate.antt =====
-- tools/pubsys/src/aws/validate_ssm: the parameters that are live are compared with the expected ones.
-- A set of results is a list that has each of them once.
pub mod Origins
pub mod Statuses
pub mod Files
use twoliter.Prelude.{
  ◌≡◌, refl, ℕ, Bool, true, false, Option, none, some, List, [], ◌∷◌, ◌++◌, ◌⊎◌, inl, inr, map,
  Text, suc, if◌then◌else◌,
}
use twoliter.Prelude.Classes.{Eq, ◌==◌, eq_by, nat_eq, bool_eq, list_eq, pair_eq, option_eq}
use twoliter.Prelude.Maps.{Map, lookup, remove, collect_set}
use twoliter.Ssm.{Region, SsmKey, ssm_key_eq, SsmParameters}

-- `SsmValidationResultStatus`
pub data Status : Type 0 where
  correct : Status
  incorrect : Status
  missing : Status
  unexpected : Status
  unreachable : Status

pub record SsmValidationResult : Type 0 where
  pub name : Text
  pub expected_value : Option Text
  pub actual_value : Option Text
  pub region : Region
  pub status : Status

-- The derived equality of results, by what they consist of.
abbrev pub status_parts : Status → Option (Bool × Bool)
status_parts correct = some (true, true)
status_parts incorrect = some (true, false)
status_parts missing = some (false, true)
status_parts unexpected = some (false, false)
status_parts unreachable = none

abbrev pub status_of_parts : Option (Bool × Bool) → Status
status_of_parts (some (true, true)) = correct
status_of_parts (some (true, false)) = incorrect
status_of_parts (some (false, true)) = missing
status_of_parts (some (false, false)) = unexpected
status_of_parts none = unreachable

pub status_of_parts-parts : (s : Status) → status_of_parts (status_parts s) ≡ s
status_of_parts-parts correct = refl
status_of_parts-parts incorrect = refl
status_of_parts-parts missing = refl
status_of_parts-parts unexpected = refl
status_of_parts-parts unreachable = refl

instance abbrev pub ssm_status_eq : Eq Status
ssm_status_eq = eq_by status_parts status_of_parts status_of_parts-parts option_eq

abbrev pub ResultParts : Type 0
ResultParts = (Text × Region) × ((Option Text × Option Text) × Status)

abbrev pub result_parts : SsmValidationResult → ResultParts
result_parts r = ((r.name, r.region), ((r.expected_value, r.actual_value), r.status))

abbrev pub result_of_parts : ResultParts → SsmValidationResult
result_of_parts ((name, region), ((expected, actual), status)) = record {
  name = name;
  expected_value = expected;
  actual_value = actual;
  region = region;
  status = status;
}

instance abbrev pub ssm_result_eq : Eq SsmValidationResult
ssm_result_eq = eq_by result_parts result_of_parts (λ r. refl) pair_eq

-- The match on the expected value and the actual one, which is none for an error.
abbrev pub status_of : Option Text → Option (Option Text) → Status
status_of (some expected) (some (some actual)) = if actual == expected then correct else incorrect
status_of (some expected) (some none) = missing
status_of none (some none) = missing
status_of none (some (some actual)) = unexpected
status_of (some expected) none = unreachable
status_of none none = unreachable

-- `SsmValidationResult::new`
unfoldable pub new_result : Text → Option Text → Option (Option Text) → Region → SsmValidationResult
new_result name expected actual region = record {
  name = name;
  expected_value = expected;
  actual_value = elim actual [ none ↦ none | some found ↦ found ];
  region = region;
  status = status_of expected actual;
}

-- The results of the expected parameters, each of which is removed from the actual ones.
unfoldable pub expected_results : SsmParameters → SsmParameters → List SsmValidationResult
unfolding new_result lookup remove
expected_results [] actual = []
expected_results ((k, v) ∷ expected) actual =
    new_result k.name (some v) (some (lookup k actual)) k.region
    ∷ expected_results expected (remove k actual)

-- The actual parameters that were not expected.
unfoldable pub remaining : SsmParameters → SsmParameters → SsmParameters
unfolding remove
remaining [] actual = actual
remaining ((k, v) ∷ expected) actual = remaining expected (remove k actual)

abbrev pub unexpected_result : SsmKey × Text → SsmValidationResult
unexpected_result (k, v) = new_result k.name none (some (some v)) k.region

abbrev pub unreachable_result : SsmKey × Text → SsmValidationResult
unreachable_result (k, v) = new_result k.name (some v) none k.region

unfoldable pub validate_parameters_in_region :
    SsmParameters → Option SsmParameters → Bool → List SsmValidationResult
unfolding expected_results remaining new_result collect_set
validate_parameters_in_region expected none check_unexpected =
    collect_set (map unreachable_result expected)
validate_parameters_in_region expected (some actual) check_unexpected = collect_set (
    expected_results expected actual
    ++ (if check_unexpected then map unexpected_result (remaining expected actual) else []))
