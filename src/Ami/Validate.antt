-- ===== src/Ami/Validate.antt =====
-- tools/pubsys/src/aws/validate_ami: the images that EC2 describes are compared with the expected ones.
-- A set of results is a list that has each of them once.
pub mod Statuses
pub mod Regions
use twoliter.Prelude.{
  ◌≡◌, refl, ℕ, Bool, true, false, Option, none, some, List, [], ◌∷◌, ◌⊎◌, inl, inr, ◌++◌, ◌+◌, suc,
  keep, any, map, Elem, Text, is_some, if◌then◌else◌,
}
use twoliter.Prelude.Classes.{Eq, ◌==◌, eq_by, nat_eq, bool_eq, list_eq, pair_eq, option_eq, sum_eq}
use twoliter.Prelude.Maps.{Map, lookup, collect_set}
use twoliter.Prelude.Results.{Result, ok, err, ◌>>=◌, ok_or}
use twoliter.Ami.{LaunchPermissionDef, group, user_id, organization_arn, organizational_unit_arn}

pub record ImageDef : Type 0 where
  pub id : Text
  pub name : Text
  pub public : Bool
  pub launch_permissions : Option (List LaunchPermissionDef)
  pub ena_support : Bool
  pub sriov_net_support : Text

pub data ImageData : Type 0 where
  image : ImageDef → ImageData
  image_list : List ImageDef → ImageData

abbrev pub images : ImageData → List ImageDef
images (image i) = i ∷ []
images (image_list is) = is

-- `AmiValidationResultStatus`
pub data Status : Type 0 where
  correct : Status
  incorrect : Status
  missing : Status
  unreachable : Status

pub record AmiValidationResult : Type 0 where
  pub id : Text
  pub expected_image_def : ImageDef
  pub actual_image_def : Option ImageDef
  pub region : Text
  pub status : Status

-- The derived equalities, by what the values consist of.
abbrev pub permission_parts : LaunchPermissionDef → (Text ⊎ Text) ⊎ (Text ⊎ Text)
permission_parts (group s) = inl (inl s)
permission_parts (user_id s) = inl (inr s)
permission_parts (organization_arn s) = inr (inl s)
permission_parts (organizational_unit_arn s) = inr (inr s)

abbrev pub permission_of : (Text ⊎ Text) ⊎ (Text ⊎ Text) → LaunchPermissionDef
permission_of (inl (inl s)) = group s
permission_of (inl (inr s)) = user_id s
permission_of (inr (inl s)) = organization_arn s
permission_of (inr (inr s)) = organizational_unit_arn s

pub permission_of-parts : (p : LaunchPermissionDef) → permission_of (permission_parts p) ≡ p
permission_of-parts (group s) = refl
permission_of-parts (user_id s) = refl
permission_of-parts (organization_arn s) = refl
permission_of-parts (organizational_unit_arn s) = refl

instance abbrev pub permission_eq : Eq LaunchPermissionDef
permission_eq = eq_by permission_parts permission_of permission_of-parts sum_eq

abbrev pub ImageParts : Type 0
ImageParts = (Text × Text) × ((Bool × Option (List LaunchPermissionDef)) × (Bool × Text))

abbrev pub image_parts : ImageDef → ImageParts
image_parts i =
    ((i.id, i.name), ((i.public, i.launch_permissions), (i.ena_support, i.sriov_net_support)))

abbrev pub image_of : ImageParts → ImageDef
image_of ((id, name), ((public, permissions), (ena, sriov))) = record {
  id = id;
  name = name;
  public = public;
  launch_permissions = permissions;
  ena_support = ena;
  sriov_net_support = sriov;
}

instance abbrev pub image_def_eq : Eq ImageDef
image_def_eq = eq_by image_parts image_of (λ i. refl) pair_eq

abbrev pub status_of : ImageDef → Option (Option ImageDef) → Status
status_of expected none = unreachable
status_of expected (some none) = missing
status_of expected (some (some actual)) = if actual == expected then correct else incorrect

-- `AmiValidationResult::new`, with none for an error as the actual image.
unfoldable pub new_result : Text → ImageDef → Option (Option ImageDef) → Text → AmiValidationResult
new_result id expected actual region = record {
  id = id;
  expected_image_def = expected;
  actual_image_def = elim actual [ none ↦ none | some found ↦ found ];
  region = region;
  status = status_of expected actual;
}

-- The launch permissions of a public image are not compared.
abbrev pub expected_of : ImageDef → ImageDef
expected_of i =
    if i.public
    then record {
      id = i.id;
      name = i.name;
      public = i.public;
      launch_permissions = none;
      ena_support = i.ena_support;
      sriov_net_support = i.sriov_net_support;
    }
    else i

abbrev pub result_in : Option (Map Text ImageDef) → Text → ImageDef → AmiValidationResult
result_in none region i = new_result i.id i none region
result_in (some actual) region i =
    new_result i.id (expected_of i) (some (lookup i.id actual)) region

abbrev pub status_parts : Status → Bool × Bool
status_parts correct = (true, true)
status_parts incorrect = (true, false)
status_parts missing = (false, true)
status_parts unreachable = (false, false)

abbrev pub status_of_parts : Bool × Bool → Status
status_of_parts (true, true) = correct
status_of_parts (true, false) = incorrect
status_of_parts (false, true) = missing
status_of_parts (false, false) = unreachable

pub status_of_parts-parts : (s : Status) → status_of_parts (status_parts s) ≡ s
status_of_parts-parts correct = refl
status_of_parts-parts incorrect = refl
status_of_parts-parts missing = refl
status_of_parts-parts unreachable = refl

instance abbrev pub status_eq : Eq Status
status_eq = eq_by status_parts status_of_parts status_of_parts-parts pair_eq

abbrev pub ResultParts : Type 0
ResultParts = (Text × Text) × (ImageDef × (Option ImageDef × Status))

abbrev pub result_parts : AmiValidationResult → ResultParts
result_parts r = ((r.id, r.region), (r.expected_image_def, (r.actual_image_def, r.status)))

abbrev pub result_of : ResultParts → AmiValidationResult
result_of ((id, region), (expected, (actual, status))) = record {
  id = id;
  expected_image_def = expected;
  actual_image_def = actual;
  region = region;
  status = status;
}

instance abbrev pub result_eq : Eq AmiValidationResult
result_eq = eq_by result_parts result_of (λ r. refl) pair_eq

unfoldable pub validate_images_in_region :
    List ImageDef → Option (Map Text ImageDef) → Text → List AmiValidationResult
unfolding new_result lookup collect_set
validate_images_in_region expected actual region =
    collect_set (map (result_in actual region) expected)

-- `AmiValidationRegionSummary`
pub record Summary : Type 0 where
  pub correct_count : ℕ
  pub incorrect_count : ℕ
  pub missing_count : ℕ
  pub unreachable_count : ℕ

abbrev pub counted : Status → Summary → Summary
counted correct s = record {
  correct_count = suc s.correct_count;
  incorrect_count = s.incorrect_count;
  missing_count = s.missing_count;
  unreachable_count = s.unreachable_count;
}
counted incorrect s = record {
  correct_count = s.correct_count;
  incorrect_count = suc s.incorrect_count;
  missing_count = s.missing_count;
  unreachable_count = s.unreachable_count;
}
counted missing s = record {
  correct_count = s.correct_count;
  incorrect_count = s.incorrect_count;
  missing_count = suc s.missing_count;
  unreachable_count = s.unreachable_count;
}
counted unreachable s = record {
  correct_count = s.correct_count;
  incorrect_count = s.incorrect_count;
  missing_count = suc s.missing_count;
  unreachable_count = s.unreachable_count;
}

abbrev pub no_results : Summary
no_results = record {
  correct_count = 0;
  incorrect_count = 0;
  missing_count = 0;
  unreachable_count = 0;
}

-- `AmiValidationRegionSummary::from`, after the results of a summary.
unfoldable pub summary_from : List AmiValidationResult → Summary → Summary
summary_from [] s = s
summary_from (r ∷ rs) s = summary_from rs (counted r.status s)

abbrev pub all_results :
    (AmiValidationResult → Bool) → Map Text (List AmiValidationResult) → List AmiValidationResult
all_results p [] = []
all_results p ((region, rs) ∷ results) = keep p rs ++ all_results p results

-- The results of all regions whose status is one of those requested.
unfoldable pub get_results_for_status :
    List Status → Map Text (List AmiValidationResult) → List AmiValidationResult
unfolding collect_set
get_results_for_status requested results =
    collect_set (all_results (λ r. any (λ s. s == r.status) requested) results)
