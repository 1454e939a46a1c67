-- ===== src/Ssm/Validate/Files.antt =====
-- `parse_parameters` and `validate` of tools/pubsys/src/aws/validate_ssm/mod.rs, from the file of the
-- expected parameters to the results of all regions.
use twoliter.Prelude.{Bool, Option, none, some, List, [], ◌∷◌, Text}
use twoliter.Prelude.Classes.{nat_eq, list_eq}
use twoliter.Prelude.Maps.{Map, lookup, insert}
use twoliter.Prelude.Results.{Result, ok, err}
use twoliter.Ssm.{Region, ssm_key_eq, SsmParameters}
use twoliter.Ssm.Fetch.{at_key}
use twoliter.Ssm.Prefix.{PrefixError, Pages, get_parameters_by_prefix}
use twoliter.Ssm.Validate.{SsmValidationResult, validate_parameters_in_region}

pub data FileError : Type 0 where
  not_read : FileError
  not_parsed : FileError

-- The parameters of a region, with their keys.
unfoldable pub keyed : Region → Map Text Text → SsmParameters → SsmParameters
unfolding insert
keyed region [] parameters = parameters
keyed region ((name, value) ∷ names) parameters =
    keyed region names (insert (at_key region name) value parameters)

unfoldable pub keyed_by_region :
    Map Text (Map Text Text) → Map Region SsmParameters → Map Region SsmParameters
unfolding keyed insert
keyed_by_region [] m = m
keyed_by_region ((region, names) ∷ regions) m =
    keyed_by_region regions (insert region (keyed region names []) m)

-- On the file, none if it cannot be read, with what `serde_json` makes of it.
unfoldable pub parse_parameters :
    (Text → Option (Map Text (Map Text Text)))
    → Option Text
    → Result FileError (Map Region SsmParameters)
unfolding keyed_by_region
parse_parameters from_slice none = err not_read
parse_parameters from_slice (some bytes) = elim (from_slice bytes) [
  | none ↦ err not_parsed
  | some m ↦ ok (keyed_by_region m [])
]

abbrev pub regions_of : Map Region SsmParameters → List Region
regions_of [] = []
regions_of ((region, parameters) ∷ m) = region ∷ regions_of m

abbrev pub reached : Result PrefixError SsmParameters → Option SsmParameters
reached (ok parameters) = some parameters
reached (err e) = none

abbrev pub expected_in : Region → Map Region SsmParameters → SsmParameters
expected_in region m = elim (lookup region m) [ none ↦ [] | some parameters ↦ parameters ]

-- The results of the regions that were asked.
unfoldable pub validate_each :
    Map Region SsmParameters
    → Bool
    → Map Region (Result PrefixError SsmParameters)
    → Map Region (List SsmValidationResult)
unfolding validate_parameters_in_region lookup
validate_each expected check_unexpected [] = []
validate_each expected check_unexpected ((region, actual) ∷ m) =
    (
      region,
      validate_parameters_in_region (expected_in region expected) (reached actual) check_unexpected,
    )
    ∷ validate_each expected check_unexpected m

unfoldable pub validate_expected :
    (Text → Option (Map Text (Map Text Text)))
    → Pages
    → Option Text
    → Text
    → Bool
    → Result FileError (Map Region (List SsmValidationResult))
unfolding parse_parameters get_parameters_by_prefix validate_each
validate_expected from_slice pages file ssm_prefix check_unexpected =
    elim (parse_parameters from_slice file) [
      | err e ↦ err e
      | ok expected ↦ ok (
          validate_each expected check_unexpected
            (get_parameters_by_prefix pages (regions_of expected) ssm_prefix))
    ]
