-- ===== src/Ssm/Publish.antt =====
-- `run` of tools/pubsys/src/aws/ssm/mod.rs, from the rendered parameters on: those that differ from the
-- live ones are set, and validated.
pub mod Set
pub mod Clobber
use twoliter.Prelude.{
  ◌≡◌, ℕ, Bool, true, false, Option, none, some, List, [], ◌∷◌, ◌&&◌, not, keep, map, Text,
  is_empty, if◌then◌else◌,
}
use twoliter.Prelude.Maps.{Map}
use twoliter.Prelude.Results.{Result, ok, err, ◌>>=◌}
use twoliter.Ami.{Image, AmiPublicError, ami_is_public}
use twoliter.Ssm.{
  Region, SsmKey, SsmParameters, is_in_public_namespace, key_difference, is_disjoint,
}
use twoliter.Ssm.Template.{RenderedParameter, as_ssm_parameters}
use twoliter.Ssm.Put.{PutService, SetResult, all_set, throttled, not_set, set_parameters}
use twoliter.Ssm.Fetch.{FetchService, FetchError, get_parameters, validate_parameters}

pub record SsmArgs : Type 0 where
  pub allow_clobber : Bool
  pub allow_private_images : Bool

-- What is not in the sources: the requests to SSM, and the reply of EC2 to `describe_images`.
pub record World (S : Type 0) : Type 0 where
  pub putting : PutService S
  pub fetching : FetchService S
  pub describe : S → Region → Text → Option (List (Option Bool))

pub data SsmError : Type 0 where
  check_ami_public : AmiPublicError → SsmError
  no_private_images : SsmError
  fetch_ssm : FetchError → SsmError
  no_clobber : SsmError
  set_ssm : SetResult → SsmError
  validate_ssm : FetchError → SsmError

abbrev pub validation_retries : ℕ
validation_retries = 3

abbrev pub validation_result : Result FetchError Unit → Result SsmError Unit
validation_result (ok _) = ok tt
validation_result (err e) = err (validate_ssm e)

module _ {S : Type 0} (world : World S) where
  abbrev pub image_is_public : S → RenderedParameter → Result AmiPublicError Bool
  image_is_public s p = ami_is_public (world.describe s p.ssm_key.region p.ami.id)

  -- All checks are made, and their first error is the error.
  abbrev pub all_public : S → List RenderedParameter → Result AmiPublicError Bool
  all_public s [] = ok true
  all_public s (p ∷ ps) =
      image_is_public s p >>= λ here. all_public s ps >>= λ rest. ok (here && rest)

  unfoldable pub check_public_namespace_amis_are_public :
      S → List RenderedParameter → Result AmiPublicError Bool
  unfolding ami_is_public is_in_public_namespace
  check_public_namespace_amis_are_public s ps =
      all_public s (keep (λ p. is_in_public_namespace p.ssm_key) ps)

  -- After the parameters are set: their validation.
  abbrev pub validated : SsmParameters → SetResult → S → Result SsmError Unit × S
  validated to_set all_set s =
      let (r, s') = validate_parameters world.fetching validation_retries to_set s in
      (validation_result r, s')
  validated to_set (throttled interval) s = (err (set_ssm (throttled interval)), s)
  validated to_set (not_set failures total) s = (err (set_ssm (not_set failures total)), s)

  -- Setting what differs from the current parameters.
  unfoldable pub update :
      ℕ → SsmArgs → SsmParameters → SsmParameters → S → Option (Result SsmError Unit × S)
  unfolding set_parameters key_difference is_disjoint validate_parameters
  update fuel args wanted current s =
      let to_set = key_difference wanted current in
      elim (is_empty to_set) [
        | true ↦ some (ok tt, s)
        | false ↦ elim (not args.allow_clobber && not (is_disjoint current to_set)) [
          | true ↦ some (err no_clobber, s)
          | false ↦ elim (set_parameters world.putting fuel to_set s) [
            | none ↦ none
            | some (r, s') ↦ some (validated to_set r s')
          ]
        ]
      ]

  -- Fetching the current parameters, and what follows.
  abbrev pub fetched_and_updated :
      ℕ → SsmArgs → List RenderedParameter → S → Option (Result SsmError Unit × S)
  fetched_and_updated fuel args ps s =
      elim (get_parameters world.fetching s (map (λ p. p.ssm_key) ps)) [
        | err e ↦ some (err (fetch_ssm e), s)
        | ok current ↦ update fuel args (as_ssm_parameters ps) current s
      ]

  unfoldable pub publish :
      ℕ → SsmArgs → List RenderedParameter → S → Option (Result SsmError Unit × S)
  unfolding check_public_namespace_amis_are_public update get_parameters
  publish fuel args ps s = elim args.allow_private_images [
    | true ↦ fetched_and_updated fuel args ps s
    | false ↦ elim (check_public_namespace_amis_are_public s ps) [
      | err e ↦ some (err (check_ami_public e), s)
      | ok false ↦ some (err no_private_images, s)
      | ok true ↦ fetched_and_updated fuel args ps s
    ]
  ]
