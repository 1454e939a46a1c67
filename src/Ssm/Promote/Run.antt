-- ===== src/Ssm/Promote/Run.antt =====
-- `run` of tools/pubsys/src/aws/promote_ssm/mod.rs: the values of the parameters of one version are
-- given to those of another one. A panic of an index is an error of its own.
pub mod Copied
pub mod Names
use twoliter.Prelude.{
  is_empty, ◌≡◌, ℕ, Bool, true, false, ◌||◌, Option, none, some, List, [], ◌∷◌, ◌++◌, map, Text,
}
use twoliter.Prelude.Classes.{nat_eq, list_eq}
use twoliter.Prelude.Maps.{Map, lookup, insert}
use twoliter.Prelude.Results.{Result, ok, err, ◌>>=◌}
use twoliter.Ssm.{key_difference, Region, SsmKey, ssm_key_eq, SsmParameters}
use twoliter.Ssm.Fetch.{FetchError, at_key, get_parameters}
use twoliter.Ssm.Publish.{SsmArgs, World, SsmError, update}
use twoliter.Ssm.Template.{
  TemplateParameter, TemplateTools, TemplateError, BuildContext, render_parameter_names,
}

pub data PromoteError : Type 0 where
  find_templates : TemplateError → PromoteError
  render_templates : TemplateError → PromoteError
  fetch_current : FetchError → PromoteError
  empty_source : PromoteError
  not_updated : SsmError → PromoteError
  not_appended : PromoteError
  panicked : PromoteError

unfoldable pub keys_in : List Region → Map Text Text → List SsmKey
keys_in [] names = []
keys_in (region ∷ regions) names =
    map (λ (template, name). at_key region name) names ++ keys_in regions names

-- The target name of each source name, over those given.
unfoldable pub source_target_map :
    Map Text Text → Map Text Text → Map Text Text → Option (Map Text Text)
unfolding lookup insert
source_target_map [] target m = some m
source_target_map ((template, name) ∷ source) target m = elim (lookup template target) [
  | none ↦ none
  | some target_name ↦ source_target_map source target (insert name target_name m)
]

-- The source values under the target names, over those given.
unfoldable pub renamed : SsmParameters → Map Text Text → SsmParameters → Option SsmParameters
unfolding lookup insert
renamed [] targets m = some m
renamed ((k, v) ∷ parameters) targets m = elim (lookup k.name targets) [
  | none ↦ none
  | some target_name ↦ renamed parameters targets (insert (at_key k.region target_name) v m)
]

-- Existing parameters may be overwritten.
abbrev pub overwriting : SsmArgs
overwriting = record { allow_clobber = true; allow_private_images = true }

module _ {S : Type 0} (world : World S) where
  abbrev pub not_updated_result : Result SsmError Unit → Result PromoteError Unit
  not_updated_result (ok _) = ok tt
  not_updated_result (err e) = err (not_updated e)

  -- The differences are set and validated.
  abbrev pub promote_update :
      ℕ → SsmParameters → SsmParameters → S → Option (Result PromoteError Unit × S)
  promote_update fuel wanted current s = elim (update world fuel overwriting wanted current s) [
    | none ↦ none
    | some (r, s') ↦ some (not_updated_result r, s')
  ]

  -- From the wanted parameters on. Where there are differences, they are first appended to the output
  -- file, if one is given; `append` says whether that succeeds.
  abbrev pub promote_wanted :
      (SsmParameters → Bool)
      → ℕ
      → SsmParameters
      → SsmParameters
      → S
      → Option (Result PromoteError Unit × S)
  promote_wanted append fuel wanted current s =
      let to_set = key_difference wanted current in
      elim (is_empty to_set || append to_set) [
        | false ↦ some (err not_appended, s)
        | true ↦ promote_update fuel wanted current s
      ]

  abbrev pub wanted_of : Map Text Text → Map Text Text → SsmParameters → Option SsmParameters
  wanted_of source target current = elim (source_target_map source target []) [
    | none ↦ none
    | some targets ↦ renamed current targets []
  ]

  -- From the rendered names on.
  unfoldable pub promote :
      (SsmParameters → Bool)
      → ℕ
      → List Region
      → Map Text Text
      → Map Text Text
      → S
      → Option (Result PromoteError Unit × S)
  unfolding keys_in source_target_map renamed update get_parameters key_difference
  promote append fuel regions source target s =
      elim (get_parameters world.fetching s (keys_in regions source)) [
        | err e ↦ some (err (fetch_current e), s)
        | ok [] ↦ some (err empty_source, s)
        | ok (p ∷ ps) ↦ elim (get_parameters world.fetching s (keys_in regions target)) [
          | err e ↦ some (err (fetch_current e), s)
          | ok current ↦ elim (wanted_of source target (p ∷ ps)) [
            | none ↦ some (err panicked, s)
            | some wanted ↦ promote_wanted append fuel wanted current s
          ]
        ]
      ]

  abbrev render_names :
      TemplateTools
      → Text
      → BuildContext
      → BuildContext
      → List TemplateParameter
      → Result TemplateError (Map Text Text × Map Text Text)
  render_names tools ssm_prefix source_context target_context ps =
      render_parameter_names tools ssm_prefix source_context ps [] >>= λ source.
      render_parameter_names tools ssm_prefix target_context ps [] >>= λ target. ok (source, target)

  unfoldable pub run :
      TemplateTools
      → Text
      → BuildContext
      → BuildContext
      → (SsmParameters → Bool)
      → ℕ
      → List Region
      → S
      → Option (Result PromoteError Unit × S)
  unfolding promote twoliter.Ssm.Template.get_parameters render_parameter_names
  run tools ssm_prefix source_context target_context append fuel regions s =
      elim (twoliter.Ssm.Template.get_parameters tools source_context) [
        | err e ↦ some (err (find_templates e), s)
        | ok [] ↦ some (ok tt, s)
        | ok (p ∷ ps) ↦
            elim (render_names tools ssm_prefix source_context target_context (p ∷ ps)) [
              | err e ↦ some (err (render_templates e), s)
              | ok (source, target) ↦ promote append fuel regions source target s
            ]
      ]
