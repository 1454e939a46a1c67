-- ===== src/Examples/Projects.antt =====
-- Tests of finding and validating a project.
use twoliter.Prelude.{ℕ, ◌≡◌, refl, Bool, true, none, some, [], ◌∷◌, Elem, Text, text, ◌⊎◌}
use twoliter.Prelude.Classes.{nat_eq, list_eq}
use twoliter.Prelude.Maps.{Map, lookup}
use twoliter.Prelude.Results.{ok}
use twoliter.Project.{Image, ProjectImage, as_project_image, supported}
use twoliter.Project.Validate.{
  UnvalidatedProject, Toml, Components, show_path, validate, validated, find_and_load, load_project,
  release,
}
use twoliter.Project.Validate.Dependencies.{validate_ok}
use twoliter.Project.Validate.Nearest.{find_and_load_nearest}
use twoliter.Examples.Kits.{core_kit, sdk_image, vendor}

abbrev unvalidated : UnvalidatedProject ℕ
unvalidated = record {
  schema_version = supported;
  release_version = text "1";
  sdk = some sdk_image;
  vendor = some ((text "v", vendor) ∷ []);
  kit = some (core_kit ∷ []);
}

abbrev toml : Toml ℕ
toml = record {
  parse_project = λ content. some unvalidated;
  parse_overrides = λ content. none;
  parse_release = λ content. release content;
}

abbrev files : Map Text Text
files = (text "/p/Release.toml", text "1") ∷ (text "/p/Twoliter.toml", []) ∷ []

abbrev dir : Components
dir = text "p" ∷ []

abbrev here : Components
here = text "Twoliter.toml" ∷ dir

is_valid : validate toml files unvalidated here ≡ ok (validated toml files unvalidated here dir [])
unfolding validate
is_valid = refl

validate_ok_example :
    ((image : Image ℕ)
      → Elem image (core_kit ∷ []) ⊎ (some sdk_image ≡ some image)
      → (i : ProjectImage ℕ) × (as_project_image
            (validated toml files unvalidated here dir [])
            image
          ≡ some i))
    × ((content version : Text)
        → lookup (show_path (text "Release.toml" ∷ dir)) files ≡ some content
        → toml.parse_release content ≡ release version
        → version ≡ text "1")
validate_ok_example =
    validate_ok toml files unvalidated (text "Twoliter.toml") dir
      (validated toml files unvalidated here dir []) is_valid

abbrev is_dir : Components → Bool
is_dir path = true

find_and_load_nearest_example :
    find_and_load toml files is_dir (text "sources" ∷ dir) ≡ load_project toml files here
unfolding lookup
find_and_load_nearest_example =
    find_and_load_nearest toml files is_dir (text "sources" ∷ []) dir (refl, refl, tt) refl refl
