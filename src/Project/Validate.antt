-- ===== src/Project/Validate.antt =====
-- twoliter/src/project/mod.rs: how a project file is found, read and validated. The `toml` crate is a
-- parameter. A canonical path is the list of its components, the last one first.
pub mod Dependencies
pub mod Nearest
use twoliter.Prelude.{
  ℕ, Bool, true, false, Option, none, some, List, [], ◌∷◌, ◌++◌, Text, text, is_some, ◌&&◌,
  if◌then◌else◌,
}
use twoliter.Prelude.Classes.{◌==◌, nat_eq, list_eq}
use twoliter.Prelude.Maps.{Map, lookup}
use twoliter.Prelude.Results.{Result, ok, err, ◌>>=◌, ok_or}
use twoliter.Project.{Image, Vendor, Override, Project, SchemaVersion}

abbrev pub Components : Type 0
Components = List Text

pub record UnvalidatedProject (V : Type 0) : Type 0 where
  pub schema_version : SchemaVersion
  pub release_version : Text
  pub sdk : Option (Image V)
  pub vendor : Option (Map Text Vendor)
  pub kit : Option (List (Image V))

abbrev pub Overrides : Type 0
Overrides = Map Text (Map Text Override)

-- What the `toml` crate finds at the key `version` of a text.
pub data ReleaseToml : Type 0 where
  unparsable : ReleaseToml
  no_version : ReleaseToml
  not_a_string : ReleaseToml
  release : (version : Text) → ReleaseToml

pub record Toml (V : Type 0) : Type 0 where
  pub parse_project : Text → Option (UnvalidatedProject V)
  pub parse_overrides : Text → Option Overrides
  pub parse_release : Text → ReleaseToml

pub data ProjectError : Type 0 where
  no_parent : ProjectError
  vendor_not_specified : ProjectError
  release_not_a_string : ProjectError
  release_mismatch : (version release_version : Text) → ProjectError
  bad_overrides : ProjectError
  unreadable : ProjectError
  bad_project_file : ProjectError
  not_a_directory : ProjectError
  not_found : ProjectError

abbrev pub show_path : Components → Text
show_path [] = []
show_path (c ∷ cs) = show_path cs ++ text "/" ++ c

abbrev pub list_or_empty : {A : Type 0} → Option (List A) → List A
list_or_empty none = []
list_or_empty (some as_given) = as_given

module _ {V : Type 0} where
  -- The kits, then the SDK.
  abbrev pub dependency_list : UnvalidatedProject V → List (Image V)
  dependency_list u = elim u.sdk [
    | none ↦ list_or_empty u.kit
    | some sdk ↦ list_or_empty u.kit ++ sdk ∷ []
  ]

  abbrev pub has_vendor : Option (Map Text Vendor) → Image V → Bool
  has_vendor none dependency = false
  has_vendor (some vendors) dependency = is_some (lookup dependency.vendor vendors)

  abbrev pub check_each : Option (Map Text Vendor) → List (Image V) → Result ProjectError Unit
  check_each vendor [] = ok tt
  check_each vendor (dependency ∷ dependencies) =
      let rest = check_each vendor dependencies in
      if has_vendor vendor dependency then rest else err vendor_not_specified

  unfoldable pub check_vendor_availability : UnvalidatedProject V → Result ProjectError Unit
  unfolding lookup
  check_vendor_availability u = check_each u.vendor (dependency_list u)

  module _ (toml : Toml V) (files : Map Text Text) where
    unfoldable pub check_release_toml : UnvalidatedProject V → Components → Result ProjectError Unit
    unfolding lookup
    check_release_toml u project_dir =
        elim (lookup (show_path (text "Release.toml" ∷ project_dir)) files) [
          | none ↦ ok tt
          | some content ↦ elim (toml.parse_release content) [
            | unparsable ↦ ok tt
            | no_version ↦ ok tt
            | not_a_string ↦ err release_not_a_string
            | release version ↦
                if version == u.release_version
                then ok tt
                else err (release_mismatch version u.release_version)
          ]
        ]

    unfoldable pub check_and_load_overrides : Components → Result ProjectError Overrides
    unfolding lookup
    check_and_load_overrides path =
        elim (lookup (show_path (text "Twoliter.override" ∷ path)) files) [
          | none ↦ ok []
          | some overrides_str ↦ ok_or bad_overrides (toml.parse_overrides overrides_str)
        ]

    abbrev pub parent : Components → Result ProjectError Components
    parent [] = err no_parent
    parent (_ ∷ dir) = ok dir

    abbrev pub validated :
        UnvalidatedProject V → Components → Components → Overrides → Project V Unit
    validated u filepath project_dir overrides = record {
      filepath = show_path filepath;
      project_dir = show_path project_dir;
      schema_version = u.schema_version;
      release_version = u.release_version;
      sdk = u.sdk;
      vendor = list_or_empty u.vendor;
      kit = list_or_empty u.kit;
      overrides = overrides;
      lock = tt;
    }

    unfoldable pub validate :
        UnvalidatedProject V → Components → Result ProjectError (Project V Unit)
    unfolding check_vendor_availability check_release_toml check_and_load_overrides
    validate u filepath = do
      project_dir ← parent filepath
      _ ← check_vendor_availability u
      _ ← check_release_toml u project_dir
      overrides ← check_and_load_overrides project_dir
      ok (validated u filepath project_dir overrides)

    -- `Project::load` from the canonical path on, before the marker files are cleaned up. A path is the
    -- list of the names on it, so it has no links and no dots to resolve.
    unfoldable pub load_project : Components → Result ProjectError (Project V Unit)
    unfolding validate
    load_project path = do
      data_read ← ok_or unreadable (lookup (show_path path) files)
      unvalidated ← ok_or bad_project_file (toml.parse_project data_read)
      validate unvalidated path

    -- `is_dir` says which directories there are.
    unfoldable pub find_and_load :
        (Components → Bool) → Components → Result ProjectError (Project V Unit)
    unfolding load_project
    find_and_load is_dir [] =
        if is_dir []
        then if is_some (lookup (show_path (text "Twoliter.toml" ∷ [])) files)
          then load_project (text "Twoliter.toml" ∷ [])
          else err not_found
        else err not_a_directory
    find_and_load is_dir (c ∷ dir) =
        let above = find_and_load is_dir dir in
        if is_dir (c ∷ dir)
        then if is_some (lookup (show_path (text "Twoliter.toml" ∷ c ∷ dir)) files)
          then load_project (text "Twoliter.toml" ∷ c ∷ dir)
          else above
        else err not_a_directory
