-- ===== src/Project/Validate/Nearest.antt =====
-- twoliter/src/project/mod.rs: `Project::find_and_load` loads the project file of the nearest directory
-- that has one.
use twoliter.Prelude.{◌≡◌, refl, Bool, true, false, [], ◌∷◌, ◌++◌, Text, text, is_some}
use twoliter.Prelude.Classes.{nat_eq, list_eq}
use twoliter.Prelude.Maps.{Map, lookup}
use twoliter.Project.Validate.{Toml, Components, show_path, load_project, find_and_load}

module _ {V : Type 0} (toml : Toml V) (files : Map Text Text) (is_dir : Components → Bool) where
  abbrev pub has_project : Components → Bool
  has_project dir = is_some (lookup (show_path (text "Twoliter.toml" ∷ dir)) files)

  -- All directories on the way from an inner one to an outer one exist and have no project file.
  abbrev pub IsBareDown : Components → Components → Type 0
  IsBareDown [] outer = Unit
  IsBareDown (c ∷ inner) outer =
      (is_dir (c ∷ inner ++ outer) ≡ true)
      × (has_project (c ∷ inner ++ outer) ≡ false)
      × IsBareDown inner outer

  find_here :
      (outer : Components)
      → is_dir outer ≡ true
      → has_project outer ≡ true
      → find_and_load toml files is_dir outer
        ≡ load_project toml files (text "Twoliter.toml" ∷ outer)
  unfolding find_and_load
  find_here [] d h = rw (d, h) refl
  find_here (c ∷ outer) d h = rw (d, h) refl

  -- `find_and_load` gives what loading the project file of the nearest directory gives, whether that
  -- succeeds or not: the one of an outer directory when all directories from the first one on the
  -- way to it exist and have none.
  pub find_and_load_nearest :
      (inner outer : Components)
      → IsBareDown inner outer
      → is_dir outer ≡ true
      → has_project outer ≡ true
      → find_and_load toml files is_dir (inner ++ outer)
        ≡ load_project toml files (text "Twoliter.toml" ∷ outer)
  unfolding find_and_load
  find_and_load_nearest [] outer _ d h = find_here outer d h
  find_and_load_nearest (c ∷ inner) outer (e, f, bare) d h =
      rw (e, f) (find_and_load_nearest inner outer bare d h)
