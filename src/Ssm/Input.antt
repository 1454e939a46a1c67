-- ===== src/Ssm/Input.antt =====
-- `parse_ami_input` of tools/pubsys/src/aws/ssm/mod.rs: the images of the requested regions.
pub mod Regions
use twoliter.Prelude.{◌≡◌, Bool, not, Option, none, some, List, [], ◌∷◌, keep, Text, is_some}
use twoliter.Prelude.Classes.{nat_eq, list_eq}
use twoliter.Prelude.Maps.{Map, lookup, insert, remove, collect_set}
use twoliter.Prelude.Results.{Result, ok, err}
use twoliter.Ami.{Image}
use twoliter.Ssm.{Region}

pub data InputError : Type 0 where
  open_failed : InputError
  not_deserialized : InputError
  empty_input : InputError
  unknown_regions : List Text → InputError

-- `requested.difference(&known)`
abbrev pub unknown_of : List Text → Map Text Image → List Text
unknown_of regions input = keep (λ r. not (is_some (lookup r input))) (collect_set regions)

-- The images are taken out of the input.
unfoldable pub take_regions :
    List Text → Map Text Image → Map Region Image → Result InputError (Map Region Image)
unfolding lookup insert remove
take_regions [] input amis = ok amis
take_regions (name ∷ regions) input amis = elim (lookup name input) [
  | none ↦ err (unknown_regions (name ∷ []))
  | some image ↦ take_regions regions (remove name input) (insert name image amis)
]

-- On the images of the file, which are not in the sources: none if it cannot be opened, and none inside
-- if it cannot be deserialized.
unfoldable pub parse_ami_input :
    List Text → Option (Option (Map Text Image)) → Result InputError (Map Region Image)
unfolding take_regions collect_set lookup
parse_ami_input regions none = err open_failed
parse_ami_input regions (some none) = err not_deserialized
parse_ami_input regions (some (some [])) = err empty_input
parse_ami_input regions (some (some (entry ∷ input))) = elim (unknown_of regions (entry ∷ input)) [
  | r ∷ rs ↦ err (unknown_regions (r ∷ rs))
  | [] ↦ take_regions regions (entry ∷ input) []
]
