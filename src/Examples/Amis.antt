-- ===== src/Examples/Amis.antt =====
-- Tests of the validation of images, and of the waiting for one.
use twoliter.Prelude.{
  ◌≡◌, refl, zero, suc, true, false, Option, none, some, List, [], ◌∷◌, ℕ, ◌+◌, arith, Elem, Text,
  text,
}
use twoliter.Prelude.Classes.{nat_eq, list_eq}
use twoliter.Prelude.Maps.{Map}
use twoliter.Prelude.Results.{Result, ok}
use twoliter.Ami.Validate.{
  ImageDef, AmiValidationResult, Status, correct, missing, unreachable, result_in,
  validate_images_in_region, no_results, summary_from,
}
use twoliter.Ami.Validate.Statuses.{count, summary_from-count}
use twoliter.Ami.Validate.Regions.{IsStatusIn, validate_images_in_region-IsStatusIn}
use twoliter.Ami.Wait.{WaitError, Replies, wait_for_ami}
use twoliter.Ami.Wait.Rounds.{Streak, wait_for_ami_ok, wait_for_ami_end}

abbrev image : Text → ImageDef
image id = record {
  id = id;
  name = text "os";
  public = false;
  launch_permissions = none;
  ena_support = true;
  sriov_net_support = text "simple";
}

abbrev expected : List ImageDef
expected = image (text "ami-1") ∷ image (text "ami-2") ∷ []

abbrev region : Text
region = text "us-west-2"

abbrev unreached : List AmiValidationResult
unreached = result_in none region (image (text "ami-1")) ∷ []

summary_from-count_example :
    let s = summary_from unreached no_results in
    (s.correct_count ≡ count correct unreached)
    × (s.incorrect_count ≡ count Status.incorrect unreached)
    × (s.missing_count ≡ count missing unreached + count unreachable unreached)
    × (s.unreachable_count ≡ 0)
summary_from-count_example = summary_from-count unreached

abbrev described : Option (Map Text ImageDef)
described = some ((text "ami-1", image (text "ami-1")) ∷ [])

validate_images_in_region-IsStatusIn_example :
    let results = validate_images_in_region expected described region in
    ((i : ImageDef)
      → Elem i expected
      → (r : AmiValidationResult) × Elem r results
        × (r.id ≡ i.id)
        × IsStatusIn described i r.status)
    × ((r : AmiValidationResult)
        → Elem r results
        → (i : ImageDef) × Elem i expected × (r.id ≡ i.id) × IsStatusIn described i r.status)
validate_images_in_region-IsStatusIn_example =
    validate_images_in_region-IsStatusIn expected described region

-- The image is seen as available from the second round on.
abbrev replies : Replies
replies zero = some none
replies (suc n) =
    some (some (record { image_id = some (text "ami-1"); state = some (text "available") } ∷ []))

is_available : wait_for_ami replies (text "ami-1") (text "available") 2 94 ≡ some (ok tt)
unfolding wait_for_ami
is_available = refl

wait_for_ami_ok_example : (round : ℕ) × Streak replies (text "ami-1") (text "available") 2 2 round
wait_for_ami_ok_example =
    wait_for_ami_ok replies (text "ami-1") (text "available") 2 94 is_available

wait_for_ami_end_example :
    (r : Result WaitError Unit) × (wait_for_ami replies (text "ami-1") (text "available") 2 94
      ≡ some r)
wait_for_ami_end_example =
    wait_for_ami_end replies (text "ami-1") (text "available") 2 94 (omega arith) (omega arith)
