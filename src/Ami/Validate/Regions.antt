-- ===== src/Ami/Validate/Regions.antt =====
-- tools/pubsys/src/aws/validate_ami/mod.rs: the results of the images of a region.
use twoliter.Prelude.{
  ◌≡◌, refl, sym, subst, ap, ◌∙◌, true, Option, none, some, List, Bool-cases, inl, inr, Elem,
  Elem-map, Elem-map_of, map, Text,
}
use twoliter.Prelude.Classes.{◌==◌, nat_eq, list_eq}
use twoliter.Prelude.Maps.{Map, lookup, collect_set-Elem}
use twoliter.Ami.Validate.{
  ImageDef, AmiValidationResult, result_eq, Status, correct, incorrect, missing, unreachable,
  image_def_eq, status_of, new_result, expected_of, result_in, validate_images_in_region,
}

-- The status that an image is to have: whether EC2 described it as expected.
abbrev pub IsStatus : ImageDef → Option ImageDef → Status → Type 0
IsStatus expected described correct = described ≡ some expected
IsStatus expected described incorrect = (a : ImageDef) × (described ≡ some a) × (a ≡ expected → ⊥)
IsStatus expected described missing = described ≡ none
IsStatus expected described unreachable = ⊥

status_of-IsStatus :
    (expected : ImageDef) (described : Option ImageDef)
    → IsStatus expected described (status_of expected (some described))
status_of-IsStatus expected none = refl
status_of-IsStatus expected (some a) = elim (Bool-cases (a == expected)) [
  | inl same ↦ rw same (ap some ((image_def_eq.eqb_iff a expected).0 same))
  | inr other ↦ rw other (
    a,
    refl,
    λ e. let same : (a == expected) ≡ true = (image_def_eq.eqb_iff a expected).1 e in cc,
  )
]

-- The status of an image, when the images of the region were described, and when they could not be.
abbrev pub IsStatusIn : Option (Map Text ImageDef) → ImageDef → Status → Type 0
IsStatusIn none i status = status ≡ unreachable
IsStatusIn (some actual) i status = IsStatus (expected_of i) (lookup i.id actual) status

result_in-IsStatusIn :
    (actual : Option (Map Text ImageDef)) (region : Text) (i : ImageDef)
    → IsStatusIn actual i (result_in actual region i).status
unfolding new_result
result_in-IsStatusIn none region i = refl
result_in-IsStatusIn (some actual) region i =
    status_of-IsStatus (expected_of i) (lookup i.id actual)

-- The results of a region are those of its expected images, one for each, and each says whether EC2
-- described the image as expected, otherwise, or not at all, or the region could not be reached. Of a
-- public image the launch permissions are expected to be none.
pub validate_images_in_region-IsStatusIn :
    (expected : List ImageDef) (actual : Option (Map Text ImageDef)) (region : Text)
    → let results = validate_images_in_region expected actual region in
      ((i : ImageDef)
        → Elem i expected
        → (r : AmiValidationResult) × Elem r results × (r.id ≡ i.id) × IsStatusIn actual i r.status)
      × ((r : AmiValidationResult)
          → Elem r results
          → (i : ImageDef) × Elem i expected × (r.id ≡ i.id) × IsStatusIn actual i r.status)
unfolding validate_images_in_region new_result
validate_images_in_region-IsStatusIn expected actual region = (
  λ i m. (
    result_in actual region i,
    (collect_set-Elem (result_in actual region i) (map (result_in actual region) expected)).1
        (Elem-map (result_in actual region) i expected m),
    result_id i actual,
    result_in-IsStatusIn actual region i,
  ),
  λ r m.
      let (i, i_in, e) =
        Elem-map_of (result_in actual region) r expected
          ((collect_set-Elem r (map (result_in actual region) expected)).0 m) in
      (
        i,
        i_in,
        ap (λ x. x.id) e ∙ result_id i actual,
        subst (λ x. IsStatusIn actual i x.status) (sym e) (result_in-IsStatusIn actual region i),
      ),
)
  where
    result_id :
        (i : ImageDef) (actual : Option (Map Text ImageDef)) → (result_in actual region i).id ≡ i.id
    result_id i none = refl
    result_id i (some a) = refl
