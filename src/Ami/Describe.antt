-- ===== src/Ami/Describe.antt =====
-- tools/pubsys/src/aws/validate_ami/ami.rs and tools/pubsys/src/aws/ami/launch_permissions.rs: the
-- images of a region as EC2 describes them, with the launch permissions of those not to be public.
use twoliter.Prelude.{Bool, true, false, Option, none, some, List, [], ◌∷◌, Text}
use twoliter.Prelude.Classes.{nat_eq, list_eq}
use twoliter.Prelude.Maps.{Map, lookup, insert}
use twoliter.Prelude.Results.{Result, ok, err, ◌>>=◌, ok_or}
use twoliter.Ami.{LaunchPermissionDef}
use twoliter.Ami.Validate.{ImageDef}

-- `LaunchPermission` of the AWS SDK
pub record LaunchPermission : Type 0 where
  pub group : Option Text
  pub user_id : Option Text
  pub organization_arn : Option Text
  pub organizational_unit_arn : Option Text

-- `Image` of the AWS SDK
pub record Ec2Image : Type 0 where
  pub image_id : Option Text
  pub name : Option Text
  pub public : Option Bool
  pub ena_support : Option Bool
  pub sriov_net_support : Option Text

-- What EC2 replies: the launch permissions of an image, or none if the request fails.
abbrev pub Permissions : Type 0
Permissions = Text → Option (List LaunchPermission)

pub data DescribeError : Type 0 where
  describe_images : DescribeError
  missing_field : DescribeError
  missing_expected_public : Text → DescribeError
  get_launch_permissions : Text → DescribeError

unfoldable pub permission_from : LaunchPermission → Option LaunchPermissionDef
permission_from p = elim p.group [
  | some g ↦ elim p.user_id [
    | some _ ↦ none
    | none ↦ elim p.organization_arn [
      | some _ ↦ none
      | none ↦ elim p.organizational_unit_arn [
        | some _ ↦ none
        | none ↦ some (LaunchPermissionDef.group g)
      ]
    ]
  ]
  | none ↦ elim p.user_id [
    | some u ↦ elim p.organization_arn [
      | some _ ↦ none
      | none ↦ elim p.organizational_unit_arn [
        | some _ ↦ none
        | none ↦ some (LaunchPermissionDef.user_id u)
      ]
    ]
    | none ↦ elim p.organization_arn [
      | some o ↦ elim p.organizational_unit_arn [
        | some _ ↦ none
        | none ↦ some (LaunchPermissionDef.organization_arn o)
      ]
      | none ↦ elim p.organizational_unit_arn [
        | some u ↦ some (LaunchPermissionDef.organizational_unit_arn u)
        | none ↦ none
      ]
    ]
  ]
]

-- The launch permissions, unless one of them is not valid.
unfoldable pub permissions_from : List LaunchPermission → Option (List LaunchPermissionDef)
unfolding permission_from
permissions_from [] = some []
permissions_from (p ∷ ps) = elim (permission_from p) [
  | none ↦ none
  | some d ↦ elim (permissions_from ps) [ none ↦ none | some ds ↦ some (d ∷ ds) ]
]

unfoldable pub launch_permissions_of : Permissions → Text → Option (List LaunchPermissionDef)
unfolding permissions_from
launch_permissions_of permissions id = elim (permissions id) [
  | none ↦ none
  | some ps ↦ permissions_from ps
]

abbrev pub or_empty : Option Text → Text
or_empty none = []
or_empty (some s) = s

abbrev pub or_false : Option Bool → Bool
or_false none = false
or_false (some b) = b

unfoldable pub image_def_from : Ec2Image → Option (List LaunchPermissionDef) → ImageDef
image_def_from i permissions = record {
  id = or_empty i.image_id;
  name = or_empty i.name;
  public = or_false i.public;
  launch_permissions = permissions;
  ena_support = or_false i.ena_support;
  sriov_net_support = or_empty i.sriov_net_support;
}

-- The launch permissions are asked for if the image is not expected to be public.
abbrev pub permissions_for :
    Permissions → Text → ImageDef → Result DescribeError (Option (List LaunchPermissionDef))
permissions_for permissions id expected = elim expected.public [
  | true ↦ ok none
  | false ↦ elim (launch_permissions_of permissions id) [
    | none ↦ err (get_launch_permissions id)
    | some ds ↦ ok (some ds)
  ]
]

module _ (permissions : Permissions) (expected_images : Map Text ImageDef) where
  unfoldable pub store_images :
      List Ec2Image → Map Text ImageDef → Result DescribeError (Map Text ImageDef)
  unfolding launch_permissions_of image_def_from lookup insert
  store_images [] images = ok images
  store_images (i ∷ is) images = ok_or missing_field i.image_id >>= λ image_id.
      ok_or (missing_expected_public image_id) (lookup image_id expected_images) >>= λ expected.
      permissions_for permissions image_id expected >>= λ launch_permissions.
      store_images is (insert image_id (image_def_from i launch_permissions) images)

  -- The pages of the reply, none for one that fails.
  unfoldable pub store_pages :
      List (Option (List Ec2Image)) → Map Text ImageDef → Result DescribeError (Map Text ImageDef)
  unfolding store_images
  store_pages [] images = ok images
  store_pages (none ∷ pages) images = err describe_images
  store_pages (some is ∷ pages) images =
      store_images is images >>= λ stored. store_pages pages stored

  unfoldable pub describe_images_in_region :
      List (Option (List Ec2Image)) → Result DescribeError (Map Text ImageDef)
  unfolding store_pages
  describe_images_in_region pages = store_pages pages []

-- The expected images by their ids.
unfoldable pub images_by_id : List ImageDef → Map Text ImageDef → Map Text ImageDef
unfolding insert
images_by_id [] m = m
images_by_id (i ∷ is) m = images_by_id is (insert i.id i m)
