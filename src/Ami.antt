-- ===== src/Ami.antt =====
-- tools/pubsys/src/aws/ami: images, as they are saved and as EC2 describes them.
pub mod Wait
pub mod Validate
pub mod Describe
use twoliter.Prelude.{Bool, false, Option, none, some, List, [], ◌∷◌, Text}
use twoliter.Prelude.Results.{Result, ok, err}

pub data LaunchPermissionDef : Type 0 where
  group : Text → LaunchPermissionDef
  user_id : Text → LaunchPermissionDef
  organization_arn : Text → LaunchPermissionDef
  organizational_unit_arn : Text → LaunchPermissionDef

pub record Image : Type 0 where
  pub id : Text
  pub name : Text
  pub public : Option Bool
  pub launch_permissions : Option (List LaunchPermissionDef)

pub data AmiPublicError : Type 0 where
  describe_images : AmiPublicError
  no_such_image : AmiPublicError
  too_many_images : AmiPublicError

-- Whether an image is public, from the reply to `describe_images`: the images that it names, each with
-- its `public` field.
unfoldable pub ami_is_public : Option (List (Option Bool)) → Result AmiPublicError Bool
ami_is_public none = err describe_images
ami_is_public (some []) = err no_such_image
ami_is_public (some (none ∷ [])) = ok false
ami_is_public (some (some public ∷ [])) = ok public
ami_is_public (some (_ ∷ _ ∷ _)) = err too_many_images
