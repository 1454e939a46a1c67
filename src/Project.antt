-- ===== src/Project.antt =====
-- twoliter/src/project/mod.rs, twoliter/src/project/vendor.rs and twoliter/src/docker/image.rs: a
-- project, its vendors and overrides, and the images that it depends on. Strings are texts.
pub mod Identifier
pub mod Vendors
pub mod Validate
use twoliter.Prelude.{
  Bool, true, false, ◌≡◌, refl, ◌⊎◌, inl, inr, Option, none, some, List, [], ◌∷◌, ◌++◌, Text, text,
  is_empty,
}
use twoliter.Prelude.Classes.{Eq, eq_by, nat_eq, list_eq, pair_eq, option_eq, sum_eq}
use twoliter.Prelude.Maps.{Map, lookup}
use twoliter.Prelude.Results.{Result, ok, err, ◌>>=◌, ok_or}

-- `semver::Version`: equality and the form that is written.
pub record Version (V : Type 0) : Type 0 where
  pub version_eq : Eq V
  pub show : V → Text

pub record Vendor : Type 0 where
  pub registry : Text

pub record Override : Type 0 where
  pub name : Option Text
  pub registry : Option Text

pub record Image (V : Type 0) : Type 0 where
  pub name : Text
  pub version : V
  pub vendor : Text

pub record ImageUri : Type 0 where
  pub registry : Option Text
  pub repo : Text
  pub tag : Text

pub data ArtifactVendor : Type 0 where
  verbatim : (vendor_name : Text) (vendor : Vendor) → ArtifactVendor
  overridden :
      (original_vendor_name : Text) (original_vendor : Vendor) (override : Override)
      → ArtifactVendor

pub record ProjectImage (V : Type 0) : Type 0 where
  pub image : Image V
  pub vendor : ArtifactVendor

-- `SchemaVersion<1>`: a value of it stands for the one version that is accepted.
pub data SchemaVersion : Type 0 where
  supported : SchemaVersion

-- `overrides` is keyed by the names of vendors, then by those of images.
pub record Project (V L : Type 0) : Type 0 where
  pub filepath : Text
  pub project_dir : Text
  pub schema_version : SchemaVersion
  pub release_version : Text
  pub sdk : Option (Image V)
  pub vendor : Map Text Vendor
  pub kit : List (Image V)
  pub overrides : Map Text (Map Text Override)
  pub lock : L

unfoldable pub uri : ImageUri → Text
uri u = elim u.registry [
  | none ↦ u.repo ++ text ":" ++ u.tag
  | some registry ↦ registry ++ text "/" ++ u.repo ++ text ":" ++ u.tag
]

abbrev pub or_default : {A : Type 0} → Option A → A → A
or_default none d = d
or_default (some a) d = a

abbrev pub registry_of : ArtifactVendor → Text
registry_of (verbatim _ vendor) = vendor.registry
registry_of (overridden _ original override) = or_default override.registry original.registry

abbrev pub repo_for : {V : Type 0} → ArtifactVendor → Image V → Text
repo_for (verbatim _ _) image = image.name
repo_for (overridden _ _ override) image = or_default override.name image.name

abbrev pub vendor_name_of : ArtifactVendor → Text
vendor_name_of (verbatim name _) = name
vendor_name_of (overridden name _ _) = name

abbrev pub vendor_name : {V : Type 0} → ProjectImage V → Text
vendor_name i = vendor_name_of i.vendor

module _ {V : Type 0} ⦃v : Version V⦄ where
  abbrev pub image_uri_for : ArtifactVendor → Image V → ImageUri
  image_uri_for vendor image = record {
    registry = some (registry_of vendor);
    repo = repo_for vendor image;
    tag = text "v" ++ v.show image.version;
  }

  unfoldable pub original_source_uri : ProjectImage V → ImageUri
  original_source_uri i = elim i.vendor [
    | overridden name original _ ↦ image_uri_for (verbatim name original) i.image
    | verbatim name vendor ↦ image_uri_for (verbatim name vendor) i.image
  ]

  unfoldable pub project_image_uri : ProjectImage V → ImageUri
  project_image_uri i = record {
    registry = some (registry_of i.vendor);
    repo = repo_for i.vendor i.image;
    tag = text "v" ++ v.show i.image.version;
  }

module _ {V L : Type 0} where
  abbrev pub override_for : Project V L → Image V → Option Override
  override_for p image = elim (lookup image.vendor p.overrides) [
    | none ↦ none
    | some vendor_overrides ↦ lookup image.name vendor_overrides
  ]

  unfoldable pub vendor_for : Project V L → Image V → Option ArtifactVendor
  vendor_for p image = elim (lookup image.vendor p.vendor) [
    | none ↦ none
    | some vendor ↦ elim (override_for p image) [
      | some override ↦ some (overridden image.vendor vendor override)
      | none ↦ some (verbatim image.vendor vendor)
    ]
  ]

  unfoldable pub as_project_image : Project V L → Image V → Option (ProjectImage V)
  unfolding vendor_for
  as_project_image p image = elim (vendor_for p image) [
    | none ↦ none
    | some vendor ↦ some (record { image = image; vendor = vendor })
  ]

  abbrev pub collect_images : Project V L → List (Image V) → Option (List (ProjectImage V))
  collect_images p [] = some []
  collect_images p (image ∷ images) = elim (as_project_image p image) [
    | none ↦ none
    | some i ↦ elim (collect_images p images) [ none ↦ none | some rest ↦ some (i ∷ rest) ]
  ]

  unfoldable pub direct_kit_deps : Project V L → Option (List (ProjectImage V))
  unfolding as_project_image
  direct_kit_deps p = collect_images p p.kit

  -- `None` where the project names no SDK, and a failure where it names one of no known vendor
  unfoldable pub direct_sdk_image_dep : Project V L → Option (Option (ProjectImage V))
  unfolding as_project_image
  direct_sdk_image_dep p = elim p.sdk [ none ↦ none | some sdk ↦ some (as_project_image p sdk) ]

unfoldable pub with_new_lock : {V L N : Type 0} → Project V L → N → Project V N
with_new_lock p new_lock = record {
  filepath = p.filepath;
  project_dir = p.project_dir;
  schema_version = p.schema_version;
  release_version = p.release_version;
  sdk = p.sdk;
  vendor = p.vendor;
  kit = p.kit;
  overrides = p.overrides;
  lock = new_lock;
}

-- The derived equalities, those of the tuples of the fields.
abbrev pub VendorParts : Type 0
VendorParts = (Text × Text) ⊎ ((Text × Text) × (Option Text × Option Text))

abbrev pub vendor_parts : ArtifactVendor → VendorParts
vendor_parts (verbatim n v) = inl (n, v.registry)
vendor_parts (overridden n v o) = inr ((n, v.registry), (o.name, o.registry))

abbrev pub vendor_of_parts : VendorParts → ArtifactVendor
vendor_of_parts (inl (n, r)) = verbatim n (record { registry = r })
vendor_of_parts (inr ((n, r), (other_name, other_registry))) =
    overridden n (record { registry = r }) (record { name = other_name; registry = other_registry })

pub vendor_of_parts-vendor_parts : (a : ArtifactVendor) → vendor_of_parts (vendor_parts a) ≡ a
vendor_of_parts-vendor_parts (verbatim n v) = refl
vendor_of_parts-vendor_parts (overridden n v o) = refl

instance abbrev pub vendor_eq : Eq ArtifactVendor
vendor_eq = eq_by vendor_parts vendor_of_parts vendor_of_parts-vendor_parts sum_eq

abbrev pub ImageParts : Type 0 → Type 0
ImageParts V = (Text × V) × (Text × ArtifactVendor)

abbrev pub image_parts : {V : Type 0} → ProjectImage V → ImageParts V
image_parts i = ((i.image.name, i.image.version), (i.image.vendor, i.vendor))

abbrev pub image_of_parts : {V : Type 0} → ImageParts V → ProjectImage V
image_of_parts ((n, w), (m, a)) = record {
  image = record { name = n; version = w; vendor = m };
  vendor = a;
}

instance abbrev pub project_image_eq : {V : Type 0} ⦃v : Version V⦄ → Eq (ProjectImage V)
project_image_eq ⦃v⦄ =
    eq_by image_parts image_of_parts (λ i. refl) (pair_eq ⦃e = pair_eq ⦃f = v.version_eq⦄⦄)
