-- ===== src/Lock.antt =====
-- twoliter/src/project/lock/image.rs: the resolution of one image. What the remote registry answers
-- and the parsers of the formats it serves are a parameter, one snapshot for a whole run.
pub mod Resolve
pub mod Load
pub mod Markers
pub mod Archive
pub mod Fetch
pub mod Extract
use twoliter.Prelude.{
  ℕ, Bool, true, false, ◌≡◌, refl, Option, none, some, List, [], ◌∷◌, ◌++◌, Text, text, ltb,
  if◌then◌else◌, starts_with, parse_unsigned,
}
use twoliter.Prelude.Classes.{◌==◌, nat_eq, list_eq}
use twoliter.Prelude.Maps.{Map, lookup}
use twoliter.Prelude.Results.{Result, ok, err, ◌>>=◌, ok_or}
use twoliter.Project.{
  Version, Image, ImageUri, ProjectImage, uri, original_source_uri, project_image_uri, vendor_name,
}

pub record LockedImage (V : Type 0) : Type 0 where
  pub name : Text
  pub version : V
  pub vendor : Text
  pub source : Text
  pub digest : Text

pub record ImageMetadata (V : Type 0) : Type 0 where
  pub name : Text
  pub version : V
  pub sdk : Image V
  pub kits : List (Image V)

-- `DockerArchitecture` of tools/oci-cli-wrapper/src/lib.rs
pub data DockerArchitecture : Type 0 where
  amd64 : DockerArchitecture
  arm64 : DockerArchitecture

-- A manifest of a manifest list, with the architecture of its platform.
pub record ManifestView : Type 0 where
  pub digest : Text
  pub platform : Option DockerArchitecture

-- `get_manifest` and `get_config` of oci-cli-wrapper's `ImageTool`, the latter as the labels that its
-- view holds; `serde_json` on a manifest list; SHA-256 with base64; base64 with JSON on metadata.
pub record Registry (V : Type 0) : Type 0 where
  pub get_manifest : Text → Option Text
  pub get_config : Text → Option (Map Text Text)
  pub parse_manifest_list : Text → Option (List ManifestView)
  pub digest_of : Text → Text
  pub decode_metadata : Text → Option (ImageMetadata V)

pub data Relation : Type 0 where
  an_older : Relation
  a_newer : Relation
  a_different : Relation

pub data LockError (V : Type 0) : Type 0 where
  no_vendor : LockError V
  no_manifest : LockError V
  bad_manifest : LockError V
  no_registry : LockError V
  no_config : LockError V
  unsupported_metadata : (kit_version : Text) (relation : Relation) → LockError V
  not_a_kit : LockError V
  no_metadata : LockError V
  mismatched_metadata : LockError V
  bad_metadata : LockError V
  multiple_versions : (name vendor : Text) (left right : V) → LockError V
  multiple_sdks : LockError V
  no_sdk : LockError V
  no_explicit_sdk : LockError V
  no_lock_file : LockError V
  bad_lock_file : LockError V
  lock_changed : LockError V

abbrev pub kit_metadata_label_prefix : Text
kit_metadata_label_prefix = text "dev.bottlerocket.kit."

abbrev pub supported_kit_metadata_version : Text
supported_kit_metadata_version = text "v2"

abbrev pub supported_kit_metadata_label : Text
supported_kit_metadata_label = kit_metadata_label_prefix ++ supported_kit_metadata_version

abbrev pub drop_text : Text → Text → Text
drop_text [] s = s
drop_text (p ∷ ps) [] = []
drop_text (p ∷ ps) (c ∷ s) = drop_text ps s

-- `trim_start_matches`, which takes the prefix off as often as it is there, on fuel: each round
-- takes off at least one character of a prefix that is not empty.
abbrev pub trim_start_matches_in : List ℕ → Text → Text → Text
trim_start_matches_in [] prefix s = s
trim_start_matches_in (_ ∷ fuel) prefix s =
    let rest = trim_start_matches_in fuel prefix (drop_text prefix s) in
    if starts_with s prefix then rest else s

abbrev pub trim_start_matches : Text → Text → Text
trim_start_matches prefix s = trim_start_matches_in s prefix s

abbrev pub max_u64 : ℕ
max_u64 = 18446744073709551615

unfoldable pub compare_version_strs : Text → Text → Relation
unfolding parse_unsigned
compare_version_strs lhs rhs = elim (parse_unsigned max_u64 (trim_start_matches (text "v") lhs)) [
  | none ↦ a_different
  | some l ↦ elim (parse_unsigned max_u64 (trim_start_matches (text "v") rhs)) [
    | none ↦ a_different
    | some r ↦ if ltb l r then an_older else a_newer
  ]
]

abbrev pub kit_label_of : Map Text Text → Option Text
kit_label_of [] = none
kit_label_of ((label, _) ∷ labels) =
    let rest = kit_label_of labels in
    if starts_with label kit_metadata_label_prefix then some label else rest

abbrev pub manifest_uri : Text → Text → ManifestView → Text
manifest_uri registry repo manifest = registry ++ text "/" ++ repo ++ text "@" ++ manifest.digest

module _ {V : Type 0} where
  unfoldable pub extract_encoded_kit_metadata : Map Text Text → Result (LockError V) Text
  unfolding lookup starts_with compare_version_strs
  extract_encoded_kit_metadata labels = elim (lookup supported_kit_metadata_label labels) [
    | some encoded_metadata ↦ ok encoded_metadata
    | none ↦ elim (kit_label_of labels) [
      | some kit_label ↦
          let kit_version = trim_start_matches kit_metadata_label_prefix kit_label in
          err (
            unsupported_metadata kit_version
              (compare_version_strs kit_version supported_kit_metadata_version))
      | none ↦ err not_a_kit
    ]
  ]

  -- `EncodedKitMetadata::try_from_image`
  unfoldable pub try_from_image : Registry V → Text → Result (LockError V) Text
  unfolding extract_encoded_kit_metadata
  try_from_image r image_uri = do
    config ← ok_or no_config (r.get_config image_uri)
    extract_encoded_kit_metadata config

  unfoldable pub same_in_all :
      Registry V → Text → Text → Text → List ManifestView → Result (LockError V) Text
  unfolding try_from_image
  same_in_all r registry repo canonical [] = ok canonical
  same_in_all r registry repo canonical (m ∷ ms) =
      let rest = same_in_all r registry repo canonical ms in
      do
        kit_metadata ← try_from_image r (manifest_uri registry repo m)
        if kit_metadata == canonical then rest else err mismatched_metadata

  unfoldable pub canonical_metadata :
      Registry V → Text → Text → List ManifestView → Result (LockError V) Text
  unfolding same_in_all
  canonical_metadata r registry repo [] = err no_metadata
  canonical_metadata r registry repo (m ∷ ms) = do
    canonical ← try_from_image r (manifest_uri registry repo m)
    same_in_all r registry repo canonical ms

module _ {V : Type 0} ⦃v : Version V⦄ where
  unfoldable pub calculate_digest : Registry V → ProjectImage V → Result (LockError V) Text
  calculate_digest r i = do
    manifest_bytes ← ok_or no_manifest (r.get_manifest (uri (project_image_uri i)))
    ok (r.digest_of manifest_bytes)

  unfoldable pub get_manifest :
      Registry V → ProjectImage V → Result (LockError V) (List ManifestView)
  get_manifest r i = do
    manifest_bytes ← ok_or no_manifest (r.get_manifest (uri (project_image_uri i)))
    ok_or bad_manifest (r.parse_manifest_list manifest_bytes)

  abbrev pub locked_image : ProjectImage V → Text → LockedImage V
  locked_image i digest = record {
    name = i.image.name;
    version = i.image.version;
    vendor = vendor_name i;
    source = uri (original_source_uri i);
    digest = digest;
  }

  -- `ImageResolver::resolve` where the retrieval of metadata is skipped
  unfoldable pub resolve_without_metadata :
      Registry V → ProjectImage V → Result (LockError V) (LockedImage V)
  unfolding calculate_digest get_manifest
  resolve_without_metadata r i = do
    manifests ← get_manifest r i
    registry ← ok_or no_registry (project_image_uri i).registry
    digest ← calculate_digest r i
    ok (locked_image i digest)

  -- `ImageResolver::resolve` of a kit
  unfoldable pub resolve_image :
      Registry V → ProjectImage V → Result (LockError V) (LockedImage V × ImageMetadata V)
  unfolding calculate_digest get_manifest canonical_metadata
  resolve_image r i = do
    manifests ← get_manifest r i
    registry ← ok_or no_registry (project_image_uri i).registry
    digest ← calculate_digest r i
    canonical ← canonical_metadata r registry (project_image_uri i).repo manifests
    metadata ← ok_or bad_metadata (r.decode_metadata canonical)
    ok (locked_image i digest, metadata)
