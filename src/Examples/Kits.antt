-- ===== src/Examples/Kits.antt =====
-- A project with two kits, of which one depends on the other, and a registry that serves them.
use twoliter.Prelude.{
  ℕ, ◌≡◌, subst, Option, none, some, List, [], ◌∷◌, Elem, Text, text, starts_with, if◌then◌else◌,
  Bool-cases, inl, inr, arith,
}
use twoliter.Prelude.Classes.{nat_eq, list_eq}
use twoliter.Project.{
  Version, Vendor, Image, Project, ProjectImage, verbatim, overridden, supported, Override,
}
use twoliter.Lock.{arm64, Registry, LockedImage, ImageMetadata, supported_kit_metadata_label}
use twoliter.Lock.Resolve.{Lock}

-- Versions are numbers of one digit.
instance abbrev pub digit_version : Version ℕ
digit_version = record { version_eq = nat_eq; show = λ n. b'0' ∷ [] }

abbrev pub core_kit : Image ℕ
core_kit = record { name = text "core"; version = 0; vendor = text "v" }

abbrev pub extra_kit : Image ℕ
extra_kit = record { name = text "extra"; version = 0; vendor = text "v" }

abbrev pub sdk_image : Image ℕ
sdk_image = record { name = text "sdk"; version = 0; vendor = text "v" }

abbrev pub vendor : Vendor
vendor = record { registry = text "r" }

-- The second kit is taken from elsewhere.
abbrev pub override : Override
override = record { name = some (text "mine"); registry = none }

abbrev pub project : Project ℕ Unit
project = record {
  filepath = text "/p/Twoliter.toml";
  project_dir = text "/p";
  schema_version = supported;
  release_version = text "1";
  sdk = some sdk_image;
  vendor = (text "v", vendor) ∷ [];
  kit = extra_kit ∷ [];
  overrides = (text "v", (text "extra", override) ∷ []) ∷ [];
  lock = tt;
}

abbrev pub core : ProjectImage ℕ
core = record { image = core_kit; vendor = verbatim (text "v") vendor }

abbrev pub extra : ProjectImage ℕ
extra = record { image = extra_kit; vendor = overridden (text "v") vendor override }

abbrev metadata_of : List (Image ℕ) → ImageMetadata ℕ
metadata_of kits = record { name = []; version = 0; sdk = sdk_image; kits = kits }

abbrev decode : Text → Option (ImageMetadata ℕ)
decode encoded =
    some
      (if starts_with encoded (text "r/core") then metadata_of [] else metadata_of (core_kit ∷ []))

-- The manifest of an image is its name, and the metadata of an image is its name too.
abbrev pub registry : Registry ℕ
registry = record {
  get_manifest = λ uri. some uri;
  get_config = λ uri. some ((supported_kit_metadata_label, uri) ∷ []);
  parse_manifest_list = λ bytes. some (record { digest = bytes; platform = some arm64 } ∷ []);
  digest_of = λ bytes. b'd' ∷ bytes;
  decode_metadata = decode;
}

abbrev locked_as : Text → Text → Text → LockedImage ℕ
locked_as name source digest = record {
  name = name;
  version = 0;
  vendor = text "v";
  source = source;
  digest = digest;
}

abbrev pub the_lock : Lock ℕ
the_lock = record {
  schema_version = supported;
  sdk = locked_as (text "sdk") (text "r/sdk:v0") (text "dr/sdk:v0");
  kit =
      locked_as (text "extra") (text "r/extra:v0") (text "dr/mine:v0")
      ∷ locked_as (text "core") (text "r/core:v0") (text "dr/core:v0")
      ∷ [];
}

-- The only kit that a kit depends on is the first one.
pub decode_kits :
    (encoded : Text) (m : ImageMetadata ℕ) (dep : Image ℕ)
    → registry.decode_metadata encoded ≡ some m
    → Elem dep m.kits
    → dep ≡ core_kit
decode_kits encoded m dep h listed = elim (Bool-cases (starts_with encoded (text "r/core"))) [
  | inl is_core ↦
      let e : m ≡ metadata_of [] = ground arith in absurd (subst (λ x. Elem dep x.kits) e listed)
  | inr other ↦
      let e : m ≡ metadata_of (core_kit ∷ []) = ground arith in
      only (subst (λ x. Elem dep x.kits) e listed)
]
  where
    only : Elem dep (core_kit ∷ []) → dep ≡ core_kit
    only (inl here) = here
    only (inr later) = elim later [ ]
