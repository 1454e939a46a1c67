-- ===== src/Variant.antt =====
-- tools/bottlerocket-variant/src/lib.rs: the parts of a variant's name.
pub mod Parts
use twoliter.Prelude.{
  Bool, true, false, Option, none, some, List, [], ◌∷◌, ◌++◌, Text, text, is_empty, split,
  if◌then◌else◌,
}
use twoliter.Prelude.Results.{Result, ok, err, ◌>>=◌}

pub record Variant : Type 0 where
  pub variant : Text
  pub platform : Text
  pub runtime : Text
  pub family : Text
  pub version : Option Text
  pub variant_flavor : Option Text

pub data PartName : Type 0 where
  platform_part : PartName
  runtime_part : PartName
  version_part : PartName
  flavor_part : PartName

pub data VariantError : Type 0 where
  variant_part : (part_name : PartName) (variant : Text) → VariantError
  variant_part_empty : (part_name : PartName) (variant : Text) → VariantError

-- `parts.next()`, and what is left of the iterator
abbrev pub next : List Text → Option Text × List Text
next [] = (none, [])
next (part ∷ parts) = (some part, parts)

-- A part that has to be there, and is not empty.
abbrev pub required : PartName → Text → Option Text → Result VariantError Text
required name variant none = err (variant_part name variant)
required name variant (some part) =
    if is_empty part then err (variant_part_empty name variant) else ok part

-- A part that is not empty if it is there.
abbrev pub optional : PartName → Text → Option Text → Result VariantError (Option Text)
optional name variant none = ok none
optional name variant (some part) =
    if is_empty part then err (variant_part_empty name variant) else ok (some part)

unfoldable pub parse : Text → Result VariantError Variant
unfolding split
parse variant =
    let (p, after_platform) = next (split b'-' variant) in
    let (r, after_runtime) = next after_platform in
    let (v, after_version) = next after_runtime in
    let (f, _) = next after_version in
    do
      platform ← required platform_part variant p
      runtime ← required runtime_part variant r
      version ← optional version_part variant v
      flavor ← optional flavor_part variant f
      ok (record {
        variant = variant;
        platform = platform;
        runtime = runtime;
        family = platform ++ b'-' ∷ runtime;
        version = version;
        variant_flavor = flavor;
      })
