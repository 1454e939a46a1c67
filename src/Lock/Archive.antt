-- ===== src/Lock/Archive.antt =====
-- twoliter/src/project/lock/archive.rs: an image is pulled into a cache, and its layers are unpacked
-- into a directory. A directory is the map from the names of its files to their contents.
pub mod Cached
use twoliter.Prelude.{
  ◌⊎◌, inl, inr, ℕ, Bool, true, false, Option, none, some, List, [], ◌∷◌, ◌++◌, map, Text, text,
  is_some, ◌==◌ as eq_ℕ, if◌then◌else◌,
}
use twoliter.Prelude.Classes.{◌==◌, nat_eq, list_eq}
use twoliter.Prelude.Maps.{Map, lookup, insert}

abbrev pub Directory : Type 0
Directory = Map Text Text

-- The directories by their paths.
pub record Disk : Type 0 where
  pub directories : Map Text Directory

pub record OciArchive : Type 0 where
  pub registry : Text
  pub repository : Text
  pub digest : Text
  pub cache_dir : Text

-- What is not in the sources: `pull_oci_image`, which fills the archive's directory or fails,
-- with what it leaves there;
-- `serde_json` on an index, as the digests of its manifests, and on a manifest, as the digests of its
-- layers; and `tar`, which unpacks a layer over what a directory holds.
pub record ArchiveTools : Type 0 where
  pub pull_oci_image : Text → Bool × Directory
  pub parse_index : Text → Option (List Text)
  pub parse_layout : Text → Option (List Text)
  pub unpack : Text → Directory → Option Directory

pub data ArchiveError : Type 0 where
  pull_failed : ArchiveError
  no_index : ArchiveError
  bad_index : ArchiveError
  empty_image : ArchiveError
  no_layout : ArchiveError
  bad_layout : ArchiveError
  no_layer : ArchiveError
  bad_layer : ArchiveError

-- The result of a step on the disk, and the disk that it leaves.
pub data Finished : Type 0 where
  done : Finished
  failed : ArchiveError → Finished

-- `replace(':', with)`
unfoldable pub replace_colon : ℕ → Text → Text
replace_colon with_char [] = []
replace_colon with_char (c ∷ s) = (if eq_ℕ c b':' then with_char else c) ∷ replace_colon with_char s

unfoldable pub archive_path : OciArchive → Text
unfolding replace_colon
archive_path a = a.cache_dir ++ text "/" ++ replace_colon b'-' a.digest

abbrev pub archive_uri : OciArchive → Text
archive_uri a = a.registry ++ text "/" ++ a.repository ++ text "@" ++ a.digest

abbrev pub blob_name : Text → Text
blob_name digest = text "blobs/" ++ replace_colon b'/' digest

abbrev pub with_directory : Text → Directory → Disk → Disk
with_directory path d disk = record { directories = insert path d disk.directories }

module _ (tools : ArchiveTools) (a : OciArchive) where
  unfoldable pub pull_image : Disk → Finished × Disk
  unfolding archive_path insert lookup
  pull_image disk =
      if is_some (lookup (archive_path a) disk.directories)
      then (done, disk)
      else let (pulled, d) = tools.pull_oci_image (archive_uri a) in
        (if pulled then done else failed pull_failed, with_directory (archive_path a) d disk)

  -- The layers, each over those before it: what the directory holds in the end, and how it ended.
  unfoldable pub unpack_each : Directory → List Text → Directory → Finished × Directory
  unfolding lookup
  unpack_each archive [] d = (done, d)
  unpack_each archive (layer ∷ layers) d = elim (lookup (blob_name layer) archive) [
    | none ↦ (failed no_layer, d)
    | some blob ↦ elim (tools.unpack blob d) [
      | none ↦ (failed bad_layer, d)
      | some d' ↦ unpack_each archive layers d'
    ]
  ]

  -- The layers of the archive.
  unfoldable pub layers_of : Directory → ArchiveError ⊎ List Text
  unfolding lookup
  layers_of archive = elim (lookup (text "index.json") archive) [
    | none ↦ inl no_index
    | some index_bytes ↦ elim (tools.parse_index index_bytes) [
      | none ↦ inl bad_index
      | some [] ↦ inl empty_image
      | some (digest ∷ _) ↦ elim (lookup (blob_name digest) archive) [
        | none ↦ inl no_layout
        | some manifest_bytes ↦ elim (tools.parse_layout manifest_bytes) [
          | none ↦ inl bad_layout
          | some layers ↦ inr layers
        ]
      ]
    ]
  ]

  abbrev pub directory_at : Text → Disk → Directory
  directory_at path disk = elim (lookup path disk.directories) [ none ↦ [] | some d ↦ d ]

  -- The digest is recorded when all layers are unpacked.
  abbrev pub record_digest : Finished × Directory → Finished × Directory
  record_digest (failed e, d) = (failed e, d)
  record_digest (done, d) = (done, insert (text "digest") a.digest d)

  -- What follows the test of the digest file, on the archive.
  abbrev pub unpacked : Directory → Finished × Directory
  unpacked archive = elim (layers_of archive) [
    | inl e ↦ (failed e, [])
    | inr layers ↦ record_digest (unpack_each archive layers [])
  ]

  abbrev pub has_digest : Text → Disk → Bool
  has_digest path disk = elim (lookup (text "digest") (directory_at path disk)) [
    | none ↦ false
    | some digest ↦ digest == a.digest
  ]

  -- The directory is emptied first.
  unfoldable pub unpack_layers : Text → Disk → Finished × Disk
  unfolding archive_path insert lookup layers_of unpack_each
  unpack_layers path disk =
      let cleared = with_directory path [] disk in
      let (r, d) = unpacked (directory_at (archive_path a) cleared) in
      if has_digest path disk then (done, disk) else (r, with_directory path d cleared)
