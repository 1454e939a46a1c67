-- ===== src/Examples/Files.antt =====
-- Tests of the cached archives and of the metadata file.
use twoliter.Prelude.{false, ℕ, ◌≡◌, refl, none, some, [], ◌∷◌, Text, text}
use twoliter.Prelude.Classes.{nat_eq, list_eq}
use twoliter.Prelude.Maps.{lookup}
use twoliter.Lock.Archive.{
  Directory, Disk, OciArchive, ArchiveTools, done, failed, pull_failed, archive_path, pull_image,
  with_directory, unpack_layers,
}
use twoliter.Lock.Archive.Cached.{pull_image_fails_once}
use twoliter.Prelude.Panics.{panics}
use twoliter.Lock.{amd64, arm64, ManifestView}
use twoliter.Lock.Extract.{find_manifest}
use twoliter.Lock.Extract.Platform.{find_manifest_first}
use twoliter.Lock.Fetch.{ExternalKitMetadata, external_kits_metadata, Written}
use twoliter.Examples.Kits.{project}

abbrev archive : OciArchive
archive = record {
  registry = text "r";
  repository = text "core";
  digest = text "sha256:1";
  cache_dir = text "/cache";
}

-- What a pull that fails leaves behind.
abbrev partial : Directory
partial = (text "oci-layout", []) ∷ []

abbrev tools : ArchiveTools
tools = record {
  pull_oci_image = λ uri. (false, partial);
  parse_index = λ bytes. some (text "sha256:2" ∷ []);
  parse_layout = λ bytes. some (text "sha256:3" ∷ []);
  unpack = λ blob d. some ((text "file", blob) ∷ d);
}

abbrev pulled : Directory
pulled =
    (text "index.json", [])
    ∷ (text "blobs/sha256/2", [])
    ∷ (text "blobs/sha256/3", text "layer")
    ∷ []

abbrev disk : Disk
disk = record { directories = (text "/cache/sha256-1", pulled) ∷ [] }

abbrev unpacked_disk : Disk
unpacked_disk = record {
  directories =
      (text "/cache/sha256-1", pulled)
      ∷ (text "/out", (text "file", text "layer") ∷ (text "digest", text "sha256:1") ∷ [])
      ∷ [];
}

is_unpacked : unpack_layers tools archive (text "/out") disk ≡ (done, unpacked_disk)
unfolding unpack_layers
is_unpacked = refl

abbrev empty_disk : Disk
empty_disk = record { directories = [] }

pull_image_fails_once_example :
    (pull_image tools archive empty_disk
      ≡ (failed pull_failed, with_directory (archive_path archive) partial empty_disk))
    × (pull_image tools archive (with_directory (archive_path archive) partial empty_disk)
        ≡ (done, with_directory (archive_path archive) partial empty_disk))
unfolding lookup
pull_image_fails_once_example = pull_image_fails_once tools archive empty_disk partial refl refl

abbrev as_json : ExternalKitMetadata ℕ → Text
as_json metadata = text "json"

abbrev written : Written
written = record { files = (external_kits_metadata project, []) ∷ []; writes = [] }

abbrev arm_manifest : ManifestView
arm_manifest = record { digest = text "sha256:arm"; platform = some arm64 }

abbrev bare_manifest : ManifestView
bare_manifest = record { digest = text "sha256:bare"; platform = none }

find_manifest_first_example : find_manifest amd64 (arm_manifest ∷ bare_manifest ∷ []) ≡ panics
find_manifest_first_example =
    find_manifest_first amd64 (arm_manifest ∷ []) [] bare_manifest ((arm64, refl, refl), tt)
