-- ===== src/Lock/Extract.antt =====
-- twoliter/src/project/lock/image.rs, `ImageResolver::extract`, and twoliter/src/project/lock/mod.rs,
-- the loop of `Lock::fetch`: the kits of a lock are unpacked for an architecture.
pub mod Platform
use twoliter.Prelude.{
  Bool, true, false, ◌||◌, Option, none, some, List, [], ◌∷◌, ◌++◌, Text, text, is_some,
  if◌then◌else◌,
}
use twoliter.Prelude.Classes.{◌==◌, nat_eq, list_eq}
use twoliter.Prelude.Maps.{lookup}
use twoliter.Prelude.Panics.{Panics, returns, panics}
use twoliter.Prelude.Results.{Result, ok, err}
use twoliter.Project.{
  Version, Image, Project, ProjectImage, as_project_image, project_image_uri, vendor_name,
}
use twoliter.Lock.{
  DockerArchitecture, amd64, arm64, ManifestView, LockedImage, Registry, LockError, get_manifest,
}
use twoliter.Lock.Archive.{
  Disk, OciArchive, ArchiveTools, ArchiveError, Finished, done, failed, pull_image, unpack_layers,
  with_directory,
}

unfoldable pub arch_of : Text → Option DockerArchitecture
arch_of value =
    if value == text "x86_64" || value == text "amd64"
    then some amd64
    else if value == text "aarch64" || value == text "arm64"
    then some arm64
    else none

abbrev pub is_arch : DockerArchitecture → DockerArchitecture → Bool
is_arch amd64 amd64 = true
is_arch arm64 arm64 = true
is_arch _ _ = false

-- `find` with `unwrap` of the platform in its test
unfoldable pub find_manifest : DockerArchitecture → List ManifestView → Panics (Option ManifestView)
find_manifest arch [] = returns none
find_manifest arch (m ∷ ms) =
    let rest = find_manifest arch ms in
    elim m.platform [
      | none ↦ panics
      | some architecture ↦ if is_arch architecture arch then returns (some m) else rest
    ]

pub data ExtractError (V : Type 0) : Type 0 where
  unresolved : LockError V → ExtractError V
  invalid_architecture : (value : Text) → ExtractError V
  no_image_for : DockerArchitecture → ExtractError V
  no_registry_of : ExtractError V
  bad_archive : ArchiveError → ExtractError V
  no_vendor_of : ExtractError V

pub data Extracted (V : Type 0) : Type 0 where
  extracted : Extracted V
  not_extracted : ExtractError V → Extracted V
  panicked : Extracted V

-- `create_dir_all`
abbrev pub create_directory : Text → Disk → Disk
create_directory path disk =
    if is_some (lookup path disk.directories) then disk else with_directory path [] disk

-- `pull_image`, and `unpack_layers` when that succeeds
abbrev pub pull_and_unpack :
    {V : Type 0} → ArchiveTools → OciArchive → Text → Disk → Extracted V × Disk
pull_and_unpack tools a target disk =
    let (pulled, after) = pull_image tools a disk in
    let (unpacked, final) = unpack_layers tools a target after in
    elim pulled [
      | failed e ↦ (not_extracted (bad_archive e), after)
      | done ↦ elim unpacked [
        | failed e ↦ (not_extracted (bad_archive e), final)
        | done ↦ (extracted, final)
      ]
    ]

module _ {V : Type 0} ⦃v : Version V⦄ (tools : ArchiveTools) (r : Registry V) (arch : Text) where
  abbrev pub target_path : Text → ProjectImage V → Text
  target_path path i =
      path ++ text "/" ++ vendor_name i ++ text "/" ++ i.image.name ++ text "/" ++ arch

  abbrev pub cache_path : Text → Text
  cache_path path = path ++ text "/cache"

  -- What follows the choice of a manifest.
  abbrev pub extract_manifest : Text → ProjectImage V → ManifestView → Disk → Extracted V × Disk
  extract_manifest path i manifest disk = elim (project_image_uri i).registry [
    | none ↦ (not_extracted no_registry_of, disk)
    | some registry ↦
        pull_and_unpack tools
          (record {
            registry = registry;
            repository = (project_image_uri i).repo;
            digest = manifest.digest;
            cache_dir = cache_path path;
          })
          (target_path path i) disk
  ]

  unfoldable pub extract : Text → ProjectImage V → Disk → Extracted V × Disk
  unfolding get_manifest arch_of find_manifest
  extract path i disk =
      let ready = create_directory (cache_path path) (create_directory (target_path path i) disk) in
      elim (get_manifest r i) [
        | err e ↦ (not_extracted (unresolved e), ready)
        | ok manifests ↦ elim (arch_of arch) [
          | none ↦ (not_extracted (invalid_architecture arch), ready)
          | some docker_arch ↦ elim (find_manifest docker_arch manifests) [
            | panics ↦ (panicked, ready)
            | returns none ↦ (not_extracted (no_image_for docker_arch), ready)
            | returns (some manifest) ↦ extract_manifest path i manifest ready
          ]
        ]
      ]

  -- The loop of `fetch` over the kits of a lock.
  unfoldable pub fetch_kits :
      {L : Type 0} → Project V L → Text → List (LockedImage V) → Disk → Extracted V × Disk
  unfolding extract as_project_image
  fetch_kits p path [] disk = (extracted, disk)
  fetch_kits p path (l ∷ ls) disk =
      elim (as_project_image p (record { name = l.name; version = l.version; vendor = l.vendor })) [
        | none ↦ (not_extracted no_vendor_of, disk)
        | some i ↦
            let (result, after) = extract path i disk in
            let rest = fetch_kits p path ls after in
            elim result [
              | extracted ↦ rest
              | not_extracted e ↦ (not_extracted e, after)
              | panicked ↦ (panicked, after)
            ]
      ]
