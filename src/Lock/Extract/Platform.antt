-- ===== src/Lock/Extract/Platform.antt =====
-- twoliter/src/project/lock/image.rs: which manifest `ImageResolver::extract` chooses.
use twoliter.Prelude.{if◌then◌else◌, ◌≡◌, refl, false, none, some, List, [], ◌∷◌, ◌++◌, All}
use twoliter.Prelude.Panics.{returns, panics}
use twoliter.Lock.{DockerArchitecture, ManifestView}
use twoliter.Lock.Extract.{is_arch, find_manifest}

-- The manifest has a platform of another architecture.
abbrev pub IsElsewhere : DockerArchitecture → ManifestView → Type 0
IsElsewhere arch m = (a : DockerArchitecture) × (m.platform ≡ some a) × (is_arch a arch ≡ false)

find_manifest-append :
    (arch : DockerArchitecture) (before after : List ManifestView)
    → All (IsElsewhere arch) before
    → find_manifest arch (before ++ after) ≡ find_manifest arch after
unfolding find_manifest
find_manifest-append arch [] after h = refl
find_manifest-append arch (m ∷ before) after ((a, e, f), h) =
    rw (e, f) (find_manifest-append arch before after h)

-- Behind manifests for other architectures, a manifest for the architecture is the one that is
-- chosen, one for another architecture is passed over, and one with no platform makes the search
-- panic, whatever follows it.
pub find_manifest_first :
    (arch : DockerArchitecture) (before after : List ManifestView) (m : ManifestView)
    → All (IsElsewhere arch) before
    → find_manifest arch (before ++ m ∷ after) ≡ elim m.platform [
      | none ↦ panics
      | some a ↦ if is_arch a arch then returns (some m) else find_manifest arch after
    ]
unfolding find_manifest
find_manifest_first arch before after m h = find_manifest-append arch before (m ∷ after) h
