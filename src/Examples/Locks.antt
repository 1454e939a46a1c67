-- ===== src/Examples/Locks.antt =====
-- Tests of a project's images, its lock and its marker files.
use twoliter.Prelude.{
  is_empty, false, ◌↔◌, ℕ, ◌≡◌, refl, sym, ap, none, some, List, [], ◌∷◌, Elem, Text, text, inl,
  inr, arith,
}
use twoliter.Prelude.Classes.{nat_eq, list_eq}
use twoliter.Prelude.Maps.{lookup, insert}
use twoliter.Prelude.Results.{Result, ok}
use twoliter.Project.{Image, ProjectImage, as_project_image}
use twoliter.Lock.{LockedImage, ImageMetadata, resolve_image}
use twoliter.Lock.Resolve.{Lock, key_of, Key, resolve}
use twoliter.Lock.Resolve.Reach.{Reachable, direct, dependency, resolve_image-decoded}
use twoliter.Lock.Resolve.Found.{resolve_kits, resolve_one_version, resolve_single_sdk}
use twoliter.Lock.Resolve.Total.{resolve_total}
use twoliter.Lock.Load.{
  lock_eqb, Files, LockFormat, lock_file_path, load, create, current_lock_state,
}
use twoliter.Lock.Load.Checked.{load_iff, create-load, IsSameLock}
use twoliter.Lock.Markers.{
  VerifyTag, marker_path, VerificationManifest, load_lock, locked, write_tags, verified_lock,
  cleanup_existing_tags, external_kits_dir,
}
use twoliter.Lock.Markers.Written.{IsOther, last_written, load_lock_markers}
use twoliter.Project.{with_new_lock, uri, original_source_uri, project_image_uri}
use twoliter.Project.Identifier.{IsValidChars, from_str, valid, from_str_iff}
use twoliter.Lock.{resolve_without_metadata, LockError}
use twoliter.Examples.Kits.{
  digit_version, core_kit, extra_kit, project, core, extra, registry, the_lock, decode_kits,
}

resolved : resolve project registry 3 ≡ some (ok the_lock)
unfolding resolve resolve_image project_image_uri resolve_without_metadata uri original_source_uri
resolved = refl

extra_own : as_project_image project extra_kit ≡ some extra
unfolding as_project_image lookup
extra_own = refl

core_own : as_project_image project core_kit ≡ some core
unfolding as_project_image lookup
core_own = refl

extra-Reachable : Reachable project registry extra
extra-Reachable = direct extra_kit extra (inl refl) extra_own

abbrev keys : List Key
keys = key_of extra ∷ key_of core ∷ []

keys-finite : (i : ProjectImage ℕ) → Reachable project registry i → Elem (key_of i) keys
keys-finite i (direct image _ (inl e) own) =
    let same : extra ≡ i = ground (arith, extra_own, ap (as_project_image project) e) in
    inl (sym (ap key_of same))
keys-finite i (direct image _ (inr e) own) = elim e [ ]
keys-finite i (dependency parent l m dep _ reach found listed own) =
    let (encoded, h) = resolve_image-decoded registry parent l m found in
    let e = decode_kits encoded m dep h listed in
    let same : core ≡ i = ground (arith, core_own, ap (as_project_image project) e) in
    inr (inl (sym (ap key_of same)))

resolve_kits_example :
    ((i : ProjectImage ℕ)
      → Reachable project registry i
      → (l : LockedImage ℕ) × (m : ImageMetadata ℕ) × (resolve_image registry i ≡ ok (l, m))
        × Elem l the_lock.kit)
    × ((l : LockedImage ℕ)
        → Elem l the_lock.kit
        → (i : ProjectImage ℕ) × (m : ImageMetadata ℕ) × Reachable project registry i
          × (resolve_image registry i ≡ ok (l, m)))
resolve_kits_example = resolve_kits project registry 3 the_lock resolved

resolve_one_version_example : extra.image.version ≡ extra.image.version
resolve_one_version_example =
    resolve_one_version project registry 3 the_lock extra extra resolved extra-Reachable
      extra-Reachable refl

resolve_single_sdk_example :
    (sdk : ProjectImage ℕ) × (resolve_without_metadata registry sdk ≡ ok the_lock.sdk)
    × ((image : Image ℕ) → project.sdk ≡ some image → as_project_image project image ≡ some sdk)
    × ((i : ProjectImage ℕ) (l : LockedImage ℕ) (m : ImageMetadata ℕ)
        → Reachable project registry i
        → resolve_image registry i ≡ ok (l, m)
        → as_project_image project m.sdk ≡ some sdk)
resolve_single_sdk_example = resolve_single_sdk project registry 3 the_lock resolved

resolve_total_example : (x : Result (LockError ℕ) (Lock ℕ)) × (resolve project registry 3 ≡ some x)
resolve_total_example = resolve_total project registry keys keys-finite 3 (omega arith)

abbrev format : LockFormat ℕ
format = record { to_string = λ lock. []; from_str = λ lock_str. some the_lock }

abbrev files : Files
files = (text "/p/Twoliter.lock", []) ∷ (text "/p/build/external-kits/.kits-verified", []) ∷ []

files-read : current_lock_state format project registry files ≡ ok the_lock
unfolding current_lock_state
files-read = refl

load_iff_example : (load format project registry 3 files ≡ some (ok the_lock)) ↔ (
    (current : Lock ℕ) × (current_lock_state format project registry files ≡ ok current)
    × (resolve project registry 3 ≡ some (ok the_lock))
    × IsSameLock current the_lock)
load_iff_example = load_iff format project registry 3 files the_lock

created :
    create format project registry 3 files
    ≡ some (ok the_lock, insert (lock_file_path project) [] files)
unfolding create resolve resolve_image project_image_uri resolve_without_metadata uri
    original_source_uri
created = refl

create-load_example :
    load format project registry 3 (insert (lock_file_path project) [] files) ≡ some (ok the_lock)
create-load_example =
    create-load format project registry 3 files (insert (lock_file_path project) [] files) the_lock
      refl created

abbrev as_json : VerificationManifest → Text
as_json manifest = b'[' ∷ []

abbrev dir : Text
dir = external_kits_dir project

loaded :
    load_lock as_json (locked format registry 3) project files
    ≡ some (
      ok (with_new_lock project the_lock),
      write_tags as_json dir (verified_lock the_lock) (cleanup_existing_tags dir files),
    )
unfolding load_lock load with_new_lock verified_lock resolve_image project_image_uri
    resolve_without_metadata lock_eqb uri original_source_uri cleanup_existing_tags
loaded = refl

load_lock_markers_example :
    ((path : Text)
      → IsOther dir path
      → lookup path
          (write_tags as_json dir (verified_lock the_lock) (cleanup_existing_tags dir files))
        ≡ lookup path files)
    × ((tag : VerifyTag)
        → lookup
            (marker_path dir tag)
            (write_tags as_json dir (verified_lock the_lock) (cleanup_existing_tags dir files))
          ≡ last_written as_json tag (verified_lock (with_new_lock project the_lock).lock) none)
load_lock_markers_example =
    load_lock_markers as_json (locked format registry 3) project files
      (ok (with_new_lock project the_lock))
      (write_tags as_json dir (verified_lock the_lock) (cleanup_existing_tags dir files)) loaded

from_str_iff_example : (from_str (text "core-kit_2") ≡ valid (text "core-kit_2")) ↔ (
    (text "core-kit_2" ≡ text "core-kit_2")
    × (is_empty (text "core-kit_2") ≡ false)
    × IsValidChars (text "core-kit_2"))
from_str_iff_example = from_str_iff (text "core-kit_2") (text "core-kit_2")
