-- ===== src/Lock/Markers.antt =====
-- twoliter/src/project/lock/verification.rs, with `Project::load_lock` of
-- twoliter/src/project/mod.rs: the marker files that say which artifacts have been checked against
-- the lock file.
pub mod Written
use twoliter.Prelude.{
  ℕ, Bool, true, false, ◌||◌, Option, none, some, List, [], ◌∷◌, ◌++◌, map, Text, text, ltb,
  is_some, if◌then◌else◌, ◌==◌ as eq_ℕ,
}
use twoliter.Prelude.Classes.{◌==◌, nat_eq, list_eq}
use twoliter.Prelude.Maps.{Map, lookup, insert, remove}
use twoliter.Prelude.Results.{Result, ok, err}
use twoliter.Project.{Version, Project, with_new_lock}
use twoliter.Lock.{LockedImage, Registry, LockError}
use twoliter.Lock.Resolve.{Lock}
use twoliter.Lock.Load.{Files, LockFormat, load, load_sdk}

-- A set of strings, in the order of their code points, as that of their bytes.
abbrev pub VerificationManifest : Type 0
VerificationManifest = List Text

pub data VerifyTag : Type 0 where
  sdk : VerificationManifest → VerifyTag
  kits : VerificationManifest → VerifyTag

unfoldable pub text_lt : Text → Text → Bool
text_lt s [] = false
text_lt [] (d ∷ t) = true
text_lt (c ∷ s) (d ∷ t) = let rest = text_lt s t in if eq_ℕ c d then rest else ltb c d

-- `BTreeSet::insert`
unfoldable pub insert_text : Text → VerificationManifest → VerificationManifest
unfolding text_lt
insert_text s [] = s ∷ []
insert_text s (t ∷ ts) =
    let rest = insert_text s ts in
    if text_lt s t then s ∷ t ∷ ts else if s == t then t ∷ ts else t ∷ rest

unfoldable pub collect_texts : List Text → VerificationManifest
unfolding insert_text
collect_texts [] = []
collect_texts (s ∷ ss) = insert_text s (collect_texts ss)

abbrev pub marker_file_name : VerifyTag → Text
marker_file_name (sdk _) = text ".sdk-verified"
marker_file_name (kits _) = text ".kits-verified"

abbrev pub manifest_of : VerifyTag → VerificationManifest
manifest_of (sdk manifest) = manifest
manifest_of (kits manifest) = manifest

-- The variants of `VerifyTag`, each with a default manifest, in their order.
abbrev pub every_tag : List VerifyTag
every_tag = sdk [] ∷ kits [] ∷ []

module _ {V : Type 0} ⦃v : Version V⦄ where
  -- `Display` of a `LockedImage`
  abbrev pub show_locked : LockedImage V → Text
  show_locked l =
      l.name
      ++ text "-"
      ++ v.show l.version
      ++ text "@"
      ++ l.vendor
      ++ text " ("
      ++ l.source
      ++ text ")"

  unfoldable pub verified_sdk : LockedImage V → List VerifyTag
  unfolding collect_texts
  verified_sdk locked = sdk (collect_texts (show_locked locked ∷ [])) ∷ []

  unfoldable pub verified_lock : Lock V → List VerifyTag
  unfolding collect_texts
  verified_lock lock =
      sdk (collect_texts (show_locked lock.sdk ∷ []))
      ∷ kits (collect_texts (map show_locked lock.kit))
      ∷ []

abbrev pub marker_path : Text → VerifyTag → Text
marker_path dir tag = dir ++ text "/" ++ marker_file_name tag

abbrev pub remove_markers : Text → List VerifyTag → Files → Files
remove_markers dir [] files = files
remove_markers dir (tag ∷ tags) files = remove_markers dir tags (remove (marker_path dir tag) files)

unfoldable pub cleanup_existing_tags : Text → Files → Files
unfolding remove
cleanup_existing_tags dir files = remove_markers dir every_tag files

abbrev pub external_kits_dir : {V L : Type 0} → Project V L → Text
external_kits_dir p = p.project_dir ++ text "/build/external-kits"

-- An implementation of `ProjectLock`: `load_lock` and the tags of `verification_tagger`.
pub record ProjectLock (V N : Type 0) : Type 0 where
  pub load_lock_of : Project V Unit → Files → Option (Result (LockError V) N)
  pub tags_of : N → List VerifyTag

-- The JSON that is written of a manifest, `as_canonical_json`, is a parameter.
module _ (as_canonical_json : VerificationManifest → Text) where
  abbrev pub write_markers : Text → List VerifyTag → Files → Files
  write_markers dir [] files = files
  write_markers dir (tag ∷ tags) files =
      write_markers dir tags
        (insert (marker_path dir tag) (as_canonical_json (manifest_of tag)) files)

  unfoldable pub write_tags : Text → List VerifyTag → Files → Files
  unfolding cleanup_existing_tags insert
  write_tags dir tags files = write_markers dir tags (cleanup_existing_tags dir files)

  -- `Project::load_lock`: the result, and the files that it leaves; `none` when fuel runs out.
  unfoldable pub load_lock :
      {V N : Type 0}
      → ProjectLock V N
      → Project V Unit
      → Files
      → Option (Result (LockError V) (Project V N) × Files)
  unfolding write_tags
  load_lock kind p files =
      let cleaned = cleanup_existing_tags (external_kits_dir p) files in
      elim (kind.load_lock_of p cleaned) [
        | none ↦ none
        | some (err e) ↦ some (err e, cleaned)
        | some (ok resolved) ↦ some (
          ok (with_new_lock p resolved),
          write_tags (external_kits_dir p) (kind.tags_of resolved) cleaned,
        )
      ]

module _ {V : Type 0} ⦃v : Version V⦄ (format : LockFormat V) (r : Registry V) (fuel : ℕ) where
  -- `Unlocked`, `SDKLocked` and `Locked`
  abbrev pub unlocked : ProjectLock V Unit
  unlocked = record { load_lock_of = λ p files. some (ok tt); tags_of = λ lock. [] }

  abbrev pub sdk_locked : ProjectLock V (LockedImage V)
  sdk_locked = record {
    load_lock_of = λ p files. some (load_sdk format p r files);
    tags_of = verified_sdk;
  }

  abbrev pub locked : ProjectLock V (Lock V)
  locked = record { load_lock_of = λ p files. load format p r fuel files; tags_of = verified_lock }
