-- ===== src/Lock/Markers/Written.antt =====
-- twoliter/src/project/mod.rs, `Project::load_lock`: the marker files that it leaves.
use twoliter.Prelude.{
  ◌≡◌, ◌≢◌, refl, ap, ◌∙◌, subst, false, Option, none, some, List, [], ◌∷◌, ◌++◌, Text, text, arith,
  Bool-cases, inl, inr, if◌then◌else◌,
}
use twoliter.Prelude.Classes.{◌==◌, eqb_refl, nat_eq, list_eq, list_eqb_iff}
use twoliter.Prelude.Maps.{lookup, insert, lookup-insert, remove, lookup-remove}
use twoliter.Prelude.Results.{Result, ok, err}
use twoliter.Project.{Project, with_new_lock}
use twoliter.Lock.{LockError}
use twoliter.Lock.Load.{Files}
use twoliter.Lock.Markers.{
  VerificationManifest, VerifyTag, sdk, kits, marker_file_name, manifest_of, marker_path,
  cleanup_existing_tags, write_markers, write_tags, external_kits_dir, ProjectLock, load_lock,
}

eqb-append : (dir a b : Text) → (dir ++ a == dir ++ b) ≡ (a == b)
eqb-append [] a b = refl
eqb-append (c ∷ dir) a b = rw (eqb_refl c) (eqb-append dir a b)

-- The paths of two markers of a directory are equal when their names are.
path_eqb :
    (dir : Text) (t u : VerifyTag)
    → (marker_path dir t == marker_path dir u) ≡ (marker_file_name t == marker_file_name u)
path_eqb dir t u = eqb-append (dir ++ text "/") (marker_file_name t) (marker_file_name u)

-- A path that is no marker's.
abbrev pub IsOther : Text → Text → Type 0
IsOther dir path = (tag : VerifyTag) → marker_path dir tag ≢ path

IsOther-eqb :
    (dir path : Text) (tag : VerifyTag) → IsOther dir path → (marker_path dir tag == path) ≡ false
IsOther-eqb dir path tag other = elim (Bool-cases (marker_path dir tag == path)) [
  | inl e ↦ absurd (other tag ((list_eqb_iff nat_eq (marker_path dir tag) path).0 e))
  | inr e ↦ e
]

lookup-cleanup_existing_tags :
    (dir path : Text) (files : Files)
    → lookup path (cleanup_existing_tags dir files) ≡ (
        if marker_path dir (kits []) == path
        then none
        else if marker_path dir (sdk []) == path
        then none
        else lookup path files)
unfolding cleanup_existing_tags
lookup-cleanup_existing_tags dir path files =
    rw
      (
        lookup-remove (marker_path dir (kits [])) path (remove (marker_path dir (sdk [])) files),
        lookup-remove (marker_path dir (sdk [])) path files,
      )
      refl

cleaned_marker :
    (dir : Text) (tag : VerifyTag) (files : Files)
    → lookup (marker_path dir tag) (cleanup_existing_tags dir files) ≡ none
cleaned_marker dir (sdk m) files =
    rw
      (
        lookup-cleanup_existing_tags dir (marker_path dir (sdk m)) files,
        path_eqb dir (kits []) (sdk m),
        path_eqb dir (sdk []) (sdk m),
      )
      refl
cleaned_marker dir (kits m) files =
    rw
      (
        lookup-cleanup_existing_tags dir (marker_path dir (kits m)) files,
        path_eqb dir (kits []) (kits m),
      )
      refl

cleaned_other :
    (dir path : Text) (files : Files)
    → IsOther dir path
    → lookup path (cleanup_existing_tags dir files) ≡ lookup path files
cleaned_other dir path files other =
    rw
      (
        lookup-cleanup_existing_tags dir path files,
        IsOther-eqb dir path (kits []) other,
        IsOther-eqb dir path (sdk []) other,
      )
      refl

module _ (as_canonical_json : VerificationManifest → Text) where
  -- What the last tag of the same kind writes, and what was there if there is none.
  abbrev pub last_written : VerifyTag → List VerifyTag → Option Text → Option Text
  last_written tag [] before = before
  last_written tag (t ∷ ts) before = last_written tag ts (
      if marker_file_name t == marker_file_name tag
      then some (as_canonical_json (manifest_of t))
      else before)

  lookup-write_markers :
      (dir : Text) (tag : VerifyTag) (tags : List VerifyTag) (files : Files)
      → lookup (marker_path dir tag) (write_markers as_canonical_json dir tags files)
        ≡ last_written tag tags (lookup (marker_path dir tag) files)
  lookup-write_markers dir tag [] files = refl
  lookup-write_markers dir tag (t ∷ ts) files =
      lookup-write_markers dir tag ts
        (insert (marker_path dir t) (as_canonical_json (manifest_of t)) files)
      ∙ ap (last_written tag ts) (
          lookup-insert (marker_path dir t) (marker_path dir tag)
            (as_canonical_json (manifest_of t)) files
          ∙ ap
              (λ b.
                if b
                then some (as_canonical_json (manifest_of t))
                else lookup (marker_path dir tag) files)
              (path_eqb dir t tag))

  lookup-write_markers_other :
      (dir path : Text) (tags : List VerifyTag) (files : Files)
      → IsOther dir path
      → lookup path (write_markers as_canonical_json dir tags files) ≡ lookup path files
  lookup-write_markers_other dir path [] files other = refl
  lookup-write_markers_other dir path (t ∷ ts) files other =
      lookup-write_markers_other dir path ts
        (insert (marker_path dir t) (as_canonical_json (manifest_of t)) files) other
      ∙ rw
          (
            lookup-insert (marker_path dir t) path (as_canonical_json (manifest_of t)) files,
            IsOther-eqb dir path t other,
          )
          refl

  module _ {V N : Type 0} (kind : ProjectLock V N) (p : Project V Unit) (files : Files) where
    -- `load_lock` leaves every file as it is but the two markers. When it fails it leaves no marker,
    -- whatever was there before; when it succeeds, a marker has the manifest of the tag of its kind
    -- that the lock returned gives, and is absent where the lock gives none.
    pub load_lock_markers :
        (result : Result (LockError V) (Project V N)) (after : Files)
        → load_lock as_canonical_json kind p files ≡ some (result, after)
        → ((path : Text)
            → IsOther (external_kits_dir p) path
            → lookup path after ≡ lookup path files)
          × ((tag : VerifyTag)
              → lookup (marker_path (external_kits_dir p) tag) after
                ≡ elim result [ err e ↦ none | ok q ↦ last_written tag (kind.tags_of q.lock) none ])
    unfolding load_lock write_tags with_new_lock
    load_lock_markers result after h =
        of_load (kind.load_lock_of p (cleanup_existing_tags (external_kits_dir p) files)) refl
      where
        of_load :
            (x : Option (Result (LockError V) N))
            → kind.load_lock_of p (cleanup_existing_tags (external_kits_dir p) files) ≡ x
            → ((path : Text)
                → IsOther (external_kits_dir p) path
                → lookup path after ≡ lookup path files)
              × ((tag : VerifyTag)
                  → lookup (marker_path (external_kits_dir p) tag) after ≡ elim result [
                    | err e ↦ none
                    | ok q ↦ last_written tag (kind.tags_of q.lock) none
                  ])
        of_load none f = ground arith
        of_load (some (err e)) f =
            let same : err e ≡ result = ground arith in
            let left : cleanup_existing_tags (external_kits_dir p) files ≡ after = ground arith in
            (
              λ path other.
                  subst (λ x. lookup path x ≡ lookup path files) left
                    (cleaned_other (external_kits_dir p) path files other),
              λ tag. rw (← same, ← left) (cleaned_marker (external_kits_dir p) tag files),
            )
        of_load (some (ok lock)) f =
            let same : ok (with_new_lock p lock) ≡ result = ground arith in
            let left : write_tags as_canonical_json (external_kits_dir p) (kind.tags_of lock)
                  (cleanup_existing_tags (external_kits_dir p) files)
                ≡ after =
              ground arith in
            let once = cleanup_existing_tags (external_kits_dir p) files in
            let twice = cleanup_existing_tags (external_kits_dir p) once in
            (
              λ path other.
                  subst (λ x. lookup path x ≡ lookup path files) left
                    (lookup-write_markers_other (external_kits_dir p) path (kind.tags_of lock) twice
                        other
                      ∙ cleaned_other (external_kits_dir p) path once other
                      ∙ cleaned_other (external_kits_dir p) path files other),
              λ tag.
                  rw (← same, ← left)
                    (lookup-write_markers (external_kits_dir p) tag (kind.tags_of lock) twice
                      ∙ ap (last_written tag (kind.tags_of lock))
                          (cleaned_marker (external_kits_dir p) tag once)),
            )
