-- ===== src/Lock/Archive/Cached.antt =====
-- twoliter/src/project/lock/archive.rs: when the work of an earlier run is used again.
use twoliter.Prelude.{
  ◌≡◌, refl, ap, ◌∙◌, subst, true, false, none, some, List, [], Text, text, arith, Bool-cases, inl,
  inr, ◌⊎◌,
}
use twoliter.Prelude.Classes.{eqb_refl, nat_eq, list_eq}
use twoliter.Prelude.Maps.{lookup-insert_same, lookup, insert, lookup-insert}
use twoliter.Lock.Archive.{
  ArchiveError, Directory, Disk, OciArchive, ArchiveTools, Finished, done, failed, pull_failed,
  archive_path, archive_uri, pull_image, layers_of, unpack_each, record_digest, unpacked,
  directory_at, has_digest, with_directory, unpack_layers,
}

module _ (tools : ArchiveTools) (a : OciArchive) where
  record_digest-done :
      (x : Finished × Directory) (d : Directory)
      → record_digest tools a x ≡ (done, d)
      → lookup (text "digest") d ≡ some a.digest
  record_digest-done (failed e, d0) d h = ground arith
  record_digest-done (done, d0) d h =
      let e : insert (text "digest") a.digest d0 ≡ d = ground arith in
      subst (λ x. lookup (text "digest") x ≡ some a.digest) e
        (lookup-insert_same (text "digest") a.digest d0)

  unpacked-done :
      (archive d : Directory)
      → unpacked tools a archive ≡ (done, d)
      → lookup (text "digest") d ≡ some a.digest
  unpacked-done archive d h = of_layers (layers_of tools a archive) refl
    where
      of_layers :
          (x : ArchiveError ⊎ List Text)
          → layers_of tools a archive ≡ x
          → lookup (text "digest") d ≡ some a.digest
      of_layers (inl e) f = ground arith
      of_layers (inr layers) f =
          record_digest-done (unpack_each tools a archive layers []) d (ground arith)

  -- After an unpacking that succeeds the directory has the digest.
  unpack_layers-digest :
      (path : Text) (disk after : Disk)
      → unpack_layers tools a path disk ≡ (done, after)
      → has_digest tools a path after ≡ true
  unfolding unpack_layers
  unpack_layers-digest path disk after h = elim (Bool-cases (has_digest tools a path disk)) [
    | inl cached ↦
        let e : disk ≡ after = ground arith in
        subst (λ x. has_digest tools a path x ≡ true) e cached
    | inr other ↦ of_unpacked (unpacked tools a archive) refl (ground arith, ground arith)
  ]
    where
      cleared : Disk
      cleared = with_directory path [] disk

      archive : Directory
      archive = directory_at tools a (archive_path a) cleared

      of_unpacked :
          (x : Finished × Directory)
          → unpacked tools a archive ≡ x
          → (x.0 ≡ done) × (with_directory path x.1 cleared ≡ after)
          → has_digest tools a path after ≡ true
      of_unpacked (r, d) f (g, e) =
          let finished : unpacked tools a archive ≡ (done, d) = f ∙ ap (λ y. (y, d)) g in
          let recorded = unpacked-done archive d finished in
          let held = lookup-insert_same path d cleared.directories in
          let same = eqb_refl a.digest in
          subst (λ x. has_digest tools a path x ≡ true) e (ground arith)

  -- An image that has been unpacked is not unpacked again: the second call leaves the disk as it is.
  pub unpack_layers_again :
      (path : Text) (disk after : Disk)
      → unpack_layers tools a path disk ≡ (done, after)
      → unpack_layers tools a path after ≡ (done, after)
  unfolding unpack_layers
  unpack_layers_again path disk after h = rw (unpack_layers-digest path disk after h) refl

  -- When the archive is not in the cache and pulling it fails, the directory made for it stays with
  -- what the pull left there, and the next call succeeds without pulling and leaves the disk as it is.
  pub pull_image_fails_once :
      (disk : Disk) (left : Directory)
      → lookup (archive_path a) disk.directories ≡ none
      → tools.pull_oci_image (archive_uri a) ≡ (false, left)
      → (pull_image tools a disk ≡ (failed pull_failed, with_directory (archive_path a) left disk))
        × (pull_image tools a (with_directory (archive_path a) left disk)
            ≡ (done, with_directory (archive_path a) left disk))
  unfolding pull_image
  pull_image_fails_once disk left absent refused = (
    rw (absent, refused) refl,
    rw
        (
          lookup-insert (archive_path a) (archive_path a) left disk.directories,
          eqb_refl (archive_path a),
        )
        refl,
  )
