-- ===== src/Lock/Fetch/Metadata.antt =====
-- twoliter/src/project/lock/mod.rs: the metadata file that `Lock::synchronize_metadata` keeps.
use twoliter.Prelude.{◌≡◌, refl, ap, ◌∙◌, some, Text, Bool-cases, Option-cases, inl, inr}
use twoliter.Prelude.Classes.{◌==◌, eqb_refl, nat_eq, list_eq, list_eqb_iff}
use twoliter.Prelude.Maps.{lookup, lookup-insert_same}
use twoliter.Project.{Project}
use twoliter.Lock.Resolve.{Lock}
use twoliter.Lock.Fetch.{
  ExternalKitMetadata, external_kit_metadata, external_kits_metadata, Written, synchronize_metadata,
}

module _ {V L : Type 0} (as_json : ExternalKitMetadata V → Text) (lock : Lock V)
    (p : Project V L) where
  -- After `synchronize_metadata` the metadata file holds the metadata of the lock, it has been written
  -- only if it held something else, and a second call writes nothing.
  pub synchronize_metadata_once :
      (w : Written)
      → (lookup (external_kits_metadata p) (synchronize_metadata as_json lock p w).files
          ≡ some (as_json (external_kit_metadata lock)))
        × ((lookup (external_kits_metadata p) w.files ≡ some (as_json (external_kit_metadata lock))
              → synchronize_metadata as_json lock p w ≡ w)
            × (synchronize_metadata as_json lock p (synchronize_metadata as_json lock p w)
                ≡ synchronize_metadata as_json lock p w))
  unfolding synchronize_metadata
  synchronize_metadata_once w =
      (held w, (kept w, kept (synchronize_metadata as_json lock p w) (held w)))
    where
      kept :
          (x : Written)
          → lookup (external_kits_metadata p) x.files ≡ some (as_json (external_kit_metadata lock))
          → synchronize_metadata as_json lock p x ≡ x
      kept x h = rw (synchronize_metadata, h, eqb_refl (as_json (external_kit_metadata lock))) refl

      held :
          (x : Written)
          → lookup (external_kits_metadata p) (synchronize_metadata as_json lock p x).files
            ≡ some (as_json (external_kit_metadata lock))
      held x =
          let fresh =
            lookup-insert_same (external_kits_metadata p) (as_json (external_kit_metadata lock))
              x.files in
          elim (Option-cases (lookup (external_kits_metadata p) x.files)) [
            | inl e ↦ rw (synchronize_metadata, e) fresh
            | inr (existing, e) ↦
                elim (Bool-cases (existing == as_json (external_kit_metadata lock))) [
                  | inl same ↦
                      rw (synchronize_metadata, e, same)
                        (e
                          ∙ ap some (
                              (list_eqb_iff nat_eq existing
                                  (as_json (external_kit_metadata lock))).0
                                same))
                  | inr other ↦ rw (synchronize_metadata, e, other) fresh
                ]
          ]
