-- ===== src/Lock/Fetch.antt =====
-- twoliter/src/project/lock/image.rs, `ImageResolver::extract`, and twoliter/src/project/lock/mod.rs,
-- `Lock::fetch` and `Lock::synchronize_metadata`: the kits of a lock on the disk.
pub mod Metadata
use twoliter.Prelude.{
  Bool, true, false, Option, none, some, List, [], ◌∷◌, ◌++◌, Text, text, if◌then◌else◌,
}
use twoliter.Prelude.Classes.{◌==◌, nat_eq, list_eq}
use twoliter.Prelude.Maps.{lookup, insert}
use twoliter.Project.{Project}
use twoliter.Lock.{LockedImage}
use twoliter.Lock.Resolve.{Lock}
use twoliter.Lock.Load.{Files}

-- `ExternalKitMetadata`
pub record ExternalKitMetadata (V : Type 0) : Type 0 where
  pub sdk : LockedImage V
  pub kits : List (LockedImage V)

abbrev pub external_kit_metadata : {V : Type 0} → Lock V → ExternalKitMetadata V
external_kit_metadata lock = record { sdk = lock.sdk; kits = lock.kit }

abbrev pub external_kits_metadata : {V L : Type 0} → Project V L → Text
external_kits_metadata p = p.project_dir ++ text "/build/external-kits/external-kit-metadata.json"

-- A file system, with the paths that have been written, the last one first.
pub record Written : Type 0 where
  pub files : Files
  pub writes : List Text

-- `write`
abbrev pub write : Text → Text → Written → Written
write path content w = record { files = insert path content w.files; writes = path ∷ w.writes }

-- The canonical JSON of the metadata is a parameter.
module _ {V L : Type 0} (as_json : ExternalKitMetadata V → Text) where
  unfoldable pub synchronize_metadata : Lock V → Project V L → Written → Written
  unfolding lookup insert
  synchronize_metadata lock p w =
      let kit_list = as_json (external_kit_metadata lock) in
      elim (lookup (external_kits_metadata p) w.files) [
        | none ↦ write (external_kits_metadata p) kit_list w
        | some existing ↦
            if existing == kit_list then w else write (external_kits_metadata p) kit_list w
      ]
