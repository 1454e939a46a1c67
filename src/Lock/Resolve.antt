-- ===== src/Lock/Resolve.antt =====
-- twoliter/src/project/lock/mod.rs: `Lock::resolve`, which visits the kits that a project depends on,
-- one round of pending images after another. The sets and maps are lists of their entries.
pub mod Reach
pub mod Invariant
pub mod Visit
pub mod Rounds
pub mod Complete
pub mod Found
pub mod Total
use twoliter.Prelude.{
  ℕ, zero, suc, Bool, true, false, Option, none, some, List, [], ◌∷◌, ◌++◌, Text, any,
  if◌then◌else◌,
}
use twoliter.Prelude.Classes.{Eq, ◌==◌, nat_eq, list_eq, pair_eq}
use twoliter.Prelude.Maps.{Map, lookup, insert}
use twoliter.Prelude.Results.{Result, ok, err, ◌>>=◌, ok_or}
use twoliter.Project.{
  Version, Image, ProjectImage, Project, SchemaVersion, as_project_image, direct_kit_deps,
  direct_sdk_image_dep, project_image_eq, vendor_name,
}
use twoliter.Lock.{
  LockedImage, ImageMetadata, Registry, LockError, no_vendor, multiple_versions, multiple_sdks,
  no_sdk, resolve_image, resolve_without_metadata,
}

pub record Lock (V : Type 0) : Type 0 where
  pub schema_version : SchemaVersion
  pub sdk : LockedImage V
  pub kit : List (LockedImage V)

-- The name and the vendor of a kit.
abbrev pub Key : Type 0
Key = Text × Text

abbrev pub key_of : {V : Type 0} → ProjectImage V → Key
key_of i = (i.image.name, vendor_name i)

-- The variables of `resolve`.
pub record Progress (V : Type 0) : Type 0 where
  pub known : Map Key V
  pub locked : List (LockedImage V)
  pub sdk_set : List (ProjectImage V)
  pub remaining : List (ProjectImage V)

-- `HashSet::insert`
unfoldable pub insert_new : {A : Type 0} ⦃e : Eq A⦄ → A → List A → List A
insert_new a set = if any (λ b. b == a) set then set else a ∷ set

-- The set of SDKs before the loop.
abbrev pub direct_sdk_set :
    {V : Type 0} → Option (Option (ProjectImage V)) → Result (LockError V) (List (ProjectImage V))
direct_sdk_set none = ok []
direct_sdk_set (some none) = err no_vendor
direct_sdk_set (some (some sdk)) = ok (sdk ∷ [])

module _ {V L : Type 0} ⦃v : Version V⦄ (p : Project V L) (r : Registry V) where
  -- The loop over the kits of the metadata.
  unfoldable pub push_kits :
      List (Image V) → List (ProjectImage V) → Result (LockError V) (List (ProjectImage V))
  push_kits [] remaining = ok remaining
  push_kits (dep ∷ deps) remaining = do
    i ← ok_or no_vendor (as_project_image p dep)
    push_kits deps (remaining ++ i ∷ [])

  -- A kit that is not known yet.
  unfoldable pub lock_kit : ProjectImage V → Progress V → Result (LockError V) (Progress V)
  unfolding push_kits insert_new insert
  lock_kit image s = do
    (locked_image, metadata) ← resolve_image r image
    sdk ← ok_or no_vendor (as_project_image p metadata.sdk)
    remaining ← push_kits metadata.kits s.remaining
    ok (record {
      known = insert (key_of image) image.image.version s.known;
      locked = s.locked ++ locked_image ∷ [];
      sdk_set = insert_new sdk s.sdk_set;
      remaining = remaining;
    })

  -- The body of the loop over the working set.
  unfoldable pub visit : ProjectImage V → Progress V → Result (LockError V) (Progress V)
  unfolding lock_kit lookup
  visit image s = elim (lookup (key_of image) s.known) [
    | none ↦ lock_kit image s
    | some version ↦
        if v.version_eq.eqb image.image.version version
        then ok s
        else err
            (multiple_versions image.image.name (vendor_name image) image.image.version version)
  ]

  unfoldable pub visit_all : List (ProjectImage V) → Progress V → Result (LockError V) (Progress V)
  unfolding visit
  visit_all [] s = ok s
  visit_all (image ∷ working_set) s = do s' ← visit image s; visit_all working_set s'

  -- The loop while images remain, on fuel: `none` when the fuel runs out.
  unfoldable pub rounds :
      ℕ → List (ProjectImage V) → Progress V → Option (Result (LockError V) (Progress V))
  unfolding visit_all
  rounds fuel [] s = some (ok s)
  rounds zero (i ∷ remaining) s = none
  rounds (suc fuel) (i ∷ remaining) s =
      elim (visit_all (i ∷ remaining) (record s { remaining = [] })) [
        | err e ↦ some (err e)
        | ok s' ↦ rounds fuel s'.remaining s'
      ]

  -- The variables before the loop.
  unfoldable pub start : Result (LockError V) (Progress V)
  unfolding direct_kit_deps direct_sdk_image_dep
  start = do
    remaining ← ok_or no_vendor (direct_kit_deps p)
    sdk_set ← direct_sdk_set (direct_sdk_image_dep p)
    ok (record { known = []; locked = []; sdk_set = sdk_set; remaining = remaining })

  -- What follows the loop.
  unfoldable pub finish : Progress V → Result (LockError V) (Lock V)
  finish s = elim s.sdk_set [
    | [] ↦ err no_sdk
    | sdk ∷ [] ↦ do
      locked_sdk ← resolve_without_metadata r sdk
      ok (record { schema_version = p.schema_version; sdk = locked_sdk; kit = s.locked })
    | _ ∷ _ ∷ _ ↦ err multiple_sdks
  ]

  unfoldable pub resolve : ℕ → Option (Result (LockError V) (Lock V))
  unfolding rounds start finish
  resolve fuel = elim start [
    | err e ↦ some (err e)
    | ok s ↦ elim (rounds fuel s.remaining s) [
      | none ↦ none
      | some (err e) ↦ some (err e)
      | some (ok s') ↦ some (finish s')
    ]
  ]
