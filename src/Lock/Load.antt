-- ===== src/Lock/Load.antt =====
-- twoliter/src/project/lock/mod.rs: the lock file of a project, and the checks against it. A file
-- system is the map from the paths of its files to their contents, and operations on it do not fail.
pub mod Checked
use twoliter.Prelude.{
  ℕ, Bool, true, false, ◌&&◌, ◌≡◌, Option, none, some, List, [], ◌∷◌, ◌++◌, Text, text, is_some,
  if◌then◌else◌,
}
use twoliter.Prelude.Classes.{◌==◌, nat_eq, list_eq, list_eqb}
use twoliter.Prelude.Maps.{Map, lookup, insert}
use twoliter.Prelude.Results.{Result, ok, err, ◌>>=◌, ok_or}
use twoliter.Project.{Version, ProjectImage, Project, direct_sdk_image_dep}
use twoliter.Lock.{
  LockedImage, Registry, LockError, no_vendor, no_lock_file, bad_lock_file, lock_changed,
  no_explicit_sdk, resolve_without_metadata,
}
use twoliter.Lock.Resolve.{Lock, resolve}

abbrev pub Files : Type 0
Files = Map Text Text

-- The `toml` crate on a lock: `to_string` and `from_str`.
pub record LockFormat (V : Type 0) : Type 0 where
  pub to_string : Lock V → Text
  pub from_str : Text → Option (Lock V)

abbrev pub lock_file_path : {V L : Type 0} → Project V L → Text
lock_file_path p = p.project_dir ++ text "/Twoliter.lock"

-- `PartialEq` of `LockedImage` and of `Lock`; there is one schema version.
unfoldable pub locked_image_eqb : {V : Type 0} → LockedImage V → LockedImage V → Bool
locked_image_eqb a b = a.source == b.source && a.digest == b.digest

unfoldable pub lock_eqb : {V : Type 0} → Lock V → Lock V → Bool
unfolding locked_image_eqb
lock_eqb a b = locked_image_eqb a.sdk b.sdk && list_eqb locked_image_eqb a.kit b.kit

module _ {V L : Type 0} ⦃v : Version V⦄ (format : LockFormat V) (p : Project V L)
    (r : Registry V) where
  unfoldable pub current_lock_state : Files → Result (LockError V) (Lock V)
  unfolding lookup
  current_lock_state files = do
    lock_str ← ok_or no_lock_file (lookup (lock_file_path p) files)
    ok_or bad_lock_file (format.from_str lock_str)

  -- `Lock::create`: the result, and the files that it leaves; `none` when `resolve` runs out of fuel.
  unfoldable pub create : ℕ → Files → Option (Result (LockError V) (Lock V) × Files)
  unfolding resolve insert
  create fuel files = elim (resolve p r fuel) [
    | none ↦ none
    | some (err e) ↦ some (err e, files)
    | some (ok lock_state) ↦
        some (ok lock_state, insert (lock_file_path p) (format.to_string lock_state) files)
  ]

  -- The comparison of `Lock::load`.
  abbrev pub checked_lock : Lock V → Lock V → Result (LockError V) (Lock V)
  checked_lock current_lock resolved_lock =
      if lock_eqb current_lock resolved_lock then ok resolved_lock else err lock_changed

  -- `Lock::load`
  unfoldable pub load : ℕ → Files → Option (Result (LockError V) (Lock V))
  unfolding current_lock_state resolve
  load fuel files = elim (current_lock_state files) [
    | err e ↦ some (err e)
    | ok current_lock ↦ elim (resolve p r fuel) [
      | none ↦ none
      | some (err e) ↦ some (err e)
      | some (ok resolved_lock) ↦ some (checked_lock current_lock resolved_lock)
    ]
  ]

  -- `LockedSDK::resolve_sdk`
  unfoldable pub resolve_sdk : Result (LockError V) (Option (LockedImage V))
  unfolding direct_sdk_image_dep resolve_without_metadata
  resolve_sdk = elim (direct_sdk_image_dep p) [
    | none ↦ ok none
    | some none ↦ err no_vendor
    | some (some sdk) ↦ do locked ← resolve_without_metadata r sdk; ok (some locked)
  ]

  -- `LockedSDK::load`
  unfoldable pub load_sdk : Files → Result (LockError V) (LockedImage V)
  unfolding current_lock_state resolve_sdk locked_image_eqb
  load_sdk files = do
    current_lock ← current_lock_state files
    resolved ← resolve_sdk
    resolved_lock ← ok_or no_explicit_sdk resolved
    if locked_image_eqb current_lock.sdk resolved_lock then ok resolved_lock else err lock_changed
