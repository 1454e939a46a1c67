-- ===== src/Lock/Load/Checked.antt =====
-- twoliter/src/project/lock/mod.rs: when a lock file is accepted.
use twoliter.Prelude.{
  ℕ, ◌≡◌, ◌↔◌, refl, ap, ◌∙◌, subst, true, Option, none, some, List, [], ◌∷◌, map, Text, arith,
  Bool-cases, inl, inr,
}
use twoliter.Prelude.Classes.{eqb_refl, nat_eq, list_eq, list_eqb, list_eqb_iff}
use twoliter.Prelude.Maps.{lookup, insert, lookup-insert}
use twoliter.Prelude.Results.{Result, ok, err}
use twoliter.Project.{Version, Project}
use twoliter.Lock.{LockedImage, Registry, LockError}
use twoliter.Lock.Resolve.{Lock, resolve}
use twoliter.Lock.Load.{
  Files, LockFormat, lock_file_path, locked_image_eqb, lock_eqb, current_lock_state, create,
  checked_lock, load,
}

-- What pins an image.
abbrev pub pin : {V : Type 0} → LockedImage V → Text × Text
pin l = (l.source, l.digest)

-- The locks pin the same images in the same order.
abbrev pub IsSameLock : {V : Type 0} → Lock V → Lock V → Type 0
IsSameLock a b = (pin a.sdk ≡ pin b.sdk) × (map pin a.kit ≡ map pin b.kit)

module _ {V : Type 0} where
  locked_image_eqb_iff : (a b : LockedImage V) → (locked_image_eqb a b ≡ true) ↔ (pin a ≡ pin b)
  unfolding locked_image_eqb
  locked_image_eqb_iff a b = (
    λ h.
        let source = (list_eqb_iff nat_eq a.source b.source).0 (ground arith) in
        let digest = (list_eqb_iff nat_eq a.digest b.digest).0 (ground arith) in ground arith,
    λ e.
        let source = (list_eqb_iff nat_eq a.source b.source).1 (ap (λ x. x.0) e) in
        let digest = (list_eqb_iff nat_eq a.digest b.digest).1 (ap (λ x. x.1) e) in ground arith,
  )

  kits_eqb_iff :
      (ls ks : List (LockedImage V))
      → (list_eqb locked_image_eqb ls ks ≡ true) ↔ (map pin ls ≡ map pin ks)
  kits_eqb_iff [] [] = (λ _. refl, λ _. refl)
  kits_eqb_iff [] (b ∷ ks) = (λ h. ground arith, λ h. ground arith)
  kits_eqb_iff (a ∷ ls) [] = (λ h. ground arith, λ h. ground arith)
  kits_eqb_iff (a ∷ ls) (b ∷ ks) =
      let heads = locked_image_eqb_iff a b in
      let tails = kits_eqb_iff ls ks in (λ h. ground arith, λ h. ground arith)

  lock_eqb_iff : (a b : Lock V) → (lock_eqb a b ≡ true) ↔ IsSameLock a b
  unfolding lock_eqb
  lock_eqb_iff a b =
      let sdks = locked_image_eqb_iff a.sdk b.sdk in
      let kits = kits_eqb_iff a.kit b.kit in (λ h. ground arith, λ h. ground arith)

module _ {V L : Type 0} ⦃v : Version V⦄ (format : LockFormat V) (p : Project V L)
    (r : Registry V) where
  -- `load` returns a lock when the project has a lock file that parses, the lock is what `resolve`
  -- finds now, and the file pins the same sources and digests in the same order, and only then.
  pub load_iff :
      (fuel : ℕ) (files : Files) (lock : Lock V)
      → (load format p r fuel files ≡ some (ok lock)) ↔ (
          (current : Lock V) × (current_lock_state format p r files ≡ ok current)
          × (resolve p r fuel ≡ some (ok lock))
          × IsSameLock current lock)
  unfolding load
  load_iff fuel files lock = (
    accepted (current_lock_state format p r files) (resolve p r fuel) refl refl,
    λ (current, e, f, same). let h = (lock_eqb_iff current lock).1 same in rw (load, e, f, h) refl,
  )
    where
      accepted :
          (x : Result (LockError V) (Lock V)) (y : Option (Result (LockError V) (Lock V)))
          → current_lock_state format p r files ≡ x
          → resolve p r fuel ≡ y
          → load format p r fuel files ≡ some (ok lock)
          → (current : Lock V) × (current_lock_state format p r files ≡ ok current)
            × (resolve p r fuel ≡ some (ok lock))
            × IsSameLock current lock
      accepted (err e) y f g h = ground arith
      accepted (ok current) none f g h = ground arith
      accepted (ok current) (some (err e)) f g h = ground arith
      accepted (ok current) (some (ok found)) f g h =
          let h' : some (checked_lock format p r current found) ≡ some (ok lock) = ground arith in
          elim (Bool-cases (lock_eqb current found)) [
            | inl equal ↦
                let e : found ≡ lock = ground arith in
                (
                  current,
                  f,
                  g ∙ ap (λ x. some (ok x)) e,
                  (lock_eqb_iff current lock).0 (subst (λ x. lock_eqb current x ≡ true) e equal),
                )
            | inr other ↦ ground arith
          ]

  -- A lock that `create` returns is the one that `load` returns after it, when its text reads back as
  -- itself.
  pub create-load :
      (fuel : ℕ) (files after : Files) (lock : Lock V)
      → format.from_str (format.to_string lock) ≡ some lock
      → create format p r fuel files ≡ some (ok lock, after)
      → load format p r fuel after ≡ some (ok lock)
  unfolding create current_lock_state
  create-load fuel files after lock reads h = created (resolve p r fuel) refl
    where
      created :
          (x : Option (Result (LockError V) (Lock V)))
          → resolve p r fuel ≡ x
          → load format p r fuel after ≡ some (ok lock)
      created none f = ground arith
      created (some (err e)) f = ground arith
      created (some (ok found)) f =
          let e : found ≡ lock = ground arith in
          let g : insert (lock_file_path p) (format.to_string found) files ≡ after = ground arith in
          let written : lookup (lock_file_path p) after ≡ some (format.to_string found) =
            subst (λ x. lookup (lock_file_path p) x ≡ some (format.to_string found)) g
              (rw
                (
                  lookup-insert (lock_file_path p) (lock_file_path p) (format.to_string found)
                      files,
                  eqb_refl (lock_file_path p),
                )
                refl) in
          let read : current_lock_state format p r after ≡ ok lock = rw (written, e, reads) refl in
          (load_iff fuel after lock).1 (lock, read, f ∙ ap (λ x. some (ok x)) e, (refl, refl))
