-- ===== src/Lock/Resolve/Found.antt =====
-- `Lock::resolve` of twoliter/src/project/lock/mod.rs: what a lock that it returns holds.
use twoliter.Prelude.{ℕ, ◌≡◌, refl, sym, ap, ◌∙◌, subst, some, List, [], ◌∷◌, Elem, inl, inr, arith}
use twoliter.Prelude.Classes.{nat_eq, list_eq, pair_eq}
use twoliter.Prelude.Maps.{lookup}
use twoliter.Prelude.Results.{ok, bind-ok}
use twoliter.Project.{Version, Image, ProjectImage, Project, as_project_image, project_image_eq}
use twoliter.Lock.{LockedImage, ImageMetadata, Registry, resolve_image, resolve_without_metadata}
use twoliter.Lock.Resolve.{Lock, key_of, Progress, finish, resolve}
use twoliter.Lock.Resolve.Reach.{Reachable, direct, dependency, Reachable-unique}
use twoliter.Lock.Resolve.Invariant.{IsDistinct, IsDone, IsCovered, HasEntry, Invariant}
use twoliter.Lock.Resolve.Complete.{resolve-Invariant}

module _ {V L : Type 0} ⦃v : Version V⦄ (p : Project V L) (r : Registry V) where
  -- When nothing is pending, a covered image is done.
  IsDone-of_covered :
      (s : Progress V) (b : ProjectImage V)
      → s.remaining ≡ []
      → IsCovered p r [] s b
      → IsDone p r s b
  IsDone-of_covered s b empty (inl m) = elim m [ ]
  IsDone-of_covered s b empty (inr (inl m)) = absurd (subst (λ x. Elem b x) empty m)
  IsDone-of_covered s b empty (inr (inr h)) = h

  module _ (s : Progress V) (inv : Invariant p r [] s) (empty : s.remaining ≡ []) where
    entry_of_done : (b : ProjectImage V) → Reachable p r b → IsDone p r s b → HasEntry p r [] s b
    entry_of_done b reach done =
        let (a, reach_a, same_key, same_version, entry) =
          inv.known_entry (key_of b) b.image.version done in
        subst (λ x. HasEntry p r [] s x)
          (Reachable-unique p r a b reach_a reach same_key same_version) entry

    Reachable-IsDone : (b : ProjectImage V) → Reachable p r b → IsDone p r s b
    Reachable-IsDone b (direct image _ listed own) =
        let (c, own_c, covered) = inv.direct_covered image listed in
        let e : c ≡ b = ground arith in
        subst (λ x. IsDone p r s x) e (IsDone-of_covered s c empty covered)
    Reachable-IsDone b (dependency parent l m dep _ reach resolved listed own) =
        let (l', m', resolved', _, _, kits) =
          entry_of_done parent reach (Reachable-IsDone parent reach) in
        let same : m ≡ m' = ground arith in
        let (c, own_c, covered) = kits dep (subst (λ x. Elem dep x.kits) same listed) in
        let e : c ≡ b = ground arith in
        subst (λ x. IsDone p r s x) e (IsDone-of_covered s c empty covered)

    Reachable-entry : (b : ProjectImage V) → Reachable p r b → HasEntry p r [] s b
    Reachable-entry b reach = entry_of_done b reach (Reachable-IsDone b reach)

    -- What a lock takes from the variables.
    finish-ok :
        (lock : Lock V)
        → finish p r s ≡ ok lock
        → (lock.kit ≡ s.locked)
          × ((sdk : ProjectImage V) × (s.sdk_set ≡ sdk ∷ [])
              × (resolve_without_metadata r sdk ≡ ok lock.sdk))
    unfolding finish
    finish-ok lock h = of_set s.sdk_set refl h
      where
        of_set :
            (set : List (ProjectImage V))
            → s.sdk_set ≡ set
            → finish p r (record s { sdk_set = set }) ≡ ok lock
            → (lock.kit ≡ s.locked)
              × ((sdk : ProjectImage V) × (s.sdk_set ≡ sdk ∷ [])
                  × (resolve_without_metadata r sdk ≡ ok lock.sdk))
        of_set [] e k = ground arith
        of_set (sdk ∷ []) e k =
            let (locked_sdk, resolved, k') = bind-ok (resolve_without_metadata r sdk) _ _ k in
            (ground arith, (sdk, e, ground arith))
        of_set (_ ∷ _ ∷ _) e k = ground arith

  -- A lock that `resolve` returns has a kit for each image that the project depends on, directly or
  -- through the metadata of other kits, resolved, and no other kit.
  pub resolve_kits :
      (fuel : ℕ) (lock : Lock V)
      → resolve p r fuel ≡ some (ok lock)
      → ((i : ProjectImage V)
          → Reachable p r i
          → (l : LockedImage V) × (m : ImageMetadata V) × (resolve_image r i ≡ ok (l, m))
            × Elem l lock.kit)
        × ((l : LockedImage V)
            → Elem l lock.kit
            → (i : ProjectImage V) × (m : ImageMetadata V) × Reachable p r i
              × (resolve_image r i ≡ ok (l, m)))
  resolve_kits fuel lock h =
      let (s, inv, empty, finished) = resolve-Invariant p r fuel lock h in
      let (kits, _) = finish-ok s inv empty lock finished in
      (
        λ i reach.
            let (l, m, resolved, listed, _, _) = Reachable-entry s inv empty i reach in
            (l, m, resolved, subst (λ x. Elem l x) (sym kits) listed),
        λ l listed.
            let (i, m, reach, resolved, _) =
              inv.locked_origin l (subst (λ x. Elem l x) kits listed) in
            (i, m, reach, resolved),
      )

  -- No two kits of a lock that `resolve` returns have the same name and vendor.
  pub resolve-IsDistinct :
      (fuel : ℕ) (lock : Lock V) → resolve p r fuel ≡ some (ok lock) → IsDistinct lock.kit
  resolve-IsDistinct fuel lock h =
      let (s, inv, empty, finished) = resolve-Invariant p r fuel lock h in
      let (kits, _) = finish-ok s inv empty lock finished in
      subst IsDistinct (sym kits) inv.distinct

  -- When `resolve` returns a lock, two images that the project depends on with the same name and
  -- vendor have the same version.
  pub resolve_one_version :
      (fuel : ℕ) (lock : Lock V) (i j : ProjectImage V)
      → resolve p r fuel ≡ some (ok lock)
      → Reachable p r i
      → Reachable p r j
      → key_of i ≡ key_of j
      → i.image.version ≡ j.image.version
  resolve_one_version fuel lock i j h reach_i reach_j same =
      let (s, inv, empty, _) = resolve-Invariant p r fuel lock h in
      let done_i = Reachable-IsDone s inv empty i reach_i in
      let done_j = Reachable-IsDone s inv empty j reach_j in
      let e : some i.image.version ≡ some j.image.version =
        sym done_i ∙ ap (λ k. lookup k s.known) same ∙ done_j in
      ground arith

  -- The SDK of a lock that `resolve` returns is the resolution of one image, which is the SDK that
  -- the project names, if it names one, and the SDK that each kit the project depends on was built
  -- with.
  pub resolve_single_sdk :
      (fuel : ℕ) (lock : Lock V)
      → resolve p r fuel ≡ some (ok lock)
      → (sdk : ProjectImage V) × (resolve_without_metadata r sdk ≡ ok lock.sdk)
        × ((image : Image V) → p.sdk ≡ some image → as_project_image p image ≡ some sdk)
        × ((i : ProjectImage V) (l : LockedImage V) (m : ImageMetadata V)
            → Reachable p r i
            → resolve_image r i ≡ ok (l, m)
            → as_project_image p m.sdk ≡ some sdk)
  resolve_single_sdk fuel lock h =
      let (s, inv, empty, finished) = resolve-Invariant p r fuel lock h in
      let (_, (sdk, alone, resolved)) = finish-ok s inv empty lock finished in
      (
        sdk,
        resolved,
        λ image named.
            let (b, own, listed) = inv.direct_sdk image named in
            own ∙ ap some (only s.sdk_set b sdk alone listed),
        λ i l m reach kit.
            let (l', m', kit', _, (b, own, listed), _) = Reachable-entry s inv empty i reach in
            let same : m' ≡ m = ground arith in
            ap (λ x. as_project_image p x.sdk) (sym same)
            ∙ own
            ∙ ap some (only s.sdk_set b sdk alone listed),
      )
    where
      only :
          (set : List (ProjectImage V)) (b sdk : ProjectImage V)
          → set ≡ sdk ∷ []
          → Elem b set
          → b ≡ sdk
      only set b sdk e m = elim (subst (λ x. Elem b x) e m) [
        | inl here ↦ here
        | inr none_left ↦ elim none_left [ ]
      ]
