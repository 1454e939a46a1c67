-- ===== src/Lock/Resolve/Visit.antt =====
-- `Lock::resolve` of twoliter/src/project/lock/mod.rs: a visit, and a round of visits, keep the
-- invariant.
use twoliter.Prelude.{
  ◌≡◌, refl, sym, ap, ◌∙◌, subst, some, List, [], ◌∷◌, ◌++◌, Elem, Elem-append, Elem-append_left,
  Elem-append_right, ◌⊎◌, inl, inr, arith,
}
use twoliter.Prelude.Classes.{nat_eq, list_eq, pair_eq}
use twoliter.Prelude.Maps.{lookup}
use twoliter.Prelude.Results.{ok, bind-ok, ok_or-ok, ok_or}
use twoliter.Project.{Version, Image, ProjectImage, Project, as_project_image, project_image_eq}
use twoliter.Lock.{LockedImage, Registry, no_vendor}
use twoliter.Lock.Resolve.{key_of, Progress, push_kits}
use twoliter.Lock.Resolve.Reach.{Reachable}
use twoliter.Lock.Resolve.Invariant.{
  IsDistinct, IsDone, IsCovered, HasCovered, HasSdk, HasEntry, Invariant,
}

module _ {V L : Type 0} ⦃v : Version V⦄ (p : Project V L) (r : Registry V) where
  -- The second state has all that the first one has.
  pub record Extends (s s' : Progress V) : Type 0 where
    pub done : (b : ProjectImage V) → IsDone p r s b → IsDone p r s' b
    pub locked : (l : LockedImage V) → Elem l s.locked → Elem l s'.locked
    pub sdks : (b : ProjectImage V) → Elem b s.sdk_set → Elem b s'.sdk_set

  pub HasSdk-mono :
      (s s' : Progress V) (image : Image V)
      → Extends s s'
      → HasSdk p r s image
      → HasSdk p r s' image
  HasSdk-mono s s' image ext (b, h, m) = (b, h, ext.sdks b m)

  pub HasCovered-mono :
      (pending pending' : List (ProjectImage V)) (s s' : Progress V) (image : Image V)
      → ((b : ProjectImage V) → IsCovered p r pending s b → IsCovered p r pending' s' b)
      → HasCovered p r pending s image
      → HasCovered p r pending' s' image
  HasCovered-mono pending pending' s s' image f (b, h, m) = (b, h, f b m)

  pub HasEntry-mono :
      (pending pending' : List (ProjectImage V)) (s s' : Progress V) (a : ProjectImage V)
      → Extends s s'
      → ((b : ProjectImage V) → IsCovered p r pending s b → IsCovered p r pending' s' b)
      → HasEntry p r pending s a
      → HasEntry p r pending' s' a
  HasEntry-mono pending pending' s s' a ext f (l, m, e, listed, sdk, kits) = (
    l,
    m,
    e,
    ext.locked l listed,
    HasSdk-mono s s' m.sdk ext sdk,
    λ dep h. HasCovered-mono pending pending' s s' dep f (kits dep h),
  )

  Extends-refl : (s : Progress V) → Extends s s
  Extends-refl s = record { done = λ b h. h; locked = λ l h. h; sdks = λ b h. h }

  -- The invariant depends on what is covered, not on where it is covered.
  pub Invariant-shift :
      (pending pending' : List (ProjectImage V)) (s s' : Progress V)
      → s'.known ≡ s.known
      → s'.locked ≡ s.locked
      → s'.sdk_set ≡ s.sdk_set
      → ((b : ProjectImage V) → IsCovered p r pending s b → IsCovered p r pending' s' b)
      → ((b : ProjectImage V) → Elem b pending' → Reachable p r b)
      → ((b : ProjectImage V) → Elem b s'.remaining → Reachable p r b)
      → Invariant p r pending s
      → Invariant p r pending' s'
  Invariant-shift pending pending' s s' k l d f pr rr inv = record {
    known_entry = λ key w h.
        let (a, reach, same, ver, entry) =
          inv.known_entry key w (subst (λ x. lookup key x ≡ some w) k h) in
        (a, reach, same, ver, HasEntry-mono pending pending' s s' a ext f entry);
    locked_origin = λ x h.
        let (a, m, reach, e, done) = inv.locked_origin x (subst (λ y. Elem x y) l h) in
        (a, m, reach, e, ext.done a done);
    pending_reached = pr;
    remaining_reached = rr;
    direct_covered =
        λ image h. HasCovered-mono pending pending' s s' image f (inv.direct_covered image h);
    direct_sdk = λ image h. HasSdk-mono s s' image ext (inv.direct_sdk image h);
    distinct = subst IsDistinct (sym l) inv.distinct;
  }
    where
      ext : Extends s s'
      ext = record {
        done = λ b h. subst (λ x. lookup (key_of b) x ≡ some b.image.version) (sym k) h;
        locked = λ x h. subst (λ y. Elem x y) (sym l) h;
        sdks = λ b h. subst (λ y. Elem b y) (sym d) h;
      }

  -- What the loop over the kits of the metadata adds.
  pub push_kits-ok :
      (deps : List (Image V)) (remaining result : List (ProjectImage V))
      → push_kits p r deps remaining ≡ ok result
      → ((b : ProjectImage V) → Elem b remaining → Elem b result)
        × ((dep : Image V)
            → Elem dep deps
            → (b : ProjectImage V) × (as_project_image p dep ≡ some b) × Elem b result)
        × ((b : ProjectImage V)
            → Elem b result
            → Elem b remaining
              ⊎ ((dep : Image V) × Elem dep deps × (as_project_image p dep ≡ some b)))
  unfolding push_kits
  push_kits-ok [] remaining result h =
      let e : remaining ≡ result = ground arith in
      (
        λ b m. subst (λ x. Elem b x) e m,
        λ dep m. elim m [ ],
        λ b m. inl (subst (λ x. Elem b x) (sym e) m),
      )
  push_kits-ok (dep ∷ deps) remaining result h =
      let (i, found, h') = bind-ok (ok_or no_vendor (as_project_image p dep)) _ _ h in
      let own = ok_or-ok no_vendor (as_project_image p dep) i found in
      let (old, new, origin) = push_kits-ok deps (remaining ++ i ∷ []) result h' in
      (
        λ b m. old b (Elem-append_left b remaining (i ∷ []) m),
        λ d m. elim m [
          | inl e ↦ (
            i,
            subst (λ x. as_project_image p x ≡ some i) (sym e) own,
            old i (Elem-append_right i remaining (i ∷ []) (inl refl)),
          )
          | inr later ↦ new d later
        ],
        λ b m. elim (origin b m) [
          | inr (d, listed, found_d) ↦ inr (d, inr listed, found_d)
          | inl m' ↦ elim (Elem-append b remaining (i ∷ []) m') [
            | inl before ↦ inl before
            | inr (inl e) ↦ inr (dep, inl refl, own ∙ ap some (sym e))
            | inr (inr e) ↦ elim e [ ]
          ]
        ],
      )
