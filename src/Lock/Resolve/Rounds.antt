-- ===== src/Lock/Resolve/Rounds.antt =====
-- `Lock::resolve` of twoliter/src/project/lock/mod.rs: each visit, each round and the whole loop keep
-- the invariant.
use twoliter.Prelude.{
  ◌≡◌, ◌≢◌, refl, sym, ap, ◌∙◌, subst, none, some, List, [], ◌∷◌, ◌++◌, Elem, Elem-append,
  Elem-append_left, Elem-append_right, inl, inr, Option-cases, Bool-cases, arith,
}
use twoliter.Prelude.Classes.{◌==◌, eqb_refl, nat_eq, list_eq, pair_eq}
use twoliter.Prelude.Maps.{lookup, insert, lookup-insert}
use twoliter.Prelude.Results.{ok, bind-ok, ok_or-ok, ok_or}
use twoliter.Project.{Version, ProjectImage, Project, as_project_image, project_image_eq}
use twoliter.Lock.{LockedImage, ImageMetadata, Registry, resolve_image, no_vendor}
use twoliter.Lock.Resolve.{Key, key_of, Progress, insert_new, push_kits, lock_kit, visit}
use twoliter.Lock.Resolve.Reach.{Reachable, dependency, resolve_image-ok}
use twoliter.Lock.Resolve.Invariant.{
  locked_key, IsDistinct-append, Elem-insert_new, Elem-insert_new_old, IsDone, IsCovered, HasEntry,
  Invariant,
}
use twoliter.Lock.Resolve.Visit.{
  Extends, HasSdk-mono, HasCovered-mono, HasEntry-mono, Invariant-shift, push_kits-ok,
}

module _ {V L : Type 0} ⦃v : Version V⦄ (p : Project V L) (r : Registry V) where
  module _ (a : ProjectImage V) (pending : List (ProjectImage V)) (s : Progress V)
      (inv : Invariant p r (a ∷ pending) s) where
    -- A kit that is locked.
    module _ (new : lookup (key_of a) s.known ≡ none) (l : LockedImage V) (m : ImageMetadata V)
        (sdk : ProjectImage V) (remaining : List (ProjectImage V))
        (resolved : resolve_image r a ≡ ok (l, m)) (own_sdk : as_project_image p m.sdk ≡ some sdk)
        (pushed : push_kits p r m.kits s.remaining ≡ ok remaining) where
      abbrev after : Progress V
      after = record {
        known = insert (key_of a) a.image.version s.known;
        locked = s.locked ++ l ∷ [];
        sdk_set = insert_new sdk s.sdk_set;
        remaining = remaining;
      }

      reached : Reachable p r a
      reached = inv.pending_reached a (inl refl)

      IsDone-new : IsDone p r after a
      IsDone-new =
          rw (lookup-insert (key_of a) (key_of a) a.image.version s.known, eqb_refl (key_of a))

      extends : Extends p r s after
      extends = record {
        done = λ b h. elim (Bool-cases (key_of a == key_of b)) [
          | inl same ↦
              let e : key_of a ≡ key_of b = (pair_eq.eqb_iff (key_of a) (key_of b)).0 same in
              let none_b = subst (λ k. lookup k s.known ≡ none) e new in ground arith
          | inr other ↦ rw (lookup-insert (key_of a) (key_of b) a.image.version s.known, other) h
        ];
        locked = λ k h. Elem-append_left k s.locked (l ∷ []) h;
        sdks = λ b h. Elem-insert_new_old sdk b s.sdk_set h;
      }

      IsCovered-after :
          (b : ProjectImage V) → IsCovered p r (a ∷ pending) s b → IsCovered p r pending after b
      IsCovered-after b (inl (inl e)) =
          inr (inr (subst (λ x. IsDone p r after x) (sym e) IsDone-new))
      IsCovered-after b (inl (inr h)) = inl h
      IsCovered-after b (inr (inl h)) =
          inr (inl ((push_kits-ok p r m.kits s.remaining remaining pushed).0 b h))
      IsCovered-after b (inr (inr h)) = inr (inr (extends.done b h))

      entry_new : HasEntry p r pending after a
      entry_new = (
        l,
        m,
        resolved,
        Elem-append_right l s.locked (l ∷ []) (inl refl),
        (sdk, own_sdk, Elem-insert_new sdk s.sdk_set),
        λ dep h.
            let (b, own, listed) = (push_kits-ok p r m.kits s.remaining remaining pushed).1 dep h in
            (b, own, inr (inl listed)),
      )

      entry_after :
          (k : Key) (w : V)
          → lookup k after.known ≡ some w
          → (b : ProjectImage V) × Reachable p r b
            × (key_of b ≡ k)
            × (b.image.version ≡ w)
            × HasEntry p r pending after b
      entry_after k w h = elim (Bool-cases (key_of a == k)) [
        | inl same ↦
            let e : some a.image.version ≡ some w =
              rw (lookup-insert (key_of a) k a.image.version s.known, same) at h in
            (a, reached, (pair_eq.eqb_iff (key_of a) k).0 same, ground arith, entry_new)
        | inr other ↦
            let old : lookup k s.known ≡ some w =
              rw (lookup-insert (key_of a) k a.image.version s.known, other) at h in
            let (b, reach, same, ver, entry) = inv.known_entry k w old in
            (
              b,
              reach,
              same,
              ver,
              HasEntry-mono p r (a ∷ pending) pending s after b extends IsCovered-after entry,
            )
      ]

      fresh : (k : LockedImage V) → Elem k s.locked → locked_key k ≢ locked_key l
      fresh k h e =
          let (b, n, _, resolved_k, done) = inv.locked_origin k h in
          let key_k = ap locked_key (resolve_image-ok r b k n resolved_k) in
          let key_l = ap locked_key (resolve_image-ok r a l m resolved) in
          let same : key_of b ≡ key_of a = sym key_k ∙ e ∙ key_l in
          let none_b = subst (λ x. lookup x s.known ≡ none) (sym same) new in ground arith

      after-Invariant : Invariant p r pending after
      after-Invariant = record {
        known_entry = entry_after;
        locked_origin = λ k h. elim (Elem-append k s.locked (l ∷ []) h) [
          | inl old ↦
              let (b, n, reach, e, done) = inv.locked_origin k old in
              (b, n, reach, e, extends.done b done)
          | inr (inl e) ↦ (
            a,
            m,
            reached,
            subst (λ x. resolve_image r a ≡ ok (x, m)) (sym e) resolved,
            IsDone-new,
          )
          | inr (inr e) ↦ elim e [ ]
        ];
        pending_reached = λ b h. inv.pending_reached b (inr h);
        remaining_reached = λ b h.
            elim ((push_kits-ok p r m.kits s.remaining remaining pushed).2 b h) [
              | inl old ↦ inv.remaining_reached b old
              | inr (dep, listed, own) ↦ dependency a l m dep b reached resolved listed own
            ];
        direct_covered = λ image h.
            HasCovered-mono p r (a ∷ pending) pending s after image IsCovered-after
              (inv.direct_covered image h);
        direct_sdk = λ image h. HasSdk-mono p r s after image extends (inv.direct_sdk image h);
        distinct = IsDistinct-append s.locked l inv.distinct fresh;
      }

    lock_kit-Invariant :
        (s' : Progress V)
        → lookup (key_of a) s.known ≡ none
        → lock_kit p r a s ≡ ok s'
        → Invariant p r pending s'
    unfolding lock_kit
    lock_kit-Invariant s' new h =
        let ((l, m), resolved, h1) = bind-ok (resolve_image r a) _ _ h in
        let (sdk, own, h2) = bind-ok (ok_or no_vendor (as_project_image p m.sdk)) _ _ h1 in
        let (remaining, pushed, h3) = bind-ok (push_kits p r m.kits s.remaining) _ _ h2 in
        let own_sdk = ok_or-ok no_vendor (as_project_image p m.sdk) sdk own in
        let e : after new l m sdk remaining resolved own_sdk pushed ≡ s' = ground arith in
        subst (λ x. Invariant p r pending x) e
          (after-Invariant new l m sdk remaining resolved own_sdk pushed)

    pub visit-Invariant : (s' : Progress V) → visit p r a s ≡ ok s' → Invariant p r pending s'
    unfolding visit
    visit-Invariant s' h = elim (Option-cases (lookup (key_of a) s.known)) [
      | inl new ↦ lock_kit-Invariant s' new (rw (new, visit) at h)
      | inr (w, old) ↦ elim (Bool-cases (v.version_eq.eqb a.image.version w)) [
        | inl same ↦
            let e : s ≡ s' = ground arith in
            let ver = (v.version_eq.eqb_iff a.image.version w).0 same in
            let done : IsDone p r s a = old ∙ ap some (sym ver) in
            subst (λ x. Invariant p r pending x) e
              (Invariant-shift p r (a ∷ pending) pending s s refl refl refl
                (λ b c. elim c [
                  | inl (inl here) ↦ inr (inr (subst (λ x. IsDone p r s x) (sym here) done))
                  | inl (inr later) ↦ inl later
                  | inr k ↦ inr k
                ])
                (λ b k. inv.pending_reached b (inr k)) inv.remaining_reached inv)
        | inr other ↦ ground arith
      ]
    ]
