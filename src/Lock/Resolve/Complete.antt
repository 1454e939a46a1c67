-- ===== src/Lock/Resolve/Complete.antt =====
-- `Lock::resolve` of twoliter/src/project/lock/mod.rs: a lock that it returns has the kits that the
-- project reaches, each once, and one SDK.
use twoliter.Prelude.{
  ℕ, zero, suc, ◌≡◌, refl, sym, ap, ◌∙◌, subst, Option, none, some, List, [], ◌∷◌, Elem, inl, inr,
  Option-cases, arith,
}
use twoliter.Prelude.Classes.{nat_eq, list_eq, pair_eq}
use twoliter.Prelude.Maps.{lookup}
use twoliter.Prelude.Results.{Result, ok, err, bind-ok, ok_or-ok, ok_or}
use twoliter.Project.{
  Version, Image, ProjectImage, Project, as_project_image, project_image_eq, collect_images,
  direct_kit_deps, direct_sdk_image_dep,
}
use twoliter.Lock.{Registry, LockError, no_vendor}
use twoliter.Lock.Resolve.{
  Lock, Progress, visit, visit_all, rounds, start, finish, resolve, direct_sdk_set,
}
use twoliter.Lock.Resolve.Reach.{direct}
use twoliter.Lock.Resolve.Invariant.{Invariant}
use twoliter.Lock.Resolve.Visit.{Invariant-shift}
use twoliter.Lock.Resolve.Rounds.{visit-Invariant}

collect_images-Elem :
    {V L : Type 0} (p : Project V L) (images : List (Image V)) (all : List (ProjectImage V))
    → collect_images p images ≡ some all
    → ((image : Image V)
        → Elem image images
        → (b : ProjectImage V) × (as_project_image p image ≡ some b) × Elem b all)
      × ((b : ProjectImage V)
          → Elem b all
          → (image : Image V) × Elem image images × (as_project_image p image ≡ some b))
collect_images-Elem p [] all h =
    let e : [] ≡ all = ground arith in
    (λ image m. elim m [ ], λ b m. absurd (subst (λ x. Elem b x) (sym e) m))
collect_images-Elem p (image ∷ images) all h = elim (Option-cases (as_project_image p image)) [
  | inl e ↦ ground arith
  | inr (i, e) ↦ elim (Option-cases (collect_images p images)) [
    | inl f ↦ ground arith
    | inr (rest, f) ↦
        let (there, back) = collect_images-Elem p images rest f in
        let whole : i ∷ rest ≡ all = ground arith in
        (
          λ x m. elim m [
            | inl here ↦ (
              i,
              subst (λ y. as_project_image p y ≡ some i) (sym here) e,
              subst (λ y. Elem i y) whole (inl refl),
            )
            | inr later ↦
                let (b, own, listed) = there x later in
                (b, own, subst (λ y. Elem b y) whole (inr listed))
          ],
          λ b m.
              let m' : Elem b (i ∷ rest) = subst (λ y. Elem b y) (sym whole) m in
              elim m' [
                | inl here ↦ (image, inl refl, e ∙ ap some (sym here))
                | inr later ↦ let (x, listed, own) = back b later in (x, inr listed, own)
              ],
        )
  ]
]

module _ {V L : Type 0} ⦃v : Version V⦄ (p : Project V L) (r : Registry V) where
  pub visit_all-Invariant :
      (pending : List (ProjectImage V)) (s s' : Progress V)
      → Invariant p r pending s
      → visit_all p r pending s ≡ ok s'
      → Invariant p r [] s'
  unfolding visit_all
  visit_all-Invariant [] s s' inv h =
      let e : s ≡ s' = ground arith in subst (λ x. Invariant p r [] x) e inv
  visit_all-Invariant (a ∷ pending) s s' inv h =
      let (t, visited, h') = bind-ok (visit p r a s) _ _ h in
      visit_all-Invariant pending t s' (visit-Invariant p r a pending s inv t visited) h'

  -- A round takes all that remains.
  pub round-Invariant :
      (s : Progress V)
      → Invariant p r [] s
      → Invariant p r s.remaining (record s { remaining = [] })
  round-Invariant s inv =
      Invariant-shift p r [] s.remaining s (record s { remaining = [] }) refl refl refl
        (λ b c. elim c [ inl m ↦ elim m [ ] | inr (inl h) ↦ inl h | inr (inr h) ↦ inr (inr h) ])
        inv.remaining_reached (λ b m. elim m [ ]) inv

  rounds-Invariant :
      (fuel : ℕ) (remaining : List (ProjectImage V)) (s s' : Progress V)
      → remaining ≡ s.remaining
      → Invariant p r [] s
      → rounds p r fuel remaining s ≡ some (ok s')
      → Invariant p r [] s' × (s'.remaining ≡ [])
  unfolding rounds
  rounds-Invariant fuel [] s s' same inv h =
      let e : s ≡ s' = ground arith in
      (subst (λ x. Invariant p r [] x) e inv, ap (λ x. x.remaining) (sym e) ∙ sym same)
  rounds-Invariant zero (i ∷ remaining) s s' same inv h = ground arith
  rounds-Invariant (suc fuel) (i ∷ remaining) s s' same inv h =
      next (λ t kept k. rounds-Invariant fuel t.remaining t s' refl kept k)
        (visit_all p r (i ∷ remaining) (record s { remaining = [] })) refl h
    where
      taken : Invariant p r (i ∷ remaining) (record s { remaining = [] })
      taken =
          subst (λ x. Invariant p r x (record s { remaining = [] })) (sym same)
            (round-Invariant s inv)

      next :
          ((t : Progress V)
            → Invariant p r [] t
            → rounds p r fuel t.remaining t ≡ some (ok s')
            → Invariant p r [] s' × (s'.remaining ≡ []))
          → (x : Result (LockError V) (Progress V))
          → visit_all p r (i ∷ remaining) (record s { remaining = [] }) ≡ x
          → elim x [ err e ↦ some (err e) | ok t ↦ rounds p r fuel t.remaining t ] ≡ some (ok s')
          → Invariant p r [] s' × (s'.remaining ≡ [])
      next ih (err e) f k = ground arith
      next ih (ok t) f k =
          ih t (visit_all-Invariant (i ∷ remaining) (record s { remaining = [] }) t taken f) k

  start-sdk :
      (sdk_set : List (ProjectImage V))
      → direct_sdk_set (direct_sdk_image_dep p) ≡ ok sdk_set
      → (image : Image V) → p.sdk ≡ some image
      → (b : ProjectImage V) × (as_project_image p image ≡ some b) × Elem b sdk_set
  unfolding direct_sdk_image_dep
  start-sdk sdk_set h image e = elim (Option-cases (as_project_image p image)) [
    | inl f ↦ ground arith
    | inr (b, f) ↦
        let same : b ∷ [] ≡ sdk_set = ground arith in (b, f, subst (λ x. Elem b x) same (inl refl))
  ]

  pub start-Invariant : (s : Progress V) → start p r ≡ ok s → Invariant p r [] s
  unfolding start direct_kit_deps lookup
  start-Invariant s h =
      let (kits, collected, h1) = bind-ok (ok_or no_vendor (direct_kit_deps p)) _ _ h in
      let own = ok_or-ok no_vendor (direct_kit_deps p) kits collected in
      let (there, back) = collect_images-Elem p p.kit kits own in
      let (sdk_set, sdk, h2) = bind-ok (direct_sdk_set (direct_sdk_image_dep p)) _ _ h1 in
      let e : record { known = []; locked = []; sdk_set = sdk_set; remaining = kits } ≡ s =
        ground arith in
      subst (λ x. Invariant p r [] x) e
        (record {
          known_entry = λ k w m. ground arith;
          locked_origin = λ l m. elim m [ ];
          pending_reached = λ b m. elim m [ ];
          remaining_reached = λ b m. let (image, listed, f) = back b m in direct image b listed f;
          direct_covered =
              λ image m. let (b, f, listed) = there image m in (b, f, inr (inl listed));
          direct_sdk = start-sdk sdk_set sdk;
          distinct = tt;
        })

  -- The variables of `resolve` after the loop of a run that returns a lock.
  pub resolve-Invariant :
      (fuel : ℕ) (lock : Lock V)
      → resolve p r fuel ≡ some (ok lock)
      → (s : Progress V) × Invariant p r [] s × (s.remaining ≡ []) × (finish p r s ≡ ok lock)
  unfolding resolve
  resolve-Invariant fuel lock h = after_start (start p r) refl h
    where
      after_loop :
          (s : Progress V)
          → start p r ≡ ok s
          → (x : Option (Result (LockError V) (Progress V))) → rounds p r fuel s.remaining s ≡ x
          → elim x [
            | none ↦ none
            | some (err e) ↦ some (err e)
            | some (ok s') ↦ some (finish p r s')
          ]
            ≡ some (ok lock)
          → (s : Progress V) × Invariant p r [] s × (s.remaining ≡ []) × (finish p r s ≡ ok lock)
      after_loop s started none f k = ground arith
      after_loop s started (some (err e)) f k = ground arith
      after_loop s started (some (ok t)) f k =
          let (inv, empty) =
            rounds-Invariant fuel s.remaining s t refl (start-Invariant s started) f in
          (t, inv, empty, ground arith)

      after_start :
          (x : Result (LockError V) (Progress V))
          → start p r ≡ x
          → elim x [
            | err e ↦ some (err e)
            | ok s ↦ elim (rounds p r fuel s.remaining s) [
              | none ↦ none
              | some (err e) ↦ some (err e)
              | some (ok s') ↦ some (finish p r s')
            ]
          ]
            ≡ some (ok lock)
          → (s : Progress V) × Invariant p r [] s × (s.remaining ≡ []) × (finish p r s ≡ ok lock)
      after_start (err e) f k = ground arith
      after_start (ok s) f k = after_loop s f (rounds p r fuel s.remaining s) refl k
