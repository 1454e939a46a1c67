-- ===== src/Lock/Resolve/Total.antt =====
-- `Lock::resolve` of twoliter/src/project/lock/mod.rs: the loop ends when the names and vendors of the
-- kits that the project reaches are finitely many.
use twoliter.Prelude.{
  ℕ, zero, suc, ◌<◌, ◌≡◌, refl, sym, ap, subst, Bool, true, false, not, none, some, List, [], ◌∷◌,
  Elem, ◌⊎◌, inl, inr, Option-cases, Bool-cases, arith, length, keep, length-keep, length-keep_lt,
  is_some,
}
use twoliter.Prelude.Classes.{◌==◌, eqb_refl, nat_eq, list_eq, pair_eq}
use twoliter.Prelude.Maps.{Map, lookup, insert, lookup-insert}
use twoliter.Prelude.Results.{Result, ok, err, bind-ok, ok_or}
use twoliter.Project.{Version, ProjectImage, Project, as_project_image, project_image_eq}
use twoliter.Lock.{Registry, LockError, resolve_image, no_vendor}
use twoliter.Lock.Resolve.{
  Lock, Key, key_of, Progress, push_kits, lock_kit, visit, visit_all, rounds, start, finish,
  resolve,
}
use twoliter.Lock.Resolve.Reach.{Reachable}
use twoliter.Lock.Resolve.Invariant.{Invariant}
use twoliter.Lock.Resolve.Rounds.{visit-Invariant}
use twoliter.Lock.Resolve.Complete.{visit_all-Invariant, round-Invariant, start-Invariant}

abbrev unknown : {V : Type 0} → Map Key V → Key → Bool
unknown known k = not (is_some (lookup k known))

-- How many of the keys are not known.
abbrev unknown_count : {V : Type 0} → List Key → Map Key V → ℕ
unknown_count keys known = length (keep (unknown known) keys)

unknown_count-insert :
    {V : Type 0} (keys : List Key) (known : Map Key V) (k : Key) (w : V)
    → Elem k keys
    → lookup k known ≡ none
    → unknown_count keys (insert k w known) < unknown_count keys known
unknown_count-insert keys known k w listed new =
    length-keep_lt (unknown (insert k w known)) (unknown known) k keys still listed now_known
      (rw new refl)
  where
    still : (x : Key) → unknown (insert k w known) x ≡ true → unknown known x ≡ true
    still x h = elim (Bool-cases (k == x)) [
      | inl same ↦ ground (arith, lookup-insert k x w known)
      | inr other ↦ ground (arith, lookup-insert k x w known)
    ]

    now_known : unknown (insert k w known) k ≡ false
    now_known = rw (lookup-insert k k w known, eqb_refl k) refl

module _ {V L : Type 0} ⦃v : Version V⦄ (p : Project V L) (r : Registry V) where
  lock_kit-known :
      (a : ProjectImage V) (s s' : Progress V)
      → lock_kit p r a s ≡ ok s'
      → s'.known ≡ insert (key_of a) a.image.version s.known
  unfolding lock_kit
  lock_kit-known a s s' h =
      let ((l, m), _, h1) = bind-ok (resolve_image r a) _ _ h in
      let (sdk, _, h2) = bind-ok (ok_or no_vendor (as_project_image p m.sdk)) _ _ h1 in
      let (remaining, _, h3) = bind-ok (push_kits p r m.kits s.remaining) _ _ h2 in ground arith

  module _ (keys : List Key)
      (finite : (i : ProjectImage V) → Reachable p r i → Elem (key_of i) keys) where
    -- A visit changes nothing, or it makes a key known.
    Advances : Progress V → Progress V → Type 0
    Advances s s' = (s' ≡ s) ⊎ (unknown_count keys s'.known < unknown_count keys s.known)

    visit-Advances :
        (a : ProjectImage V) (pending : List (ProjectImage V)) (s s' : Progress V)
        → Invariant p r (a ∷ pending) s
        → visit p r a s ≡ ok s'
        → Advances s s'
    unfolding visit Advances
    visit-Advances a pending s s' inv h = elim (Option-cases (lookup (key_of a) s.known)) [
      | inl new ↦
          let e = lock_kit-known a s s' (rw (new, visit) at h) in
          let listed = finite a (inv.pending_reached a (inl refl)) in
          inr (
            subst (λ x. unknown_count keys x < unknown_count keys s.known) (sym e)
              (unknown_count-insert keys s.known (key_of a) a.image.version listed new))
      | inr (w, old) ↦ elim (Bool-cases (v.version_eq.eqb a.image.version w)) [
        | inl same ↦ inl (ground arith)
        | inr other ↦ ground arith
      ]
    ]

    visit_all-Advances :
        (pending : List (ProjectImage V)) (s s' : Progress V)
        → Invariant p r pending s
        → visit_all p r pending s ≡ ok s'
        → Advances s s'
    unfolding visit_all Advances
    visit_all-Advances [] s s' inv h = inl (ground arith)
    visit_all-Advances (a ∷ pending) s s' inv h =
        let (t, visited, h') = bind-ok (visit p r a s) _ _ h in
        let later =
          visit_all-Advances pending t s' (visit-Invariant p r a pending s inv t visited) h' in
        elim (visit-Advances a pending s t inv visited) [
          | inl same ↦ subst (λ x. Advances x s') same later
          | inr fewer ↦ elim later [
            | inl same ↦ inr (
                subst (λ x. unknown_count keys x.known < unknown_count keys s.known) (sym same)
                  fewer)
            | inr fewer' ↦ inr (omega arith)
          ]
        ]

    rounds_total :
        (fuel : ℕ) (s : Progress V)
        → Invariant p r [] s
        → unknown_count keys s.known < fuel
        → (x : Result (LockError V) (Progress V)) × (rounds p r fuel s.remaining s ≡ some x)
    unfolding rounds Advances
    rounds_total zero s inv h = absurd (omega arith)
    rounds_total (suc fuel) s inv h = of_remaining s.remaining refl (rounds_total fuel)
      where
        after_round :
            (i : ProjectImage V) (rest : List (ProjectImage V))
            → i ∷ rest ≡ s.remaining
            → ((t : Progress V)
                → Invariant p r [] t
                → unknown_count keys t.known < fuel
                → (x : Result (LockError V) (Progress V)) × (rounds p r fuel t.remaining t
                    ≡ some x))
            → (y : Result (LockError V) (Progress V))
            → visit_all p r (i ∷ rest) (record s { remaining = [] }) ≡ y
            → (x : Result (LockError V) (Progress V)) × (rounds p r (suc fuel) (i ∷ rest) s
                ≡ some x)
        after_round i rest same ih (err e) f = (err e, rw (f, rounds) refl)
        after_round i rest same ih (ok t) f =
            let start : Invariant p r (i ∷ rest) (record s { remaining = [] }) =
              subst (λ x. Invariant p r x (record s { remaining = [] })) (sym same)
                (round-Invariant p r s inv) in
            elim (visit_all-Advances (i ∷ rest) (record s { remaining = [] }) t start f) [
              | inl unchanged ↦
                  let e : t.remaining ≡ [] = ap (λ x. x.remaining) unchanged in
                  let g : rounds p r fuel t.remaining t ≡ some (ok t) =
                    subst (λ z. rounds p r fuel z t ≡ some (ok t)) (sym e) refl in
                  (ok t, rw (f, rounds) g)
              | inr fewer ↦
                  let kept =
                    visit_all-Invariant p r (i ∷ rest) (record s { remaining = [] }) t start f in
                  let (x, e) = ih t kept (omega arith) in (x, rw (f, rounds) e)
            ]

        of_remaining :
            (remaining : List (ProjectImage V))
            → remaining ≡ s.remaining
            → ((t : Progress V)
                → Invariant p r [] t
                → unknown_count keys t.known < fuel
                → (x : Result (LockError V) (Progress V)) × (rounds p r fuel t.remaining t
                    ≡ some x))
            → (x : Result (LockError V) (Progress V)) × (rounds p r (suc fuel) remaining s ≡ some x)
        of_remaining [] same ih = (ok s, refl)
        of_remaining (i ∷ rest) same ih =
            after_round i rest same ih (visit_all p r (i ∷ rest) (record s { remaining = [] })) refl

    -- When the names and vendors of the images that the project depends on are among finitely many,
    -- `resolve` ends, with a lock or an error, in at most as many rounds as there are, and one more.
    pub resolve_total :
        (fuel : ℕ)
        → length keys < fuel
        → (x : Result (LockError V) (Lock V)) × (resolve p r fuel ≡ some x)
    unfolding resolve
    resolve_total fuel h = after_start (start p r) refl
      where
        after_start :
            (y : Result (LockError V) (Progress V))
            → start p r ≡ y
            → (x : Result (LockError V) (Lock V)) × (resolve p r fuel ≡ some x)
        after_start (err e) f = (err e, rw (f, resolve) refl)
        after_start (ok s) f =
            let inv = start-Invariant p r s f in
            let bound = length-keep (unknown s.known) keys in
            let (y, g) = rounds_total fuel s inv (omega arith) in
            elim y
                as (λ y.
                  rounds p r fuel s.remaining s ≡ some y
                  → (x : Result (LockError V) (Lock V)) × (resolve p r fuel ≡ some x)) [
                    | err e ↦ λ g. (err e, ground arith)
                    | ok t ↦ λ g. (finish p r t, ground arith)
                  ]
              g
