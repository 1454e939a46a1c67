-- ===== src/UpdateMetadata/Migrations/Chain.antt =====
-- `find_migrations` of tools/update-metadata/src/lib.rs: the scripts that it returns, and its errors.
use mathlib.Core.List.{reverse, append-nil, append_assoc, reverse-reverse}
use twoliter.Prelude.{
  ℕ, zero, suc, ◌≡◌, ◌⊎◌, inl, inr, refl, sym, ◌∙◌, ap, subst, true, false, List, [], ◌++◌, Text,
  arith, Elem, All, Bool-cases, Option-cases, if◌then◌else◌,
}
use twoliter.Prelude.Classes.{Order, same, same_iff, lt_asymm}
use twoliter.UpdateMetadata.Migrations.{
  Found, found, missing_migration, out_of_fuel, Migrations, keys, leads, next_transition,
  scripts_at, extend, find_from, find_migrations_forward, reverse_found, find_migrations,
}
use twoliter.UpdateMetadata.Migrations.Step.{
  IsNext, next_transition-IsNext, next_transition-eq-none, scripts_at-Elem,
}

module _ {V : Type 0} ⦃o : Order V⦄ where
  -- A walk through the manifest that takes the farthest transition at each version, with the scripts
  -- of its entries in order.
  pub data Chain (m : Migrations V) (to : V) : V → List Text → Type 0 where
    arrived : {version : V} → version ≡ to → Chain m to version []
    via :
        {version : V} {rest : List Text} (k : V × V) (scripts : List Text)
        → IsNext version to m k
        → Elem (k, scripts) m
        → Chain m to k.1 rest
        → Chain m to version (scripts ++ rest)

  reversed_found :
      (r : Found V) (l : List Text)
      → reverse_found r ≡ found l
      → (up : List Text) × (r ≡ found up) × (l ≡ reverse up)
  reversed_found (found up) l e = (up, refl, cc)
  reversed_found (missing_migration a b) l e = cc
  reversed_found out_of_fuel l e = cc

  reverse_found-reverse_found : (r : Found V) → reverse_found (reverse_found r) ≡ r
  reverse_found-reverse_found (found up) = ap found (reverse-reverse up)
  reverse_found-reverse_found (missing_migration a b) = refl
  reverse_found-reverse_found out_of_fuel = refl

  find_from-Chain :
      (fuel : ℕ) (targets : List Text) (version to : V) (m : Migrations V) (l : List Text)
      → find_from fuel targets version to m ≡ found l
      → (rest : List Text) × (l ≡ targets ++ rest) × Chain m to version rest
  unfolding find_from
  find_from-Chain zero targets version to m l e = cc
  find_from-Chain (suc fuel) targets version to m l e = elim (Bool-cases (same version to)) [
    | inl at ↦ ([], ground (arith, append-nil targets), arrived ((same_iff version to).0 at))
    | inr away ↦ elim (Option-cases (next_transition version to m)) [
      | inl stuck ↦ absurd (ground arith)
      | inr (k, next) ↦
          let is_next = next_transition-IsNext version to m k next in
          let (scripts, at, listed) = scripts_at-Elem k m is_next.listed in
          let (rest, split, chain) =
            find_from-Chain fuel (targets ++ scripts) k.1 to m l (ground arith) in
          (
            scripts ++ rest,
            split ∙ append_assoc targets scripts rest,
            via k scripts is_next listed chain,
          )
    ]
  ]

  -- The loop reports a missing migration only at a version that differs from the target and that no
  -- transition within the target leaves.
  find_from_missing :
      (fuel : ℕ) (targets : List Text) (version to : V) (m : Migrations V) (at target : V)
      → find_from fuel targets version to m ≡ missing_migration at target
      → (target ≡ to) × (same at to ≡ false) × All (λ k. leads at to k ≡ false) (keys m)
  unfolding find_from
  find_from_missing zero targets version to m at target e = cc
  find_from_missing (suc fuel) targets version to m at target e =
      elim (Bool-cases (same version to)) [
        | inl there ↦ absurd (ground arith)
        | inr away ↦ elim (Option-cases (next_transition version to m)) [
          | inl stuck ↦
              let here : version ≡ at = ground arith in
              (
                ground arith,
                subst (λ v. same v to ≡ false) here away,
                subst (λ v. All (λ k. leads v to k ≡ false) (keys m)) here
                    (next_transition-eq-none version to m stuck),
              )
          | inr (k, next) ↦
              find_from_missing fuel (extend targets (scripts_at k m)) k.1 to m at target
                (ground arith)
        ]
      ]

  -- A list of scripts that the search returns for a later target is the concatenation, in order, of
  -- the scripts along a walk of farthest transitions from the one version to the other. For an earlier
  -- target it is the reverse of such a list for the walk up to the start, and for an equal one empty.
  pub find_migrations-Chain :
      (fuel : ℕ) (from to : V) (m : Migrations V) (l : List Text)
      → find_migrations fuel from to m ≡ found l
      → ((from ≡ to) × (l ≡ []))
        ⊎ ((o.lt from to ≡ true) × Chain m to from l)
        ⊎ ((o.lt to from ≡ true) × ((up : List Text) × (l ≡ reverse up) × Chain m from to up))
  unfolding find_migrations
  find_migrations-Chain fuel from to m l e = elim (Bool-cases (same from to)) [
    | inl equal ↦ inl ((same_iff from to).0 equal, ground arith)
    | inr away ↦ elim (Bool-cases (o.lt to from)) [
      | inl down ↦
          let (up, forward, same_list) =
            reversed_found (find_from fuel [] to from m) l (ground arith) in
          let (rest, split, chain) = find_from-Chain fuel [] to from m up forward in
          inr (inr (down, (up, same_list, subst (Chain m from to) (sym split) chain)))
      | inr not_down ↦
          let (rest, split, chain) = find_from-Chain fuel [] from to m l (ground arith) in
          inr (inl (ground arith, subst (Chain m to from) (sym split) chain))
    ]
  ]

  -- Searching backward gives the reverse of what searching forward gives, and the same error.
  pub find_migrations-reverse :
      (fuel : ℕ) (from to : V) (m : Migrations V)
      → find_migrations fuel to from m ≡ reverse_found (find_migrations fuel from to m)
  unfolding find_migrations
  find_migrations-reverse fuel from to m = ground (
    arith,
    lt_asymm from to,
    o.lt_connex from to,
    reverse_found-reverse_found (find_migrations_forward fuel to from m),
  )

  missing_of_reverse :
      (r : Found V) (at target : V)
      → reverse_found r ≡ missing_migration at target
      → r ≡ missing_migration at target
  missing_of_reverse (found up) at target e = cc
  missing_of_reverse (missing_migration a b) at target e = e
  missing_of_reverse out_of_fuel at target e = cc

  -- A missing migration is reported with the later of the two versions as its target, and at a version
  -- that differs from it and that no transition within the target leaves.
  pub find_migrations_missing :
      (fuel : ℕ) (from to : V) (m : Migrations V) (at target : V)
      → find_migrations fuel from to m ≡ missing_migration at target
      → (target ≡ (if o.lt to from then from else to))
        × (same at target ≡ false)
        × All (λ k. leads at target k ≡ false) (keys m)
  unfolding find_migrations
  find_migrations_missing fuel from to m at target e = elim (Bool-cases (same from to)) [
    | inl equal ↦ absurd (ground arith)
    | inr away ↦ elim (Bool-cases (o.lt to from)) [
      | inl down ↦
          let up = missing_of_reverse (find_from fuel [] to from m) at target (ground arith) in
          let (target_is, differs, none_leaves) =
            find_from_missing fuel [] to from m at target up in
          rw (down, target_is) (refl, differs, none_leaves)
      | inr not_down ↦
          let (target_is, differs, none_leaves) =
            find_from_missing fuel [] from to m at target (ground arith) in
          rw (not_down, target_is) (refl, differs, none_leaves)
    ]
  ]
