-- ===== src/UpdateMetadata/Migrations/Fuel.antt =====
-- Whether the loop of `find_migrations_forward` in tools/update-metadata/src/lib.rs ends.
use twoliter.Prelude.{
  ℕ, zero, suc, ◌≤◌, ◌<◌, ◌≡◌, ◌≢◌, inl, inr, refl, sym, subst, true, false, List, [], ◌∷◌, some,
  Text, arith, length, keep, Elem, All, All-at, length-keep_lt, Bool-cases, Option-cases,
}
use twoliter.Prelude.Classes.{Order, same, same_iff, lt_asymm}
use twoliter.UpdateMetadata.Migrations.{
  Found, found, missing_migration, out_of_fuel, Migrations, at_most, keys, leads, next_transition,
  scripts_at, extend, find_from, reverse_found, find_migrations,
}
use twoliter.UpdateMetadata.Migrations.Step.{
  IsNext, next_transition-IsNext, next_transition-eq-none, at_most_trans,
}

module _ {V : Type 0} ⦃o : Order V⦄ where
  -- Every transition goes to a later version.
  abbrev pub IsForward : Migrations V → Type 0
  IsForward m = All (λ k. o.lt k.0 k.1 ≡ true) (keys m)

  -- The number of transitions that leave from the version or from a later one.
  abbrev ahead : V → Migrations V → ℕ
  ahead version m = length (keep (λ k. at_most version k.0) (keys m))

  ahead_falls :
      (version to : V) (m : Migrations V) (k : V × V)
      → IsForward m
      → IsNext version to m k
      → ahead k.1 m < ahead version m
  ahead_falls version to m k forward next =
      let up : o.lt version k.1 ≡ true =
        subst (λ v. o.lt v k.1 ≡ true) next.leaves
          (All-at (λ k. o.lt k.0 k.1 ≡ true) k (keys m) forward next.listed) in
      length-keep_lt (λ j. at_most k.1 j.0) (λ j. at_most version j.0) k (keys m)
        (λ j h.
          at_most_trans version k.1 j.0
            (ground (arith, o.lt_trans version k.1 version, o.lt_irrefl version)) h)
        next.listed (subst (λ v. at_most k.1 v ≡ false) (sym next.leaves) (ground arith))
        (subst (λ v. at_most version v ≡ true) (sym next.leaves)
          (ground (arith, o.lt_irrefl version)))

  find_from-ne-out_of_fuel :
      (fuel : ℕ) (targets : List Text) (version to : V) (m : Migrations V)
      → IsForward m
      → ahead version m < fuel
      → find_from fuel targets version to m ≢ out_of_fuel
  unfolding find_from
  find_from-ne-out_of_fuel zero targets version to m forward h e = absurd (omega arith)
  find_from-ne-out_of_fuel (suc fuel) targets version to m forward h e =
      elim (Bool-cases (same version to)) [
        | inl arrived ↦ ground arith
        | inr away ↦ elim (Option-cases (next_transition version to m)) [
          | inl stuck ↦ ground arith
          | inr (k, next) ↦
              let falls =
                ahead_falls version to m k forward (next_transition-IsNext version to m k next) in
              find_from-ne-out_of_fuel fuel (extend targets (scripts_at k m)) k.1 to m forward
                (omega arith) (ground arith)
        ]
      ]

  ahead-le-length : (version : V) (m : Migrations V) → ahead version m ≤ length m
  ahead-le-length version [] = omega arith
  ahead-le-length version (e ∷ m) = ground (arith, ahead-le-length version m)

  forward_or_back : (r : Found V) → r ≢ out_of_fuel → reverse_found r ≢ out_of_fuel
  forward_or_back (found l) h e = cc
  forward_or_back (missing_migration a b) h e = cc
  forward_or_back out_of_fuel h e = h refl

  -- If every transition of the manifest goes to a later version, the search ends after at most one
  -- round more than there are transitions, with scripts or with a missing migration.
  pub find_migrations_total :
      (fuel : ℕ) (from to : V) (m : Migrations V)
      → IsForward m
      → length m < fuel
      → find_migrations fuel from to m ≢ out_of_fuel
  unfolding find_migrations
  find_migrations_total fuel from to m forward h = ground (
    arith,
    find_from-ne-out_of_fuel fuel [] from to m forward,
    forward_or_back (find_from fuel [] to from m),
    find_from-ne-out_of_fuel fuel [] to from m forward,
    ahead-le-length from m,
    ahead-le-length to m,
  )

  stays :
      (v to : V) (m : Migrations V)
      → Elem (v, v) (keys m)
      → o.lt v to ≡ true
      → All (λ k. leads v to k ≡ true → at_most k.1 v ≡ true) (keys m)
      → (k : V × V) × (next_transition v to m ≡ some k) × (k.1 ≡ v)
  stays v to m loops below top = elim (Option-cases (next_transition v to m)) [
    | inl stuck ↦ absurd (
        ground (
          arith,
          All-at (λ j. leads v to j ≡ false) (v, v) (keys m) (next_transition-eq-none v to m stuck)
              loops,
          o.lt_irrefl v,
          o.lt_trans v to v,
        ))
    | inr (k, next) ↦
        let is_next = next_transition-IsNext v to m k next in
        let reaches =
          All-at (λ j. leads v to j ≡ true → at_most j.1 k.1 ≡ true) (v, v) (keys m)
            is_next.farthest loops (ground (arith, o.lt_irrefl v, o.lt_trans v to v)) in
        let stays_low =
          All-at (λ j. leads v to j ≡ true → at_most j.1 v ≡ true) k (keys m) top is_next.listed
            (ground (arith, is_next.within, (same_iff k.0 v).1 is_next.leaves)) in
        (k, next, o.lt_connex k.1 v (ground arith) (ground arith))
  ]

  -- If the manifest has a transition from a version to itself, and no transition from it within the
  -- target goes farther, a search from that version to a later one never ends, whatever the fuel.
  pub find_migrations_diverges :
      (fuel : ℕ) (v to : V) (m : Migrations V)
      → Elem (v, v) (keys m)
      → o.lt v to ≡ true
      → All (λ k. leads v to k ≡ true → at_most k.1 v ≡ true) (keys m)
      → find_migrations fuel v to m ≡ out_of_fuel
  unfolding find_migrations
  find_migrations_diverges fuel v to m loops below top = ground (arith, lt_asymm v to, loop fuel [])
    where
      loop : (n : ℕ) (targets : List Text) → find_from n targets v to m ≡ out_of_fuel
      loop zero targets = refl
      loop (suc n) targets =
          let (k, next, same_version) = stays v to m loops below top in
          ground (
            arith,
            next,
            subst (λ x. find_from n (extend targets (scripts_at k m)) x to m ≡ out_of_fuel)
                (sym same_version) (loop n (extend targets (scripts_at k m))),
          )
