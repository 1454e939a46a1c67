-- ===== src/UpdateMetadata/Migrations/Step.antt =====
-- One round of the loop in `find_migrations_forward`: the transition that it takes.
use twoliter.Prelude.{
  ◌≡◌, ◌≢◌, ◌⊎◌, inl, inr, refl, true, false, ◌&&◌, none, some, List, [], ◌∷◌, Text, keep, arith,
  Elem, All, Bool-cases, Elem-keep, All-keep, keep-eq-nil,
}
use twoliter.Prelude.Classes.{Order, same, same_iff, not_lt_trans}
use twoliter.UpdateMetadata.Waves.{first_of_list}
use twoliter.UpdateMetadata.Migrations.{
  Migrations, at_most, insert_by_target, sort_by_target, keys, leads, next_transition, scripts_at,
}

first-eq-none : {A : Type 0} (xs : List A) → first_of_list xs ≡ none → xs ≡ []
first-eq-none [] e = refl
first-eq-none (x ∷ xs) e = cc

module _ {V : Type 0} ⦃o : Order V⦄ where
  pub at_most_trans : (a b c : V) → at_most a b ≡ true → at_most b c ≡ true → at_most a c ≡ true
  at_most_trans a b c h k = ground (arith, not_lt_trans a b c)

  -- The transition leaves from the version, stays within the target and goes as far as any.
  pub record IsNext (version to : V) (m : Migrations V) (k : V × V) : Type 0 where
    pub listed : Elem k (keys m)
    pub leaves : k.0 ≡ version
    pub within : at_most k.1 to ≡ true
    pub farthest : All (λ j. leads version to j ≡ true → at_most j.1 k.1 ≡ true) (keys m)

  abbrev Highest : V × V → List (V × V) → Type 0
  Highest k ks = Elem k ks × All (λ j. at_most j.1 k.1 ≡ true) ks

  first_insert :
      (j : V × V) (ks : List (V × V)) (k : V × V)
      → first_of_list (insert_by_target j ks) ≡ some k
      → ((k ≡ j) × (ks ≡ []))
        ⊎ ((k ≡ j) × ((i : V × V) × (first_of_list ks ≡ some i) × (o.lt j.1 i.1 ≡ false)))
        ⊎ ((first_of_list ks ≡ some k) × (o.lt j.1 k.1 ≡ true))
  unfolding insert_by_target
  first_insert j [] k e = inl (cc, refl)
  first_insert j (i ∷ is) k e = elim (Bool-cases (o.lt j.1 i.1)) [
    | inl lower ↦ inr (inr (ground arith, ground arith))
    | inr not_lower ↦ inr (inl (ground arith, (i, refl, not_lower)))
  ]

  insert-ne-nil : (j : V × V) (ks : List (V × V)) → insert_by_target j ks ≢ []
  unfolding insert_by_target
  insert-ne-nil j [] e = cc
  insert-ne-nil j (i ∷ is) e = ground arith

  sort-eq-nil : (ks : List (V × V)) → sort_by_target ks ≡ [] → ks ≡ []
  unfolding sort_by_target
  sort-eq-nil [] e = refl
  sort-eq-nil (j ∷ js) e = absurd (insert-ne-nil j (sort_by_target js) e)

  Highest-mono :
      (i k : V × V) (ks : List (V × V))
      → at_most i.1 k.1 ≡ true
      → All (λ j. at_most j.1 i.1 ≡ true) ks
      → All (λ j. at_most j.1 k.1 ≡ true) ks
  Highest-mono i k [] h a = tt
  Highest-mono i k (j ∷ js) h (p, a) = (at_most_trans j.1 i.1 k.1 p h, Highest-mono i k js h a)

  first-sort :
      (ks : List (V × V)) (k : V × V) → first_of_list (sort_by_target ks) ≡ some k → Highest k ks
  unfolding sort_by_target
  first-sort [] k e = cc
  first-sort (j ∷ js) k e = elim (first_insert j (sort_by_target js) k e) [
    | inl (same_as, alone) ↦
        let empty = sort-eq-nil js alone in
        (inl same_as, (ground (arith, o.lt_irrefl j.1), rw empty tt))
    | inr (inl (same_as, (i, found, not_lower))) ↦
        let (_, below) = first-sort js i found in
        (inl same_as, (ground (arith, o.lt_irrefl j.1), Highest-mono i k js (ground arith) below))
    | inr (inr (found, lower)) ↦
        let (listed, below) = first-sort js k found in
        (inr listed, (ground (arith, o.lt_trans j.1 k.1 j.1, o.lt_irrefl j.1), below))
  ]

  -- The transition taken is in the manifest, leaves from the version, does not pass the target, and
  -- no such transition goes farther.
  pub next_transition-IsNext :
      (version to : V) (m : Migrations V) (k : V × V)
      → next_transition version to m ≡ some k
      → IsNext version to m k
  unfolding next_transition
  next_transition-IsNext version to m k e =
      let (listed, below) = first-sort (keep (leads version to) (keys m)) k e in
      let (in_keys, test) = Elem-keep (leads version to) k (keys m) listed in
      record {
        listed = in_keys;
        leaves = (same_iff k.0 version).0 (ground arith);
        within = ground arith;
        farthest = All-keep (λ j. at_most j.1 k.1 ≡ true) (leads version to) (keys m) below;
      }

  -- No transition is found only if none leaves from the version and stays within the target.
  pub next_transition-eq-none :
      (version to : V) (m : Migrations V)
      → next_transition version to m ≡ none
      → All (λ j. leads version to j ≡ false) (keys m)
  unfolding next_transition
  next_transition-eq-none version to m e =
      keep-eq-nil (leads version to) (keys m) (sort-eq-nil _ (first-eq-none _ e))

  -- A transition of the manifest has scripts, and they are those of an entry with its key.
  pub scripts_at-Elem :
      (k : V × V) (m : Migrations V)
      → Elem k (keys m)
      → (scripts : List Text) × (scripts_at k m ≡ some scripts) × Elem (k, scripts) m
  unfolding scripts_at
  scripts_at-Elem k [] e = elim e [ ]
  scripts_at-Elem k ((j, s) ∷ m) e = elim (Bool-cases (same j.0 k.0 && same j.1 k.1)) [
    | inl here ↦ (s, rw here, inl (ground (arith, same_iff j.0 k.0, same_iff j.1 k.1)))
    | inr other ↦
        let later : Elem k (keys m) = elim e [
          | inl e ↦ absurd (ground (arith, same_iff j.0 k.0, same_iff j.1 k.1))
          | inr later ↦ later
        ] in
        let (scripts, at, listed) = scripts_at-Elem k m later in (scripts, rw other at, inr listed)
  ]
