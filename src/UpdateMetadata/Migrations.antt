-- ===== src/UpdateMetadata/Migrations.antt =====
-- tools/update-metadata/src/lib.rs: the migrations between two versions.
-- `semver::Version` is a type with a total order. A `BTreeMap<(Version, Version), Vec<String>>` is
-- its list of entries. The `while` loop takes fuel.
pub mod Step
pub mod Chain
pub mod Fuel
use twoliter.Prelude.{
  ℕ, zero, suc, Bool, not, ◌&&◌, Option, none, some, List, [], ◌∷◌, ◌++◌, map, Text, keep,
  if◌then◌else◌,
}
use mathlib.Core.List.{reverse}
use twoliter.Prelude.Classes.{Order, same}
use twoliter.UpdateMetadata.Waves.{first_of_list}

pub data Found (V : Type 0) : Type 0 where
  found : List Text → Found V
  missing_migration : (current target : V) → Found V
  out_of_fuel : Found V

abbrev pub Migrations : Type 0 → Type 0
Migrations V = List ((V × V) × List Text)

-- `targets.extend_from_slice(migrations)`, if there are any
abbrev pub extend : List Text → Option (List Text) → List Text
extend targets none = targets
extend targets (some scripts) = targets ++ scripts

module _ {V : Type 0} ⦃o : Order V⦄ where
  -- `a <= b`
  abbrev pub at_most : V → V → Bool
  at_most a b = not (o.lt b a)

  -- `sort_unstable_by(|(_, a), (_, b)| b.cmp(a))`, the highest target first
  unfoldable pub insert_by_target : V × V → List (V × V) → List (V × V)
  insert_by_target k [] = k ∷ []
  insert_by_target k (j ∷ js) = if o.lt k.1 j.1 then j ∷ insert_by_target k js else k ∷ j ∷ js

  unfoldable pub sort_by_target : List (V × V) → List (V × V)
  unfolding insert_by_target
  sort_by_target [] = []
  sort_by_target (k ∷ ks) = insert_by_target k (sort_by_target ks)

  abbrev pub keys : Migrations V → List (V × V)
  keys m = map (λ e. e.0) m

  -- The test of the filter.
  abbrev pub leads : V → V → V × V → Bool
  leads version to k = same k.0 version && at_most k.1 to

  unfoldable pub next_transition : V → V → Migrations V → Option (V × V)
  unfolding sort_by_target
  next_transition version to m = first_of_list (sort_by_target (keep (leads version to) (keys m)))

  -- `manifest.migrations.get(transition)`
  unfoldable pub scripts_at : V × V → Migrations V → Option (List Text)
  scripts_at k [] = none
  scripts_at k ((j, scripts) ∷ m) =
      if same j.0 k.0 && same j.1 k.1 then some scripts else scripts_at k m

  -- One round of the loop for each unit of fuel.
  unfoldable pub find_from : ℕ → List Text → V → V → Migrations V → Found V
  find_from zero targets version to m = out_of_fuel
  find_from (suc fuel) targets version to m =
      let rest : Found V = elim (next_transition version to m) [
        | none ↦ missing_migration version to
        | some transition ↦
            find_from fuel (extend targets (scripts_at transition m)) (transition.1) to m
      ] in
      if same version to then found targets else rest

  unfoldable pub find_migrations_forward : ℕ → V → V → Migrations V → Found V
  unfolding find_from
  find_migrations_forward fuel from to m = find_from fuel [] from to m

  abbrev pub reverse_found : Found V → Found V
  reverse_found (found scripts) = found (reverse scripts)
  reverse_found (missing_migration current target) = missing_migration current target
  reverse_found out_of_fuel = out_of_fuel

  unfoldable pub find_migrations : ℕ → V → V → Migrations V → Found V
  unfolding find_migrations_forward
  find_migrations fuel from to m =
      if same from to
      then found []
      else if o.lt to from
      then reverse_found (find_migrations_forward fuel to from m)
      else find_migrations_forward fuel from to m
