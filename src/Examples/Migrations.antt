-- ===== src/Examples/Migrations.antt =====
-- Runs of the search for migrations in tools/update-metadata, with numbers for versions.
use twoliter.Prelude.{ℕ, ◌≡◌, ◌≢◌, ◌⊎◌, inl, refl, true, List, [], ◌∷◌, Text, text, arith}
use mathlib.Core.List.{reverse}
use twoliter.Prelude.Classes.{nat_order}
use twoliter.UpdateMetadata.Migrations.{
  Migrations, found, missing_migration, out_of_fuel, find_migrations, next_transition, scripts_at,
}
use twoliter.UpdateMetadata.Migrations.Chain.{Chain, find_migrations-Chain}
use twoliter.UpdateMetadata.Migrations.Fuel.{find_migrations_total, find_migrations_diverges}

abbrev releases : Migrations ℕ
releases =
    ((10, 11), text "a" ∷ [])
    ∷ ((10, 12), text "b" ∷ text "c" ∷ [])
    ∷ ((12, 13), [])
    ∷ ((13, 15), text "d" ∷ [])
    ∷ []

forward_run : find_migrations 5 10 15 releases ≡ found (text "b" ∷ text "c" ∷ text "d" ∷ [])
unfolding find_migrations next_transition scripts_at
forward_run = refl

-- The farthest transition from 10 within 12 is taken, so that 11 is not passed.
dead_end : find_migrations 5 10 14 releases ≡ missing_migration 13 14
unfolding find_migrations next_transition scripts_at
dead_end = refl

find_migrations-Chain_example :
    (◌≡◌ {A = ℕ} 10 15 × (text "b" ∷ text "c" ∷ text "d" ∷ [] ≡ []))
    ⊎ ((nat_order.lt 10 15 ≡ true) × Chain releases 15 10 (text "b" ∷ text "c" ∷ text "d" ∷ []))
    ⊎ ((nat_order.lt 15 10 ≡ true)
        × ((up : List Text) × (text "b" ∷ text "c" ∷ text "d" ∷ [] ≡ reverse up)
            × Chain releases 10 15 up))
find_migrations-Chain_example = find_migrations-Chain 5 10 15 releases _ forward_run

find_migrations_total_example : find_migrations 5 10 15 releases ≢ out_of_fuel
find_migrations_total_example =
    find_migrations_total 5 10 15 releases (refl, (refl, (refl, (refl, tt)))) (omega arith)

abbrev looping : Migrations ℕ
looping = ((10, 10), text "a" ∷ []) ∷ ((11, 12), []) ∷ []

find_migrations_diverges_example : find_migrations 100 10 12 looping ≡ out_of_fuel
find_migrations_diverges_example =
    find_migrations_diverges 100 10 12 looping (inl refl) refl ((λ _. refl), ((λ h. cc), tt))
