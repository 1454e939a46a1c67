-- ===== src/Ssm.antt =====
-- tools/pubsys/src/aws/ssm/mod.rs: the keys and values of SSM parameters, and which of the wanted ones
-- have to be set. Regions are their names.
pub mod Difference
pub mod Put
pub mod Fetch
pub mod Template
pub mod Publish
pub mod Validate
pub mod Promote
pub mod Prefix
pub mod Input
use twoliter.Prelude.{
  Bool, true, false, not, Option, none, some, List, [], ◌∷◌, ◌≡◌, refl, Text, text, starts_with,
  is_some, if◌then◌else◌,
}
use twoliter.Prelude.Classes.{Eq, ◌==◌, eq_by, nat_eq, list_eq, pair_eq}
use twoliter.Prelude.Maps.{Map, lookup, insert}

abbrev pub Region : Type 0
Region = Text

pub record SsmKey : Type 0 where
  pub region : Region
  pub name : Text

abbrev pub key_parts : SsmKey → Text × Text
key_parts k = (k.region, k.name)

abbrev pub key_of_parts : Text × Text → SsmKey
key_of_parts (r, n) = record { region = r; name = n }

instance abbrev pub ssm_key_eq : Eq SsmKey
ssm_key_eq = eq_by key_parts key_of_parts (λ k. refl) pair_eq

abbrev pub SsmParameters : Type 0
SsmParameters = Map SsmKey Text

unfoldable pub is_in_public_namespace : SsmKey → Bool
unfolding starts_with
is_in_public_namespace k = starts_with k.name (text "/aws/")

-- The wanted parameters that are not there, in front of those given.
abbrev pub insert_missing : SsmParameters → SsmParameters → SsmParameters → SsmParameters
insert_missing [] current to_set = to_set
insert_missing ((k, v) ∷ wanted) current to_set =
    insert_missing wanted current (if is_some (lookup k current) then to_set else insert k v to_set)

-- The wanted parameters that are there with another value.
abbrev pub insert_changed : SsmParameters → SsmParameters → SsmParameters → SsmParameters
insert_changed [] current to_set = to_set
insert_changed ((k, v) ∷ wanted) current to_set =
    insert_changed wanted current (elim (lookup k current) [
      | none ↦ to_set
      | some current_value ↦ if current_value == v then to_set else insert k v to_set
    ])

unfoldable pub key_difference : SsmParameters → SsmParameters → SsmParameters
unfolding lookup insert
key_difference wanted current = insert_changed wanted current (insert_missing wanted current [])

-- The test of the keys that `is_disjoint` makes.
unfoldable pub is_disjoint : SsmParameters → SsmParameters → Bool
unfolding lookup
is_disjoint current [] = true
is_disjoint current ((k, v) ∷ to_set) =
    let rest = is_disjoint current to_set in if is_some (lookup k current) then false else rest
