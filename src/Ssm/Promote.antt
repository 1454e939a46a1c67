-- ===== src/Ssm/Promote.antt =====
-- `merge_parameters` of tools/pubsys/src/aws/promote_ssm/mod.rs: the parameters that were promoted, and
-- the ones that were there, by their regions.
pub mod Merge
pub mod Run
pub mod Append
use twoliter.Prelude.{◌≡◌, Option, none, some, List, [], ◌∷◌, Text, if◌then◌else◌}
use twoliter.Prelude.Classes.{nat_eq, list_eq}
use twoliter.Prelude.Maps.{Map, lookup, insert}
use twoliter.Ssm.{Region, SsmKey, ssm_key_eq, SsmParameters}

abbrev pub in_region : Region → Map Region SsmParameters → SsmParameters
in_region region m = elim (lookup region m) [ none ↦ [] | some parameters ↦ parameters ]

-- `entry(region).or_insert(HashMap::new()).insert(key, value)`
unfoldable pub put_in_region : SsmKey → Text → Map Region SsmParameters → Map Region SsmParameters
unfolding lookup insert
put_in_region k v m = insert k.region (insert k v (in_region k.region m)) m

unfoldable pub put_all : SsmParameters → Map Region SsmParameters → Map Region SsmParameters
unfolding put_in_region
put_all [] m = m
put_all ((k, v) ∷ parameters) m = put_all parameters (put_in_region k v m)

unfoldable pub merge_parameters : SsmParameters → SsmParameters → Map Region SsmParameters
unfolding put_all
merge_parameters source_parameters set_parameters =
    put_all set_parameters (put_all source_parameters [])
