-- ===== src/Ssm/Difference.antt =====
-- `key_difference` of tools/pubsys/src/aws/ssm/mod.rs: the parameters that it gives.
use twoliter.Prelude.{
  ◌≡◌, refl, true, Option, none, some, [], ◌∷◌, Text, arith, Bool-cases, Option-cases, inl, inr,
  is_some, if◌then◌else◌,
}
use twoliter.Prelude.Classes.{◌==◌, nat_eq, list_eq}
use twoliter.Prelude.Maps.{IsMap, lookup, insert, lookup-insert, insert-IsMap}
use twoliter.Ssm.{
  SsmKey, ssm_key_eq, SsmParameters, insert_missing, insert_changed, key_difference, is_disjoint,
}

-- What is to be set at a key: the wanted value if it is not the current one.
abbrev pub due : Option Text → Option Text → Option Text
due none current = none
due (some v) none = some v
due (some v) (some w) = if w == v then none else some v

lookup-insert_missing :
    (k : SsmKey) (wanted current to_set : SsmParameters)
    → IsMap wanted
    → lookup k (insert_missing wanted current to_set) ≡ elim (lookup k wanted) [
      | none ↦ lookup k to_set
      | some v ↦ if is_some (lookup k current) then lookup k to_set else some v
    ]
unfolding lookup
lookup-insert_missing k [] current to_set h = refl
lookup-insert_missing k ((j, v) ∷ wanted) current to_set (fresh, h) = ground (
  arith,
  lookup-insert_missing k wanted current
      (if is_some (lookup j current) then to_set else insert j v to_set) h,
  lookup-insert j k v to_set,
  ssm_key_eq.eqb_iff j k,
)

lookup-insert_changed :
    (k : SsmKey) (wanted current to_set : SsmParameters)
    → IsMap wanted
    → lookup k (insert_changed wanted current to_set) ≡ elim (lookup k wanted) [
      | none ↦ lookup k to_set
      | some v ↦ elim (lookup k current) [
        | none ↦ lookup k to_set
        | some w ↦ if w == v then lookup k to_set else some v
      ]
    ]
unfolding lookup
lookup-insert_changed k [] current to_set h = refl
lookup-insert_changed k ((j, v) ∷ wanted) current to_set (fresh, h) =
    let next : SsmParameters = elim (lookup j current) [
      | none ↦ to_set
      | some w ↦ if w == v then to_set else insert j v to_set
    ] in
    ground (
      arith,
      lookup-insert_changed k wanted current next h,
      lookup-insert j k v to_set,
      ssm_key_eq.eqb_iff j k,
    )

-- The parameters to set are the wanted ones whose current value is another or missing.
pub lookup-key_difference :
    (k : SsmKey) (wanted current : SsmParameters)
    → IsMap wanted
    → lookup k (key_difference wanted current) ≡ due (lookup k wanted) (lookup k current)
unfolding key_difference lookup
lookup-key_difference k wanted current h = ground (
  arith,
  lookup-insert_changed k wanted current (insert_missing wanted current []) h,
  lookup-insert_missing k wanted current [] h,
)

insert_missing-IsMap :
    (wanted current to_set : SsmParameters)
    → IsMap to_set
    → IsMap (insert_missing wanted current to_set)
insert_missing-IsMap [] current to_set h = h
insert_missing-IsMap ((k, v) ∷ wanted) current to_set h =
    elim (Bool-cases (is_some (lookup k current))) [
      | inl there ↦ rw (there, insert_missing) (insert_missing-IsMap wanted current to_set h)
      | inr missing ↦
          rw (missing, insert_missing)
            (insert_missing-IsMap wanted current (insert k v to_set) (insert-IsMap k v to_set h))
    ]

insert_changed-IsMap :
    (wanted current to_set : SsmParameters)
    → IsMap to_set
    → IsMap (insert_changed wanted current to_set)
insert_changed-IsMap [] current to_set h = h
insert_changed-IsMap ((k, v) ∷ wanted) current to_set h = elim (Option-cases (lookup k current)) [
  | inl missing ↦ rw (missing, insert_changed) (insert_changed-IsMap wanted current to_set h)
  | inr (w, there) ↦ elim (Bool-cases (w == v)) [
    | inl same ↦ rw (there, same, insert_changed) (insert_changed-IsMap wanted current to_set h)
    | inr other ↦
        rw (there, other, insert_changed)
          (insert_changed-IsMap wanted current (insert k v to_set) (insert-IsMap k v to_set h))
  ]
]

pub key_difference-IsMap : (wanted current : SsmParameters) → IsMap (key_difference wanted current)
unfolding key_difference
key_difference-IsMap wanted current =
    insert_changed-IsMap wanted current (insert_missing wanted current [])
      (insert_missing-IsMap wanted current [] tt)

-- A key that is to be set is not there, if the test of the keys passes.
pub is_disjoint-lookup :
    (k : SsmKey) (v : Text) (current to_set : SsmParameters)
    → is_disjoint current to_set ≡ true
    → lookup k to_set ≡ some v
    → lookup k current ≡ none
unfolding is_disjoint lookup
is_disjoint-lookup k v current [] h e = cc
is_disjoint-lookup k v current ((j, w) ∷ to_set) h e =
    ground (arith, is_disjoint-lookup k v current to_set, ssm_key_eq.eqb_iff j k)
