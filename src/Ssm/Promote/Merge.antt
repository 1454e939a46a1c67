-- ===== src/Ssm/Promote/Merge.antt =====
-- tools/pubsys/src/aws/promote_ssm/mod.rs: the values that `merge_parameters` gives.
use twoliter.Prelude.{
  ◌≡◌, refl, subst, ap, ◌∙◌, Option, none, some, [], ◌∷◌, arith, Bool-cases, inl, inr, Text,
  if◌then◌else◌,
}
use twoliter.Prelude.Classes.{◌==◌, nat_eq, list_eq}
use twoliter.Prelude.Maps.{Map, IsMap, lookup, insert, lookup-insert}
use twoliter.Ssm.{Region, SsmKey, ssm_key_eq, SsmParameters}
use twoliter.Ssm.Promote.{in_region, put_in_region, put_all, merge_parameters}

-- The value of a parameter among those of its region.
abbrev pub value_of : SsmKey → Map Region SsmParameters → Option Text
value_of k m = lookup k (in_region k.region m)

in_region-put :
    (k : SsmKey) (v : Text) (region : Region) (m : Map Region SsmParameters)
    → in_region region (put_in_region k v m)
      ≡ (if k.region == region then insert k v (in_region k.region m) else in_region region m)
unfolding put_in_region
in_region-put k v region m =
    ground (arith, lookup-insert k.region region (insert k v (in_region k.region m)) m)

value_of-put :
    (k other : SsmKey) (v : Text) (m : Map Region SsmParameters)
    → value_of other (put_in_region k v m) ≡ (if k == other then some v else value_of other m)
value_of-put k other v m = elim (Bool-cases (k.region == other.region)) [
  | inl same ↦
      let e : k.region ≡ other.region = (list_eq.eqb_iff k.region other.region).0 same in
      let there : in_region other.region (put_in_region k v m) ≡ insert k v (in_region k.region m) =
        in_region-put k v other.region m ∙ rw same refl in
      let here : lookup other (insert k v (in_region k.region m))
          ≡ (if k == other then some v else lookup other (in_region other.region m)) =
        subst
          (λ r.
            lookup other (insert k v (in_region k.region m))
            ≡ (if k == other then some v else lookup other (in_region r m)))
          e (lookup-insert k other v (in_region k.region m)) in
      ap (λ x. lookup other x) there ∙ here
  | inr apart ↦ rw (in_region-put k v other.region m, apart) refl
]

-- `o`, or another value if it is none.
abbrev pub or_else : Option Text → Option Text → Option Text
or_else none x = x
or_else (some v) x = some v

or_else-none : (o : Option Text) → or_else o none ≡ o
or_else-none none = refl
or_else-none (some v) = refl

value_of-put_all :
    (k : SsmKey) (parameters : SsmParameters) (m : Map Region SsmParameters)
    → IsMap parameters
    → value_of k (put_all parameters m) ≡ or_else (lookup k parameters) (value_of k m)
unfolding put_all lookup
value_of-put_all k [] m h = refl
value_of-put_all k ((j, v) ∷ parameters) m (fresh, h) =
    let rest = value_of-put_all k parameters (put_in_region j v m) h in
    elim (Bool-cases (j == k)) [
      | inl same ↦
          let e : j ≡ k = (ssm_key_eq.eqb_iff j k).0 same in
          let gone : lookup k parameters ≡ none = subst (λ x. lookup x parameters ≡ none) e fresh in
          let here : value_of k (put_in_region j v m) ≡ some v =
            value_of-put j k v m ∙ rw same refl in
          let rest' : value_of k (put_all parameters (put_in_region j v m))
              ≡ value_of k (put_in_region j v m) =
            rw gone at rest in
          rw (same, lookup) (rest' ∙ here)
      | inr apart ↦
          let here : value_of k (put_in_region j v m) ≡ value_of k m =
            value_of-put j k v m ∙ rw apart refl in
          rw (apart, lookup) (rest ∙ ap (or_else (lookup k parameters)) here)
    ]

-- In the merged parameters each one has its promoted value, or if it was not promoted the value that it
-- had before.
pub merge_parameters-value_of :
    (source_parameters set_parameters : SsmParameters) (k : SsmKey)
    → IsMap source_parameters
    → IsMap set_parameters
    → value_of k (merge_parameters source_parameters set_parameters)
      ≡ or_else (lookup k set_parameters) (lookup k source_parameters)
unfolding merge_parameters lookup
merge_parameters-value_of source_parameters set_parameters k a b =
    value_of-put_all k set_parameters (put_all source_parameters []) b
    ∙ ap (or_else (lookup k set_parameters))
        (value_of-put_all k source_parameters [] a ∙ or_else-none (lookup k source_parameters))
