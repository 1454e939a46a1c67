-- ===== src/Prelude/Maps.antt =====
-- Maps with keys that have an equality, as association lists, with the law of a lookup after an insert.
use mathlib.Core.Path.{◌≡◌, refl, sym, ap, subst}
use mathlib.Core.Bool.{true, false}
use mathlib.Core.Logic.{◌↔◌, inl, inr}
use mathlib.Core.Option.{Option, none, some}
use mathlib.Core.List.{List, [], ◌∷◌, ◌++◌}
use native.Mathlib.Omega.{arith}
use twoliter.Prelude.Tests.{if◌then◌else◌, Bool-cases}
use twoliter.Prelude.Lists.{any, Elem}
use twoliter.Prelude.Classes.{Eq, ◌==◌}

abbrev pub Map : Type 0 → Type 0 → Type 0
Map K V = List (K × V)

module _ {K V : Type 0} ⦃e : Eq K⦄ where
  -- `map.get(&k)`
  unfoldable pub lookup : K → Map K V → Option V
  lookup k [] = none
  lookup k ((j, v) ∷ m) = if j == k then some v else lookup k m

  -- `map.insert(k, v)`
  unfoldable pub insert : K → V → Map K V → Map K V
  insert k v [] = (k, v) ∷ []
  insert k v ((j, w) ∷ m) = if j == k then (k, v) ∷ m else (j, w) ∷ insert k v m

  pub lookup-insert :
      (key other : K) (value : V) (m : Map K V)
      → lookup other (insert key value m) ≡ (if key == other then some value else lookup other m)
  unfolding lookup insert
  lookup-insert key other value [] = refl
  lookup-insert key other value ((j, w) ∷ m) = ground (
    arith,
    lookup-insert key other value m,
    e.eqb_iff key other,
    e.eqb_iff j key,
    e.eqb_iff j other,
  )

  pub lookup-insert_same : (k : K) (v : V) (m : Map K V) → lookup k (insert k v m) ≡ some v
  lookup-insert_same k v m = ground (arith, lookup-insert k k v m, e.eqb_iff k k)

  -- `map.remove(&k)`
  unfoldable pub remove : K → Map K V → Map K V
  remove k [] = []
  remove k ((j, v) ∷ m) = let rest = remove k m in if j == k then rest else (j, v) ∷ rest

  pub lookup-remove :
      (gone other : K) (m : Map K V)
      → lookup other (remove gone m) ≡ (if gone == other then none else lookup other m)
  unfolding lookup remove
  lookup-remove gone other [] = ground arith
  lookup-remove gone other ((j, w) ∷ m) =
      ground (
        arith,
        lookup-remove gone other m,
        e.eqb_iff gone other,
        e.eqb_iff j gone,
        e.eqb_iff j other,
      )

  -- No key stands twice.
  abbrev pub IsMap : Map K V → Type 0
  IsMap [] = Unit
  IsMap ((k, v) ∷ m) = (lookup k m ≡ none) × IsMap m

pub insert-IsMap :
    {K V : Type 0} ⦃e : Eq K⦄ (k : K) (v : V) (m : Map K V) → IsMap m → IsMap (insert k v m)
unfolding lookup insert
insert-IsMap k v [] h = (refl, tt)
insert-IsMap ⦃e⦄ k v ((j, w) ∷ m) (fresh, h) = elim (Bool-cases (j == k)) [
  | inl same ↦
      let ej : j ≡ k = (e.eqb_iff j k).0 same in
      rw same (subst (λ x. lookup x m ≡ none) ej fresh, h)
  | inr apart ↦
      let apart' : (k == j) ≡ false = ground (arith, e.eqb_iff j k, e.eqb_iff k j) in
      rw apart (rw (lookup-insert k j v m, apart') fresh, insert-IsMap k v m h)
]

pub remove-IsMap : {K V : Type 0} ⦃e : Eq K⦄ (k : K) (m : Map K V) → IsMap m → IsMap (remove k m)
unfolding remove
remove-IsMap k [] h = tt
remove-IsMap k ((j, v) ∷ m) (fresh, h) =
    let gone : lookup j (remove k m) ≡ none = ground (arith, lookup-remove k j m) in
    elim (Bool-cases (j == k)) [
      | inl same ↦ rw same (remove-IsMap k m h)
      | inr apart ↦ rw apart (gone, remove-IsMap k m h)
    ]

-- `map.entry(k).or_default().push(v)`
unfoldable pub entry_push : {K V : Type 0} ⦃e : Eq K⦄ → K → V → Map K (List V) → Map K (List V)
unfolding lookup insert
entry_push k v m = elim (lookup k m) [
  | none ↦ insert k (v ∷ []) m
  | some vs ↦ insert k (vs ++ (v ∷ [])) m
]

-- The value at a key, or that of `or_default`.
abbrev pub at_or_nil : {K V : Type 0} ⦃e : Eq K⦄ → K → Map K (List V) → List V
at_or_nil k m = elim (lookup k m) [ none ↦ [] | some vs ↦ vs ]

pub at_or_nil-entry_push :
    {K V : Type 0} ⦃e : Eq K⦄ (key other : K) (value : V) (m : Map K (List V))
    → at_or_nil other (entry_push key value m)
      ≡ (if key == other then at_or_nil key m ++ (value ∷ []) else at_or_nil other m)
unfolding entry_push
at_or_nil-entry_push ⦃e⦄ key other value m = ground (
  arith,
  lookup-insert key other (value ∷ []) m,
  lookup-insert key other (at_or_nil key m ++ (value ∷ [])) m,
  e.eqb_iff key other,
)

pub lookup-Elem :
    {K V : Type 0} ⦃e : Eq K⦄ (k : K) (v : V) (m : Map K V) → lookup k m ≡ some v → Elem (k, v) m
unfolding lookup
lookup-Elem k v [] h = cc
lookup-Elem ⦃e⦄ k v ((j, w) ∷ m) h = elim (Bool-cases (j == k)) [
  | inl same ↦
      let ej : j ≡ k = (e.eqb_iff j k).0 same in
      let ev : some w ≡ some v = rw (same, lookup) at h in inl (cc)
  | inr apart ↦ inr (lookup-Elem k v m (rw (apart, lookup) at h))
]

pub Elem-lookup :
    {K V : Type 0} ⦃e : Eq K⦄ (k : K) (v : V) (m : Map K V)
    → IsMap m
    → Elem (k, v) m
    → lookup k m ≡ some v
unfolding lookup
Elem-lookup k v [] h m = elim m [ ]
Elem-lookup ⦃e⦄ k v ((j, w) ∷ m) (fresh, h) (inl same) =
    let ek : k ≡ j = cc in
    let ev : v ≡ w = cc in
    let here : (j == k) ≡ true = (e.eqb_iff j k).1 (sym ek) in rw here (ap some (sym ev))
Elem-lookup ⦃e⦄ k v ((j, w) ∷ m) (fresh, h) (inr later) =
    let there = Elem-lookup k v m h later in
    elim (Bool-cases (j == k)) [
      | inl same ↦
          let ej : j ≡ k = (e.eqb_iff j k).0 same in
          let gone : lookup k m ≡ none = subst (λ x. lookup x m ≡ none) ej fresh in cc
      | inr apart ↦ rw apart there
    ]

-- `collect()` into a set, as a list without repetitions.
unfoldable pub collect_set : {A : Type 0} ⦃e : Eq A⦄ → List A → List A
collect_set [] = []
collect_set (x ∷ xs) =
    let rest = collect_set xs in if any (λ y. y == x) rest then rest else x ∷ rest

any-Elem : {A : Type 0} ⦃e : Eq A⦄ (x : A) (xs : List A) → any (λ y. y == x) xs ≡ true → Elem x xs
any-Elem x [] h = cc
any-Elem ⦃e⦄ x (y ∷ ys) h = elim (Bool-cases (y == x)) [
  | inl same ↦ inl (sym ((e.eqb_iff y x).0 same))
  | inr apart ↦ inr (any-Elem x ys (rw (apart, any) at h))
]

pub collect_set-Elem :
    {A : Type 0} ⦃e : Eq A⦄ (x : A) (xs : List A) → Elem x (collect_set xs) ↔ Elem x xs
unfolding collect_set
collect_set-Elem x [] = (λ m. m, λ m. m)
collect_set-Elem x (y ∷ ys) =
    let (down, up) = collect_set-Elem x ys in
    elim (Bool-cases (any (λ z. z == y) (collect_set ys))) [
      | inl there ↦ rw there (
        λ m. inr (down m),
        λ m. elim m [ inl e ↦ rw e (any-Elem y (collect_set ys) there) | inr m' ↦ up m' ],
      )
      | inr new ↦ rw new (
        λ m. elim m [ inl e ↦ inl e | inr m' ↦ inr (down m') ],
        λ m. elim m [ inl e ↦ inl e | inr m' ↦ inr (up m') ],
      )
    ]
