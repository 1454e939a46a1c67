-- ===== src/Prelude/Lists.antt =====
-- Lists measured by native numbers, and predicates on lists by recursion.
use Prim.Native.Nat.{ℕ, suc, ◌+◌, ◌≤◌, ◌<◌}
use mathlib.Core.Path.{◌≡◌, refl, sym, subst, ap}
use mathlib.Core.Logic.{◌⊎◌, inl, inr}
use mathlib.Core.Bool.{Bool, true, false, ◌&&◌, ◌||◌}
use mathlib.Core.List.{List, [], ◌∷◌, ◌++◌, map}
use native.Mathlib.Omega.{arith}
use twoliter.Prelude.Tests.{Bool-cases, if◌then◌else◌}

module _ {ℓ} {A : Type ℓ} where
  abbrev pub length : List A → ℕ
  length [] = 0
  length (x ∷ xs) = suc (length xs)

  abbrev pub all : (A → Bool) → List A → Bool
  all p [] = true
  all p (x ∷ xs) = p x && all p xs

  abbrev pub any : (A → Bool) → List A → Bool
  any p [] = false
  any p (x ∷ xs) = p x || any p xs

  -- `iter().filter(p)`
  abbrev pub keep : (A → Bool) → List A → List A
  keep p [] = []
  keep p (x ∷ xs) = let rest = keep p xs in if p x then x ∷ rest else rest

  pub length-append : (xs ys : List A) → length (xs ++ ys) ≡ length xs + length ys
  length-append [] ys = omega arith
  length-append (x ∷ xs) ys = omega (arith, length-append xs ys)

  pub length-keep : (p : A → Bool) (xs : List A) → length (keep p xs) ≤ length xs
  length-keep p [] = omega arith
  length-keep p (x ∷ xs) = ground (arith, length-keep p xs)

-- Membership by recursion, which computes to sums that the tactics split.
abbrev pub Elem : {A : Type 0} → A → List A → Type 0
Elem x [] = ⊥
Elem x (y ∷ ys) = (x ≡ y) ⊎ Elem x ys

abbrev pub All : {A : Type 0} → (A → Type 0) → List A → Type 0
All P [] = Unit
All P (x ∷ xs) = P x × All P xs

module _ {A : Type 0} where
  pub All-at : (P : A → Type 0) (x : A) (xs : List A) → All P xs → Elem x xs → P x
  All-at P x [] h m = elim m [ ]
  All-at P x (y ∷ ys) (p, h) (inl e) = subst P (sym e) p
  All-at P x (y ∷ ys) (p, h) (inr m) = All-at P x ys h m

  pub All-of : (P : A → Type 0) (xs : List A) → ((x : A) → Elem x xs → P x) → All P xs
  All-of P [] h = tt
  All-of P (y ∷ ys) h = (h y (inl refl), All-of P ys (λ x m. h x (inr m)))

  pub All-append : (P : A → Type 0) (xs ys : List A) → All P xs → All P ys → All P (xs ++ ys)
  All-append P [] ys h k = k
  All-append P (x ∷ xs) ys (p, h) k = (p, All-append P xs ys h k)

  pub Elem-append_left : (x : A) (xs ys : List A) → Elem x xs → Elem x (xs ++ ys)
  Elem-append_left x [] ys m = elim m [ ]
  Elem-append_left x (y ∷ xs) ys (inl e) = inl e
  Elem-append_left x (y ∷ xs) ys (inr m) = inr (Elem-append_left x xs ys m)

  pub Elem-append_right : (x : A) (xs ys : List A) → Elem x ys → Elem x (xs ++ ys)
  Elem-append_right x [] ys m = m
  Elem-append_right x (y ∷ xs) ys m = inr (Elem-append_right x xs ys m)

  pub Elem-append : (x : A) (xs ys : List A) → Elem x (xs ++ ys) → Elem x xs ⊎ Elem x ys
  Elem-append x [] ys m = inr m
  Elem-append x (y ∷ xs) ys (inl e) = inl (inl e)
  Elem-append x (y ∷ xs) ys (inr m) = elim (Elem-append x xs ys m) [
    | inl l ↦ inl (inr l)
    | inr r ↦ inr r
  ]

  pub Elem-keep :
      (p : A → Bool) (x : A) (xs : List A) → Elem x (keep p xs) → Elem x xs × (p x ≡ true)
  Elem-keep p x [] m = elim m [ ]
  Elem-keep p x (y ∷ ys) m = elim (Bool-cases (p y)) [
    | inl kept ↦
        let split : (x ≡ y) ⊎ Elem x (keep p ys) = rw kept at m in
        elim split [
          | inl here ↦ (inl here, subst (λ z. p z ≡ true) (sym here) kept)
          | inr later ↦ let (m', h) = Elem-keep p x ys later in (inr m', h)
        ]
    | inr dropped ↦
        let later : Elem x (keep p ys) = rw dropped at m in
        let (m', h) = Elem-keep p x ys later in (inr m', h)
  ]

  pub Elem-keep_of :
      (p : A → Bool) (x : A) (xs : List A) → Elem x xs → p x ≡ true → Elem x (keep p xs)
  Elem-keep_of p x [] m h = elim m [ ]
  Elem-keep_of p x (y ∷ ys) (inl e) h = rw (subst (λ z. p z ≡ true) e h) (inl e)
  Elem-keep_of p x (y ∷ ys) (inr m) h = elim (Bool-cases (p y)) [
    | inl kept ↦ rw kept (inr (Elem-keep_of p x ys m h))
    | inr dropped ↦ rw dropped (Elem-keep_of p x ys m h)
  ]

  pub All-keep :
      (P : A → Type 0) (p : A → Bool) (xs : List A)
      → All P (keep p xs)
      → All (λ x. p x ≡ true → P x) xs
  All-keep P p xs h =
      All-of (λ x. p x ≡ true → P x) xs λ x m q. All-at P x (keep p xs) h (Elem-keep_of p x xs m q)

  pub keep-eq-nil : (p : A → Bool) (xs : List A) → keep p xs ≡ [] → All (λ x. p x ≡ false) xs
  keep-eq-nil p [] e = tt
  keep-eq-nil p (x ∷ xs) e = (ground arith, keep-eq-nil p xs (ground arith))

  pub length-keep_le :
      (p q : A → Bool) (xs : List A)
      → ((x : A) → p x ≡ true → q x ≡ true)
      → length (keep p xs) ≤ length (keep q xs)
  length-keep_le p q [] h = omega arith
  length-keep_le p q (x ∷ xs) h = ground (arith, h x, length-keep_le p q xs h)

  -- A stronger test that refuses an element which the weaker one takes keeps fewer.
  pub length-keep_lt :
      (p q : A → Bool) (a : A) (xs : List A)
      → ((x : A) → p x ≡ true → q x ≡ true)
      → Elem a xs
      → p a ≡ false
      → q a ≡ true
      → length (keep p xs) < length (keep q xs)
  length-keep_lt p q a [] h m np yq = elim m [ ]
  length-keep_lt p q a (x ∷ xs) h (inl e) np yq =
      let np' = subst (λ z. p z ≡ false) e np in
      let yq' = subst (λ z. q z ≡ true) e yq in ground (arith, length-keep_le p q xs h)
  length-keep_lt p q a (x ∷ xs) h (inr m) np yq =
      ground (arith, h x, length-keep_lt p q a xs h m np yq)

pub Elem-map : {A B : Type 0} (f : A → B) (x : A) (xs : List A) → Elem x xs → Elem (f x) (map f xs)
Elem-map f x [] m = elim m [ ]
Elem-map f x (y ∷ ys) (inl e) = inl (ap f e)
Elem-map f x (y ∷ ys) (inr m) = inr (Elem-map f x ys m)

pub Elem-map_of :
    {A B : Type 0} (f : A → B) (y : B) (xs : List A)
    → Elem y (map f xs)
    → (x : A) × Elem x xs × (y ≡ f x)
Elem-map_of f y [] m = elim m [ ]
Elem-map_of f y (x ∷ xs) (inl e) = (x, inl refl, e)
Elem-map_of f y (x ∷ xs) (inr m) = let (z, z_in, e) = Elem-map_of f y xs m in (z, inr z_in, e)
