-- ===== src/Prelude/Classes.antt =====
-- Interfaces that generic code takes as instance arguments: equality and a total order.
use Prim.Native.Nat.{ℕ}
use mathlib.Core.Path.{◌≡◌, refl, sym, ap, ◌∙◌, subst}
use mathlib.Core.Logic.{◌↔◌, ◌⊎◌, inl, inr}
use mathlib.Core.Bool.{Bool, true, false, not, ◌&&◌}
use mathlib.Core.Option.{Option, none, some}
use mathlib.Core.List.{List, [], ◌∷◌}
use native.Mathlib.Omega.{arith}
use twoliter.Prelude.Tests.{◌==◌ as eq_ℕ, ==_iff, ltb}

pub record Eq (A : Type 0) : Type 0 where
  pub eqb : A → A → Bool
  pub eqb_iff : (x y : A) → (eqb x y ≡ true) ↔ (x ≡ y)

infix 50 ◌==◌
abbrev pub ◌==◌ : {A : Type 0} ⦃e : Eq A⦄ → A → A → Bool
◌==◌ ⦃e⦄ = e.eqb

instance abbrev pub nat_eq : Eq ℕ
nat_eq = record { eqb = eq_ℕ; eqb_iff = ==_iff }

abbrev pub bool_eqb : Bool → Bool → Bool
bool_eqb true b = b
bool_eqb false b = not b

pub bool_eqb_iff : (a b : Bool) → (bool_eqb a b ≡ true) ↔ (a ≡ b)
bool_eqb_iff true true = (λ _. refl, λ _. refl)
bool_eqb_iff true false = (λ h. cc, λ h. cc)
bool_eqb_iff false true = (λ h. cc, λ h. cc)
bool_eqb_iff false false = (λ _. refl, λ _. refl)

instance abbrev pub bool_eq : Eq Bool
bool_eq = record { eqb = bool_eqb; eqb_iff = bool_eqb_iff }

-- Equality of texts, a list of code points.
abbrev pub list_eqb : {A : Type 0} → (A → A → Bool) → List A → List A → Bool
list_eqb same [] [] = true
list_eqb same (x ∷ xs) (y ∷ ys) = same x y && list_eqb same xs ys
list_eqb same _ _ = false

pub list_eqb_iff :
    {A : Type 0} (e : Eq A) (xs ys : List A) → (list_eqb e.eqb xs ys ≡ true) ↔ (xs ≡ ys)
list_eqb_iff e [] [] = (λ _. refl, λ _. refl)
list_eqb_iff e [] (y ∷ ys) = (λ h. cc, λ h. cc)
list_eqb_iff e (x ∷ xs) [] = (λ h. cc, λ h. cc)
list_eqb_iff e (x ∷ xs) (y ∷ ys) =
    let tails = list_eqb_iff e xs ys in
    let heads = e.eqb_iff x y in (λ h. ground arith, λ h. ground arith)

instance abbrev pub list_eq : {A : Type 0} ⦃e : Eq A⦄ → Eq (List A)
list_eq ⦃e⦄ = record { eqb = list_eqb e.eqb; eqb_iff = list_eqb_iff e }

abbrev pub pair_eqb : {A B : Type 0} → Eq A → Eq B → A × B → A × B → Bool
pair_eqb e f (a, b) (c, d) = e.eqb a c && f.eqb b d

pub pair_eqb_iff :
    {A B : Type 0} (e : Eq A) (f : Eq B) (p q : A × B) → (pair_eqb e f p q ≡ true) ↔ (p ≡ q)
pair_eqb_iff e f (a, b) (c, d) =
    let left = e.eqb_iff a c in let right = f.eqb_iff b d in (λ h. ground arith, λ h. ground arith)

instance abbrev pub pair_eq : {A B : Type 0} ⦃e : Eq A⦄ ⦃f : Eq B⦄ → Eq (A × B)
pair_eq ⦃e⦄ ⦃f⦄ = record { eqb = pair_eqb e f; eqb_iff = pair_eqb_iff e f }

-- Equality of a type that another one represents.
abbrev pub eq_by : {A B : Type 0} (f : A → B) (g : B → A) → ((a : A) → g (f a) ≡ a) → Eq B → Eq A
eq_by f g gf e = record {
  eqb = λ a b. e.eqb (f a) (f b);
  eqb_iff = λ a b. (
    λ h. sym (gf a) ∙ ap g ((e.eqb_iff (f a) (f b)).0 h) ∙ gf b,
    λ p. (e.eqb_iff (f a) (f b)).1 (ap f p),
  );
}

abbrev pub option_eqb : {A : Type 0} → Eq A → Option A → Option A → Bool
option_eqb e none none = true
option_eqb e (some a) (some b) = e.eqb a b
option_eqb e _ _ = false

pub option_eqb_iff : {A : Type 0} (e : Eq A) (o p : Option A) → (option_eqb e o p ≡ true) ↔ (o ≡ p)
option_eqb_iff e none none = (λ _. refl, λ _. refl)
option_eqb_iff e none (some b) = (λ h. cc, λ h. cc)
option_eqb_iff e (some a) none = (λ h. cc, λ h. cc)
option_eqb_iff e (some a) (some b) =
    let same = e.eqb_iff a b in (λ h. ground arith, λ h. ground arith)

instance abbrev pub option_eq : {A : Type 0} ⦃e : Eq A⦄ → Eq (Option A)
option_eq ⦃e⦄ = record { eqb = option_eqb e; eqb_iff = option_eqb_iff e }

abbrev pub sum_eqb : {A B : Type 0} → Eq A → Eq B → A ⊎ B → A ⊎ B → Bool
sum_eqb e f (inl a) (inl b) = e.eqb a b
sum_eqb e f (inr a) (inr b) = f.eqb a b
sum_eqb e f _ _ = false

pub sum_eqb_iff :
    {A B : Type 0} (e : Eq A) (f : Eq B) (s t : A ⊎ B) → (sum_eqb e f s t ≡ true) ↔ (s ≡ t)
sum_eqb_iff e f (inl a) (inl b) = let same = e.eqb_iff a b in (λ h. ground arith, λ h. ground arith)
sum_eqb_iff e f (inl a) (inr b) = (λ h. cc, λ h. cc)
sum_eqb_iff e f (inr a) (inl b) = (λ h. cc, λ h. cc)
sum_eqb_iff e f (inr a) (inr b) = let same = f.eqb_iff a b in (λ h. ground arith, λ h. ground arith)

instance abbrev pub sum_eq : {A B : Type 0} ⦃e : Eq A⦄ ⦃f : Eq B⦄ → Eq (A ⊎ B)
sum_eq ⦃e⦄ ⦃f⦄ = record { eqb = sum_eqb e f; eqb_iff = sum_eqb_iff e f }

pub eqb_refl : {A : Type 0} ⦃e : Eq A⦄ (a : A) → (a == a) ≡ true
eqb_refl ⦃e⦄ a = (e.eqb_iff a a).1 refl

-- A strict total order, as `Ord` gives it: `lt a b` is `a.cmp(&b) == Ordering::Less`.
pub record Order (A : Type 0) : Type 0 where
  pub lt : A → A → Bool
  pub lt_irrefl : (a : A) → lt a a ≡ false
  pub lt_trans : (a b c : A) → lt a b ≡ true → lt b c ≡ true → lt a c ≡ true
  pub lt_connex : (a b : A) → lt a b ≡ false → lt b a ≡ false → a ≡ b

module _ {A : Type 0} ⦃o : Order A⦄ where
  -- `cmp` is `Equal`, which for an order that is consistent with equality is `==`.
  abbrev pub same : A → A → Bool
  same a b = not (o.lt a b) && not (o.lt b a)

  pub same_iff : (a b : A) → (same a b ≡ true) ↔ (a ≡ b)
  same_iff a b = (
    λ h. o.lt_connex a b (ground arith) (ground arith),
    λ e. subst (λ x. same a x ≡ true) e (ground (arith, o.lt_irrefl a)),
  )

  pub lt_asymm : (a b : A) → o.lt a b ≡ true → o.lt b a ≡ false
  lt_asymm a b h = ground (arith, o.lt_irrefl a, o.lt_trans a b a)

  -- `a <= b` and `b <= c` give `a <= c`, each in the form that the later is not below the earlier.
  pub not_lt_trans : (a b c : A) → o.lt b a ≡ false → o.lt c b ≡ false → o.lt c a ≡ false
  not_lt_trans a b c h k =
      ground (arith, o.lt_trans c a b, o.lt_connex a b, o.lt_trans b c a, o.lt_irrefl a)

pub ltb_irrefl : (a : ℕ) → ltb a a ≡ false
ltb_irrefl a = ground arith

pub ltb_trans : (a b c : ℕ) → ltb a b ≡ true → ltb b c ≡ true → ltb a c ≡ true
ltb_trans a b c h k = ground arith

pub ltb_connex : (a b : ℕ) → ltb a b ≡ false → ltb b a ≡ false → a ≡ b
ltb_connex a b h k = ground arith

instance abbrev pub nat_order : Order ℕ
nat_order = record {
  lt = ltb;
  lt_irrefl = ltb_irrefl;
  lt_trans = ltb_trans;
  lt_connex = ltb_connex;
}
