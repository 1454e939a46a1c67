-- ===== src/Prelude/Panics.antt =====
-- A call that returns or panics.
pub data Panics (A : Type 0) : Type 0 where
  returns : A → Panics A
  panics : Panics A

infixl 5 ◌>>=◌
abbrev pub ◌>>=◌ : {A B : Type 0} → Panics A → (A → Panics B) → Panics B
returns a >>= f = f a
panics >>= f = panics
