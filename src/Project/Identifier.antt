-- ===== src/Project/Identifier.antt =====
-- twoliter/src/project/mod.rs: `ValidIdentifier`, a string that its parser has accepted.
use twoliter.Prelude.{
  ◌≤◌, ◌⊎◌, ℕ, Bool, true, false, ◌&&◌, ◌||◌, ◌≡◌, ◌↔◌, refl, Option, none, some, [], ◌∷◌, Text,
  leb, ◌==◌, if◌then◌else◌, is_empty, All, Bool-cases, Option-cases, inl, inr, arith,
}

pub data IdentifierError : Type 0 where
  empty_identifier : IdentifierError
  invalid_character : (c : ℕ) → IdentifierError

-- `FromStr` of a `ValidIdentifier`
pub data Parsed : Type 0 where
  valid : Text → Parsed
  invalid : IdentifierError → Parsed

unfoldable pub is_valid_id_char : ℕ → Bool
is_valid_id_char c =
    leb b'a' c && leb c b'z'
    || leb b'A' c && leb c b'Z'
    || leb b'0' c && leb c b'9'
    || c == b'_'
    || c == b'-'

-- The loop over the characters: the first that is not valid.
pub first_invalid : Text → Option ℕ
first_invalid [] = none
first_invalid (c ∷ s) = let rest = first_invalid s in if is_valid_id_char c then rest else some c

unfoldable pub from_str : Text → Parsed
unfolding first_invalid
from_str input =
    if is_empty input
    then invalid empty_identifier
    else elim (first_invalid input) [ some c ↦ invalid (invalid_character c) | none ↦ valid input ]

-- An ASCII letter, a digit, an underscore or a hyphen.
abbrev pub IsAllowed : ℕ → Type 0
IsAllowed c =
    ((97 ≤ c) × (c ≤ 122))
    ⊎ (((65 ≤ c) × (c ≤ 90)) ⊎ (((48 ≤ c) × (c ≤ 57)) ⊎ ((c ≡ 95) ⊎ (c ≡ 45))))

abbrev pub IsValidChars : Text → Type 0
IsValidChars s = All IsAllowed s

is_valid_id_char-IsAllowed : (c : ℕ) → is_valid_id_char c ≡ true → IsAllowed c
unfolding is_valid_id_char
is_valid_id_char-IsAllowed c h = ground arith

IsAllowed-is_valid_id_char : (c : ℕ) → IsAllowed c → is_valid_id_char c ≡ true
unfolding is_valid_id_char
IsAllowed-is_valid_id_char c h = ground arith

first_invalid-none : (s : Text) → first_invalid s ≡ none → IsValidChars s
unfolding first_invalid
first_invalid-none [] h = tt
first_invalid-none (c ∷ s) h = elim (Bool-cases (is_valid_id_char c)) [
  | inl good ↦ (is_valid_id_char-IsAllowed c good, first_invalid-none s (rw good at h))
  | inr bad ↦ let h' : some c ≡ none = rw bad at h in cc
]

first_invalid_valid : (s : Text) → IsValidChars s → first_invalid s ≡ none
unfolding first_invalid
first_invalid_valid [] h = refl
first_invalid_valid (c ∷ s) (good, h) =
    rw (IsAllowed-is_valid_id_char c good) (first_invalid_valid s h)

-- A string is accepted, as itself, when it is not empty and each of its characters is an ASCII
-- letter, a digit, an underscore or a hyphen, and only then.
pub from_str_iff :
    (input identifier : Text)
    → (from_str input ≡ valid identifier)
      ↔ ((identifier ≡ input) × (is_empty input ≡ false) × IsValidChars input)
unfolding from_str
from_str_iff input identifier = (accepted input, accepts input)
  where
    accepted :
        (s : Text)
        → from_str s ≡ valid identifier
        → (identifier ≡ s) × (is_empty s ≡ false) × IsValidChars s
    accepted [] h = cc
    accepted (c ∷ s) h = elim (Option-cases (first_invalid (c ∷ s))) [
      | inl e ↦ (ground arith, refl, first_invalid-none (c ∷ s) e)
      | inr (d, e) ↦ ground arith
    ]

    accepts :
        (s : Text)
        → (identifier ≡ s) × (is_empty s ≡ false) × IsValidChars s
        → from_str s ≡ valid identifier
    accepts [] (_, h, _) = cc
    accepts (c ∷ s) (e, _, h) = rw (first_invalid_valid (c ∷ s) h, e)
