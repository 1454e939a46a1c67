-- ===== src/Prelude/Strings.antt =====
-- Text as a list of code points, and the functions of Rust's `str` that the sources call.
use Prim.Native.Nat.{ℕ, ◌+◌, ◌-◌, ◌*◌, ◌≤◌}
use Prim.Native.Char.{code}
use Prim.Native.String.{String}
use mathlib.Core.Path.{◌≡◌, ap, sym, subst}
use mathlib.Core.Logic.{◌≢◌}
use mathlib.Core.Bool.{Bool, true, false, ◌&&◌, ◌||◌}
use mathlib.Core.Option.{Option, none, some}
use mathlib.Core.List.{List, [], ◌∷◌, ◌++◌, append_assoc, append-nil}
use native.Mathlib.Omega.{arith}
use twoliter.Prelude.Tests.{◌==◌, leb, if◌then◌else◌}
use twoliter.Prelude.Lists.{All}

abbrev pub Text : Type 0
Text = List ℕ

-- The code points of a literal.
abbrev pub text : String → Text
text String.[] = []
text (String.◌∷◌ c s) = code c ∷ text s

-- `s.starts_with(prefix)`
unfoldable pub starts_with : Text → Text → Bool
starts_with s [] = true
starts_with [] (p ∷ ps) = false
starts_with (c ∷ s) (p ∷ ps) = c == p && starts_with s ps

-- `s.contains(part)`
unfoldable pub contains : Text → Text → Bool
unfolding starts_with
contains [] part = starts_with [] part
contains (c ∷ s) part = starts_with (c ∷ s) part || contains s part

abbrev pub is_empty : {A : Type 0} → List A → Bool
is_empty [] = true
is_empty (c ∷ s) = false

-- `char::is_whitespace`, the property White_Space of Unicode
unfoldable pub is_whitespace : ℕ → Bool
is_whitespace c =
    leb 9 c && leb c 13
    || c == 32
    || c == 0x85
    || c == 0xa0
    || c == 0x1680
    || leb 0x2000 c && leb c 0x200a
    || c == 0x2028
    || c == 0x2029
    || c == 0x202f
    || c == 0x205f
    || c == 0x3000

-- The word read so far, if it has a character, in front of the later words.
abbrev pub flush : Text → List Text → List Text
flush [] words = words
flush (c ∷ w) words = (c ∷ w) ∷ words

pub words_from : Text → Text → List Text
words_from w [] = flush w []
words_from w (c ∷ s) =
    let closed = flush w (words_from [] s) in
    let longer = words_from (w ++ c ∷ []) s in if is_whitespace c then closed else longer

-- `s.split_whitespace().collect()`
unfoldable pub split_whitespace : Text → List Text
unfolding words_from is_whitespace
split_whitespace s = words_from [] s

pub split_from : ℕ → Text → Text → List Text
split_from separator w [] = w ∷ []
split_from separator w (c ∷ s) =
    let closed = w ∷ split_from separator [] s in
    let longer = split_from separator (w ++ c ∷ []) s in if c == separator then closed else longer

-- `s.split(c)`
unfoldable pub split : ℕ → Text → List Text
unfolding split_from
split separator s = split_from separator [] s

pub digits_from : ℕ → ℕ → Text → Option ℕ
digits_from max n [] = some n
digits_from max n (c ∷ s) =
    let next = n * 10 + (c - b'0') in
    let rest = digits_from max next s in
    if leb b'0' c && leb c b'9' && leb next max then rest else none

-- `s.parse()` into an unsigned integer of at most `max`: an optional plus sign, and digits.
unfoldable pub parse_unsigned : ℕ → Text → Option ℕ
unfolding digits_from
parse_unsigned max [] = none
parse_unsigned max (c ∷ []) = digits_from max 0 (c ∷ [])
parse_unsigned max (c ∷ d ∷ s) =
    if c == b'+' then digits_from max 0 (d ∷ s) else digits_from max 0 (c ∷ d ∷ s)

digits_from-le : (max n : ℕ) (s : Text) (r : ℕ) → n ≤ max → digits_from max n s ≡ some r → r ≤ max
unfolding digits_from
digits_from-le max n [] r h e = ground arith
digits_from-le max n (c ∷ s) r h e = ground (arith, digits_from-le max (n * 10 + (c - b'0')) s r)

-- A parsed number is in range.
pub parse_unsigned-le : (max : ℕ) (s : Text) (r : ℕ) → parse_unsigned max s ≡ some r → r ≤ max
unfolding parse_unsigned
parse_unsigned-le max [] r e = cc
parse_unsigned-le max (c ∷ []) r e = digits_from-le max 0 (c ∷ []) r (omega arith) e
parse_unsigned-le max (c ∷ d ∷ s) r e =
    ground (arith, digits_from-le max 0 (d ∷ s) r, digits_from-le max 0 (c ∷ d ∷ s) r)

-- A word: at least one character, none of them white space.
abbrev pub IsWord : Text → Type 0
IsWord w = (is_empty w ≡ false) × All (λ c. is_whitespace c ≡ false) w

words_from_word :
    (w v s : Text)
    → All (λ c. is_whitespace c ≡ false) v
    → words_from w (v ++ s) ≡ words_from (w ++ v) s
unfolding words_from
words_from_word w [] s h = ap (λ x. words_from x s) (sym (append-nil w))
words_from_word w (c ∷ v) s (p, h) =
    ground (arith, words_from_word (w ++ c ∷ []) v s h, append_assoc w (c ∷ []) v)

-- A word and a space in front of a text are one more word.
pub split_whitespace-append :
    (w s : Text) → IsWord w → split_whitespace (w ++ b' ' ∷ s) ≡ w ∷ split_whitespace s
unfolding split_whitespace
split_whitespace-append [] s (h, _) = cc
split_whitespace-append (c ∷ w) s (_, h) = words_from_word [] (c ∷ w) (b' ' ∷ s) h

pub split_whitespace_word : (w : Text) → IsWord w → split_whitespace w ≡ w ∷ []
unfolding split_whitespace
split_whitespace_word [] (h, _) = cc
split_whitespace_word (c ∷ w) (_, h) =
    subst (λ x. words_from [] x ≡ (c ∷ w) ∷ []) (append-nil (c ∷ w))
      (words_from_word [] (c ∷ w) [] h)

split_from_part :
    (separator : ℕ) (w v s : Text)
    → All (λ c. c ≢ separator) v
    → split_from separator w (v ++ separator ∷ s) ≡ (w ++ v) ∷ split_from separator [] s
unfolding split_from
split_from_part separator w [] s h = ground (arith, append-nil w)
split_from_part separator w (c ∷ v) s (p, h) =
    ground (arith, split_from_part separator (w ++ c ∷ []) v s h, append_assoc w (c ∷ []) v)

-- A part without the separator, and the separator, in front of a text are one more part.
pub split-append :
    (separator : ℕ) (v s : Text)
    → All (λ c. c ≢ separator) v
    → split separator (v ++ separator ∷ s) ≡ v ∷ split separator s
unfolding split
split-append separator v s h = split_from_part separator [] v s h

split_from_last :
    (separator : ℕ) (w v : Text)
    → All (λ c. c ≢ separator) v
    → split_from separator w v ≡ (w ++ v) ∷ []
unfolding split_from
split_from_last separator w [] h = ground (arith, append-nil w)
split_from_last separator w (c ∷ v) (p, h) =
    ground (arith, split_from_last separator (w ++ c ∷ []) v h, append_assoc w (c ∷ []) v)

pub split_last :
    (separator : ℕ) (v : Text) → All (λ c. c ≢ separator) v → split separator v ≡ v ∷ []
unfolding split
split_last separator v h = split_from_last separator [] v h
