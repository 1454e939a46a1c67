-- ===== src/ParseDatetime/Words.antt =====
-- What `parse_offset` of tools/parse-datetime/src/lib.rs accepts, and that its prefix is optional.
use twoliter.Prelude.{
  ℕ, ◌-◌, ◌^◌, ◌<◌, ◌≡◌, ◌↔◌, ◌⊎◌, inl, inr, refl, some, List, [], ◌∷◌, ◌++◌, Text, text,
  split_whitespace, parse_unsigned, parse_unsigned-le, IsWord, split_whitespace-append,
  split_whitespace_word, arith, Option-cases, Bool-cases, is_whitespace, ap, ◌∙◌, sym,
}
use twoliter.Prelude.Classes.{◌==◌, list_eqb_iff, nat_eq, list_eq}
use twoliter.Chrono.{Chrono}
use twoliter.ParseDatetime.{offset, duration_of, offset_of_count, offset_of_parts, parse_offset}

module _ (c : Chrono) where
  open c use {Duration, try_hours, try_days, try_weeks}

  abbrev pub IsUnit : Text → Text → Text → Type 0
  IsUnit one many unit = (unit ≡ one) ⊎ (unit ≡ many)

  -- The duration that a unit and a count stand for.
  abbrev pub Means : Duration → ℕ → Text → Type 0
  Means d count unit =
      (IsUnit (text "hour") (text "hours") unit × (try_hours count ≡ some d))
      ⊎ (IsUnit (text "day") (text "days") unit × (try_days count ≡ some d))
      ⊎ (IsUnit (text "week") (text "weeks") unit × (try_weeks count ≡ some d))

  duration_of-Means :
      (unit : Text) (count : ℕ) (d : Duration)
      → (duration_of c unit count ≡ offset d) ↔ Means d count unit
  unfolding duration_of
  duration_of-Means unit count d =
      let is = λ (u : Text). list_eqb_iff nat_eq unit u in
      (
        λ e. ground (
          arith,
          is (text "hour"),
          is (text "hours"),
          is (text "day"),
          is (text "days"),
          is (text "week"),
          is (text "weeks"),
        ),
        λ m. elim m [
          | inl (inl u, e) ↦ rw (u, e) refl
          | inl (inr u, e) ↦ rw (u, e) refl
          | inr (inl (inl u, e)) ↦ rw (u, e) refl
          | inr (inl (inr u, e)) ↦ rw (u, e) refl
          | inr (inr (inl u, e)) ↦ rw (u, e) refl
          | inr (inr (inr u, e)) ↦ rw (u, e) refl
        ],
      )

  -- What an accepted count and unit say of the result.
  abbrev pub Reads : Duration → Text → Text → Type 0
  Reads d count_str unit_str =
      (count : ℕ) × (parse_unsigned (2 ^ 32 - 1) count_str ≡ some count)
      × (count < 2 ^ 32)
      × Means d count unit_str

  offset_of_count-Reads :
      (count_str unit_str : Text) (d : Duration)
      → offset_of_count c count_str unit_str ≡ offset d
      → Reads d count_str unit_str
  unfolding offset_of_count
  offset_of_count-Reads count_str unit_str d e =
      elim (Option-cases (parse_unsigned (2 ^ 32 - 1) count_str)) [
        | inl bad ↦ absurd (ground arith)
        | inr (count, good) ↦ (
          count,
          good,
          omega (arith, parse_unsigned-le (2 ^ 32 - 1) count_str count good),
          (duration_of-Means unit_str count d).0 (ground arith),
        )
      ]

  Reads-offset_of_count :
      (count_str unit_str : Text) (d : Duration)
      → Reads d count_str unit_str
      → offset_of_count c count_str unit_str ≡ offset d
  unfolding offset_of_count
  Reads-offset_of_count count_str unit_str d (count, good, _, means) =
      let there = (duration_of-Means unit_str count d).1 means in rw (good, offset_of_count) there

  offset_of_parts-Reads :
      (parts : List Text) (d : Duration)
      → offset_of_parts c parts ≡ offset d
      → (count_str unit_str : Text) × ((parts ≡ count_str ∷ unit_str ∷ [])
          ⊎ (parts ≡ text "in" ∷ count_str ∷ unit_str ∷ []))
        × Reads d count_str unit_str
  unfolding offset_of_parts
  offset_of_parts-Reads [] d e = cc
  offset_of_parts-Reads (a ∷ []) d e = cc
  offset_of_parts-Reads (a ∷ b ∷ []) d e = (a, b, inl refl, offset_of_count-Reads a b d e)
  offset_of_parts-Reads (p ∷ a ∷ b ∷ []) d e = elim (Bool-cases (p == text "in")) [
    | inl prefix ↦ (
      a,
      b,
      inr (ground (arith, list_eqb_iff nat_eq p (text "in"))),
      offset_of_count-Reads a b d (ground arith),
    )
    | inr other ↦ absurd (ground arith)
  ]
  offset_of_parts-Reads (p ∷ q ∷ a ∷ b ∷ r) d e = cc

  offset_of_parts-in :
      (count_str unit_str : Text)
      → offset_of_parts c (text "in" ∷ count_str ∷ unit_str ∷ [])
        ≡ offset_of_count c count_str unit_str
  unfolding offset_of_parts
  offset_of_parts-in count_str unit_str = refl

  offset_of_parts_two :
      (count_str unit_str : Text)
      → offset_of_parts c (count_str ∷ unit_str ∷ []) ≡ offset_of_count c count_str unit_str
  unfolding offset_of_parts
  offset_of_parts_two count_str unit_str = refl

  -- The words of an offset: a count and a unit, or the word "in" in front of them.
  abbrev pub AreParts : List Text → Text → Text → Type 0
  AreParts parts count_str unit_str =
      (parts ≡ count_str ∷ unit_str ∷ []) ⊎ (parts ≡ text "in" ∷ count_str ∷ unit_str ∷ [])

  -- An offset is accepted, with a duration as its result, exactly when its words are a count and a unit,
  -- or the word "in" in front of them, the count reads as a number below 2 ^ 32, the unit is one of
  -- hour, hours, day, days, week and weeks, and the duration is what the unit makes of that number.
  pub parse_offset_iff :
      (input : Text) (d : Duration)
      → (parse_offset c input ≡ offset d) ↔ (
          (count_str unit_str : Text) × AreParts (split_whitespace input) count_str unit_str
          × Reads d count_str unit_str)
  unfolding parse_offset
  parse_offset_iff input d = (
    λ e. offset_of_parts-Reads (split_whitespace input) d e,
    λ (count_str, unit_str, parts, reads).
        let read = Reads-offset_of_count count_str unit_str d reads in
        elim parts [
          | inl e ↦ ap (offset_of_parts c) e ∙ offset_of_parts_two count_str unit_str ∙ read
          | inr e ↦ ap (offset_of_parts c) e ∙ offset_of_parts-in count_str unit_str ∙ read
        ],
  )

  -- The prefix "in" changes nothing, whatever words the count and the unit are.
  pub parse_offset_in :
      (count_str unit_str : Text)
      → IsWord count_str
      → IsWord unit_str
      → parse_offset c (text "in" ++ b' ' ∷ (count_str ++ b' ' ∷ unit_str))
        ≡ parse_offset c (count_str ++ b' ' ∷ unit_str)
  unfolding parse_offset offset_of_parts is_whitespace
  parse_offset_in count_str unit_str h k =
      let short : split_whitespace (count_str ++ b' ' ∷ unit_str) ≡ count_str ∷ unit_str ∷ [] =
        split_whitespace-append count_str unit_str h
        ∙ ap (λ l. count_str ∷ l) (split_whitespace_word unit_str k) in
      let long : split_whitespace (text "in" ++ b' ' ∷ (count_str ++ b' ' ∷ unit_str))
          ≡ text "in" ∷ count_str ∷ unit_str ∷ [] =
        split_whitespace-append (text "in") (count_str ++ b' ' ∷ unit_str)
          (refl, (refl, (refl, tt)))
        ∙ ap (λ l. text "in" ∷ l) short in
      ap (offset_of_parts c) long ∙ sym (ap (offset_of_parts c) short)
