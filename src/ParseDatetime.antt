-- ===== src/ParseDatetime.antt =====
-- tools/parse-datetime/src/lib.rs: offsets such as "in 7 days".
pub mod Words
use twoliter.Prelude.{
  ℕ, ◌-◌, ◌^◌, Bool, true, false, ◌||◌, Option, none, some, List, [], ◌∷◌, Text, text,
  split_whitespace, parse_unsigned, if◌then◌else◌,
}
use twoliter.Prelude.Classes.{◌==◌, nat_eq, list_eq}
use twoliter.Chrono.{Chrono}

-- `DateArgInvalid` with its three messages, `DateArgCount` and `DateInt`
pub data OffsetError : Type 0 where
  expected_parts expected_in unknown_unit bad_count out_of_range : OffsetError

pub data Offset (D : Type 0) : Type 0 where
  offset : D → Offset D
  invalid : OffsetError → Offset D

-- `.context(DateIntSnafu { .. })?`
abbrev pub in_range : {D : Type 0} → Option D → Offset D
in_range none = invalid out_of_range
in_range (some d) = offset d

module _ (c : Chrono) where
  open c use {Duration, try_hours, try_days, try_weeks}

  unfoldable pub duration_of : Text → ℕ → Offset Duration
  duration_of unit count =
      if unit == text "hour" || unit == text "hours"
      then in_range (try_hours count)
      else if unit == text "day" || unit == text "days"
      then in_range (try_days count)
      else if unit == text "week" || unit == text "weeks"
      then in_range (try_weeks count)
      else invalid unknown_unit

  -- `u32` is the type of the count.
  unfoldable pub offset_of_count : Text → Text → Offset Duration
  unfolding duration_of
  offset_of_count count_str unit_str = elim (parse_unsigned (2 ^ 32 - 1) count_str) [
    | none ↦ invalid bad_count
    | some count ↦ duration_of unit_str count
  ]

  -- The unit and the count are popped off the end, and what is left must be the prefix "in".
  unfoldable pub offset_of_parts : List Text → Offset Duration
  unfolding offset_of_count
  offset_of_parts (count_str ∷ unit_str ∷ []) = offset_of_count count_str unit_str
  offset_of_parts (prefix_str ∷ count_str ∷ unit_str ∷ []) =
      if prefix_str == text "in" then offset_of_count count_str unit_str else invalid expected_in
  offset_of_parts _ = invalid expected_parts

  unfoldable pub parse_offset : Text → Offset Duration
  unfolding offset_of_parts
  parse_offset input = offset_of_parts (split_whitespace input)
