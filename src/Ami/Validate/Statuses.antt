-- ===== src/Ami/Validate/Statuses.antt =====
-- tools/pubsys/src/aws/validate_ami/results.rs: what the summary of a region counts.
use twoliter.Prelude.{
  ◌≡◌, refl, ◌∙◌, Bool, true, false, List, [], ◌∷◌, ℕ, ◌+◌, arith, Bool-cases, inl, inr, keep,
  length,
}
use twoliter.Prelude.Classes.{◌==◌}
use twoliter.Ami.Validate.{
  AmiValidationResult, Status, correct, incorrect, missing, unreachable, status_eq, Summary,
  counted, no_results, summary_from,
}

-- How many results have a status.
abbrev pub count : Status → List AmiValidationResult → ℕ
count s rs = length (keep (λ r. r.status == s) rs)

abbrev one_if : Bool → ℕ
one_if true = 1
one_if false = 0

count-cons :
    (s : Status) (r : AmiValidationResult) (rs : List AmiValidationResult)
    → count s (r ∷ rs) ≡ one_if (r.status == s) + count s rs
count-cons s r rs = elim (Bool-cases (r.status == s)) [
  | inl same ↦ rw same (omega arith)
  | inr other ↦ rw other (omega arith)
]

-- What a summary has counted more than another one, of so many results of each status.
abbrev Counts : Summary → Summary → ℕ → ℕ → ℕ → ℕ → Type 0
Counts s t c i m u =
    (t.correct_count ≡ s.correct_count + c)
    × (t.incorrect_count ≡ s.incorrect_count + i)
    × (t.missing_count ≡ s.missing_count + (m + u))
    × (t.unreachable_count ≡ s.unreachable_count)

counted-Counts :
    (x : Status) (s : Summary)
    → Counts s
        (counted x s)
        (one_if (x == correct))
        (one_if (x == incorrect))
        (one_if (x == missing))
        (one_if (x == unreachable))
counted-Counts correct s = (omega arith, omega arith, omega arith, refl)
counted-Counts incorrect s = (omega arith, omega arith, omega arith, refl)
counted-Counts missing s = (omega arith, omega arith, omega arith, refl)
counted-Counts unreachable s = (omega arith, omega arith, omega arith, refl)

summary_from-Counts :
    (rs : List AmiValidationResult) (s : Summary)
    → Counts s
        (summary_from rs s)
        (count correct rs)
        (count incorrect rs)
        (count missing rs)
        (count unreachable rs)
unfolding summary_from
summary_from-Counts [] s = (omega arith, omega arith, omega arith, refl)
summary_from-Counts (r ∷ rs) s =
    let (c, i, m, u) = counted-Counts r.status s in
    let (c', i', m', u') = summary_from-Counts rs (counted r.status s) in
    (
      omega (arith, c, c', count-cons correct r rs),
      omega (arith, i, i', count-cons incorrect r rs),
      omega (arith, m, m', count-cons missing r rs, count-cons unreachable r rs),
      u' ∙ u,
    )

-- The summary counts the correct and the incorrect results, but the unreachable ones among the missing
-- ones: its number of unreachable results is always zero.
pub summary_from-count :
    (rs : List AmiValidationResult)
    → let s = summary_from rs no_results in
      (s.correct_count ≡ count correct rs)
      × (s.incorrect_count ≡ count incorrect rs)
      × (s.missing_count ≡ count missing rs + count unreachable rs)
      × (s.unreachable_count ≡ 0)
summary_from-count rs =
    let (c, i, m, u) = summary_from-Counts rs no_results in
    (omega (arith, c), omega (arith, i), omega (arith, m), u)
