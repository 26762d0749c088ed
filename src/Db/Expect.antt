-- ===== src/Db/Expect.antt =====
-- src/db/expect/expect-evaluator.ts and row-match.ts: whether a query's rows are as declared. Rows
-- and declared fields are lists of properties over one heap.
pub mod Modes
mod Tests
use apiwright.Prelude.{
  ℕ, Bool, true, false, not, Option, none, some, List, [], ◌∷◌, String, ltb, ◌==◌, if◌then◌else◌,
  length, template, decimal, ◌&&◌,
}
use apiwright.Core.Value.{Value, Heap, get_property}
use apiwright.Core.DeepEqual.{deep_equal}

pub data DbExpectMode : Type 0 where
  exists not_exists matches exact : DbExpectMode

pub data DbExpectFailureCode : Type 0 where
  exists_empty not_exists_nonempty no_matching_row malformed : DbExpectFailureCode

pub data DbVerifyOutcome : Type 0 where
  pass : DbVerifyOutcome
  fail : DbExpectMode → DbExpectFailureCode → (reason : String) → DbVerifyOutcome

abbrev pub Row : Type 0
Row = List (String × Value)

-- `rows` are what the modes read; `row_count` is carried.
pub record NormalizedResult : Type 0 where
  pub rows : List Row
  pub row_count : ℕ

module _ (heap : Heap) where
  -- The loop over the declared fields that both helpers share.
  unfoldable pub fields_hold : Row → Row → Bool
  fields_hold row [] = true
  fields_hold row ((k, v) ∷ fields) = elim (get_property k row) [
    | none ↦ false
    | some w ↦
        let rest = fields_hold row fields in if not (deep_equal heap w v none) then false else rest
  ]

  unfoldable pub row_satisfies_match : Row → Row → Bool
  unfolding fields_hold
  row_satisfies_match row fields = fields_hold row fields

  unfoldable pub row_satisfies_exact : Row → Row → Bool
  unfolding fields_hold
  row_satisfies_exact row fields =
      if not (length row == length fields) then false else fields_hold row fields

-- The loop over the rows, which ends at the first one that holds.
unfoldable pub some_row : (Row → Bool) → List Row → Bool
some_row test [] = false
some_row test (row ∷ rows) = let rest = some_row test rows in if test row then true else rest

unfoldable pub evaluate_exists : NormalizedResult → DbVerifyOutcome
evaluate_exists result =
    if ltb 0 (length result.rows)
    then pass
    else fail exists exists_empty "exists: result set is empty (0 rows returned)"

unfoldable pub evaluate_not_exists : NormalizedResult → DbVerifyOutcome
unfolding decimal
evaluate_not_exists result =
    if length result.rows == 0
    then pass
    else (fail not_exists not_exists_nonempty (
        template (
          "not_exists: result set has "
          ∷ decimal (length result.rows)
          ∷ " row(s); expected 0"
          ∷ [])))

unfoldable pub evaluate_match : Heap → NormalizedResult → Row → DbVerifyOutcome
unfolding some_row row_satisfies_match decimal
evaluate_match heap result fields =
    if some_row (λ row. row_satisfies_match heap row fields) result.rows
    then pass
    else (fail matches no_matching_row (
        template (
          "match: no row in the result set satisfied the declared fields "
          ∷ "("
          ∷ decimal (length result.rows)
          ∷ " row(s) checked)"
          ∷ [])))

unfoldable pub evaluate_exact : Heap → NormalizedResult → Row → DbVerifyOutcome
unfolding some_row row_satisfies_exact decimal
evaluate_exact heap result fields =
    if some_row (λ row. row_satisfies_exact heap row fields) result.rows
    then pass
    else (fail exact no_matching_row (
        template (
          "exact: no row in the result set had exactly the declared key set and values "
          ∷ "("
          ∷ decimal (length result.rows)
          ∷ " row(s) checked)"
          ∷ [])))

abbrev match_malformed : DbVerifyOutcome
match_malformed = fail matches malformed (
    template (
      "match: absent or empty 'fields' declaration is an authoring error — "
      ∷ "specify at least one field to match" ∷ []))

abbrev exact_malformed : DbVerifyOutcome
exact_malformed = fail exact malformed (
    template (
      "exact: absent or empty 'fields' declaration is an authoring error — "
      ∷ "specify at least one field for exact matching" ∷ []))

unfoldable pub evaluate : Heap → NormalizedResult → DbExpectMode → Option Row → DbVerifyOutcome
unfolding evaluate_exists evaluate_not_exists evaluate_match evaluate_exact
evaluate heap result exists fields = evaluate_exists result
evaluate heap result not_exists fields = evaluate_not_exists result
evaluate heap result matches none = match_malformed
evaluate heap result matches (some []) = match_malformed
evaluate heap result matches (some (f ∷ fields)) = evaluate_match heap result (f ∷ fields)
evaluate heap result exact none = exact_malformed
evaluate heap result exact (some []) = exact_malformed
evaluate heap result exact (some (f ∷ fields)) = evaluate_exact heap result (f ∷ fields)
