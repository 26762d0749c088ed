-- ===== src/Db/Expect/Tests.antt =====
-- Verifications of two rows.
use apiwright.Prelude.{◌≡◌, refl, some, [], ◌∷◌}
use apiwright.Core.Value.{number, string, array, Heap, get_property, strict_equals}
use apiwright.Core.DeepEqual.{deep_equal, equal_at_depth, same_primitive}
use apiwright.Db.Expect.{
  matches, exact, pass, fail, no_matching_row, NormalizedResult, fields_hold, row_satisfies_match,
  row_satisfies_exact, some_row, evaluate_match, evaluate_exact, evaluate,
}

abbrev no_cells : Heap
no_cells _ = array []

abbrev users : NormalizedResult
users = record {
  rows =
      (("id", number 1) ∷ ("name", string "ann") ∷ [])
      ∷ (("id", number 2) ∷ ("name", string "bob") ∷ [])
      ∷ [];
  row_count = 2;
}

match_bob : evaluate no_cells users matches (some (("name", string "bob") ∷ [])) ≡ pass
unfolding evaluate evaluate_match some_row row_satisfies_match fields_hold get_property deep_equal
    equal_at_depth same_primitive strict_equals
match_bob = refl

-- The rows have a property more than the fields.
not_exactly_bob :
    evaluate no_cells users exact (some (("name", string "bob") ∷ []))
    ≡ fail exact no_matching_row
        "exact: no row in the result set had exactly the declared key set and values (2 row(s) checked)"
unfolding evaluate evaluate_exact some_row row_satisfies_exact
not_exactly_bob = refl
