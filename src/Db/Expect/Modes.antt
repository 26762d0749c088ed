-- ===== src/Db/Expect/Modes.antt =====
-- When a verification passes, mode by mode.
use apiwright.Prelude.{◌≡◌, ◌≢◌, Bool, true, Option, none, some, [], ◌∷◌, length, All, Some}
use apiwright.Core.Value.{Value, Heap, get_property}
use apiwright.Core.DeepEqual.{deep_equal_max_depth}
use apiwright.Core.DeepEqual.Guard.{same_at}
use apiwright.Db.Expect.{DbExpectMode, exists, not_exists, matches, exact, Row, NormalizedResult}

module _ (heap : Heap) where
  -- Every declared field is there, with the same value down to 200 levels.
  abbrev pub Fits : Row → Row → Type 0
  Fits row fields =
      All
        (λ f.
          (w : Value) × (get_property f.0 row ≡ some w)
          × (same_at heap deep_equal_max_depth w f.1 ≡ true))
        fields

-- What each mode asks of the rows and the declared fields.
abbrev pub Meets : Heap → NormalizedResult → DbExpectMode → Option Row → Type 0
Meets heap result exists fields = result.rows ≢ []
Meets heap result not_exists fields = result.rows ≡ []
Meets heap result matches none = ⊥
Meets heap result matches (some []) = ⊥
Meets heap result matches (some (f ∷ fields)) = Some (λ row. Fits heap row (f ∷ fields)) result.rows
Meets heap result exact none = ⊥
Meets heap result exact (some []) = ⊥
Meets heap result exact (some (f ∷ fields)) =
    Some (λ row. (length row ≡ length (f ∷ fields)) × Fits heap row (f ∷ fields)) result.rows
