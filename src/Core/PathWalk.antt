-- ===== src/Core/PathWalk.antt =====
-- src/core/path-walk.ts: the walk of a path of keys and indices through a value. An index is an
-- integer; `none` is NOT_FOUND.
pub mod Leads
mod Tests
use apiwright.Prelude.{
  ℕ, Bool, true, false, not, Option, none, some, List, [], ◌∷◌, String, ◌&&◌, ltb, if◌then◌else◌,
  length, get_elem?,
}
use apiwright.Core.Value.{
  Value, undefined, null, reference, Cell, array, object, Heap, get_property,
}

abbrev pub max_path_walk_depth : ℕ
max_path_walk_depth = 256

pub data WalkSegment : Type 0 where
  key : String → WalkSegment
  index : ℕ → WalkSegment
  negative_index : ℕ → WalkSegment

abbrev pub property_of : Cell → String → Option Value
property_of (array _) k = none
property_of (object ps) k = get_property k ps

abbrev pub element_of : Cell → ℕ → Option Value
element_of (array xs) n = get_elem? xs n
element_of (object _) n = none

unfoldable pub step_key : Heap → Value → String → Option Value
step_key heap (reference i) k = property_of (heap i) k
step_key heap _ k = none

unfoldable pub step_index : Heap → Value → ℕ → Option Value
step_index heap (reference i) n = element_of (heap i) n
step_index heap _ n = none

unfoldable pub step_segment : Heap → Value → WalkSegment → Option Value
unfolding step_key step_index
step_segment heap current (key k) = step_key heap current k
step_segment heap current (index n) = step_index heap current n
step_segment heap current (negative_index n) = none

abbrev pub is_null : Value → Bool
is_null null = true
is_null _ = false

abbrev pub is_last : List WalkSegment → Bool
is_last [] = true
is_last (_ ∷ _) = false

-- The loop, from the segments that are left.
unfoldable pub walk_from : Heap → Value → List WalkSegment → Option Value
unfolding step_segment
walk_from heap current [] = some current
walk_from heap current (seg ∷ rest) = elim (step_segment heap current seg) [
  | none ↦ none
  | some stepped ↦
      let further = walk_from heap stepped rest in
      if is_null stepped && not (is_last rest) then none else further
]

abbrev whole : Value → Option Value
whole undefined = none
whole v = some v

unfoldable pub walk_path : Heap → Value → Option (List WalkSegment) → Option Value
unfolding walk_from
walk_path heap root none = whole root
walk_path heap root (some []) = whole root
walk_path heap root (some (seg ∷ rest)) =
    if ltb max_path_walk_depth (length (seg ∷ rest)) then none else walk_from heap root (seg ∷ rest)
