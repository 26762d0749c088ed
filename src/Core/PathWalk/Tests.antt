-- ===== src/Core/PathWalk/Tests.antt =====
-- Walks on a small heap.
use apiwright.Prelude.{ℕ, zero, suc, ◌≤◌, ◌≡◌, ◌↔◌, refl, none, some, List, [], ◌∷◌, length}
use apiwright.Core.Value.{undefined, null, number, reference, array, object, Heap, get_property}
use apiwright.Core.PathWalk.{
  WalkSegment, key, index, negative_index, max_path_walk_depth, walk_path, walk_from, step_segment,
  step_key, step_index,
}
use apiwright.Core.PathWalk.Leads.{Leads, walk_path_iff, IsDefined, IsJsonCell, walk_path-IsDefined}

-- {"list": [7, null]}
abbrev body : Heap
body zero = object (("list", reference 1) ∷ [])
body _ = array (number 7 ∷ null ∷ [])

abbrev to_seven : List WalkSegment
to_seven = key "list" ∷ index 0 ∷ []

to_seven_found : walk_path body (reference 0) (some to_seven) ≡ some (number 7)
unfolding walk_path walk_from step_segment step_key step_index get_property
to_seven_found = refl

null_found : walk_path body (reference 0) (some (key "list" ∷ index 1 ∷ [])) ≡ some null
unfolding walk_path walk_from step_segment step_key step_index get_property
null_found = refl

past_null : walk_path body (reference 0) (some (key "list" ∷ index 1 ∷ key "a" ∷ [])) ≡ none
unfolding walk_path walk_from step_segment step_key step_index get_property
past_null = refl

negative : walk_path body (reference 0) (some (key "list" ∷ negative_index 0 ∷ [])) ≡ none
unfolding walk_path walk_from step_segment step_key step_index get_property
negative = refl

-- A property that is there and holds `undefined` is found.
explicit_undefined :
    walk_path (λ _. object (("a", undefined) ∷ [])) (reference 0) (some (key "a" ∷ []))
    ≡ some undefined
unfolding walk_path walk_from step_segment step_key get_property
explicit_undefined = refl

walk_path_iff_example :
    (walk_path body (reference 0) (some to_seven) ≡ some (number 7))
    ↔ ((length to_seven ≤ max_path_walk_depth) × Leads body (reference 0) to_seven (number 7))
walk_path_iff_example = walk_path_iff body (reference 0) (key "list") (index 0 ∷ []) (number 7)

body_json : (i : ℕ) → IsJsonCell (body i)
body_json zero = (λ e. cc, tt)
body_json (suc i) = (λ e. cc, (λ e. cc, tt))

walk_path-IsDefined_example : IsDefined (number 7)
walk_path-IsDefined_example =
    walk_path-IsDefined body (reference 0) (some to_seven) (number 7) body_json to_seven_found
