-- ===== src/Core/DeepEqual.antt =====
-- src/core/deep-equal.ts: structural equality with a depth guard and a cycle guard.
-- The code counts `depth` up to `maxDepth`; here `left` is `maxDepth - depth`, counted down. The
-- `seen` map is passed along, since the calls change it.
pub mod Frame
pub mod Guard
pub mod Depth
pub mod Complete
mod Tests
use apiwright.Prelude.{
  ℕ, zero, suc, Bool, true, false, not, Option, none, some, List, [], ◌∷◌, String, ◌==◌, ◌&&◌, ◌||◌,
  if◌then◌else◌, length, is_some, get_or,
}
use apiwright.Core.Value.{
  Value, number, reference, Cell, array, object, Heap, is_nan, strict_equals, get_property,
}

abbrev pub deep_equal_max_depth : ℕ
deep_equal_max_depth = 200

-- `WeakMap<object, WeakSet<object>>`
abbrev pub Seen : Type 0
Seen = ℕ → Option (ℕ → Bool)

abbrev pub EqualFn : Type 0
EqualFn = Value → Value → Seen → Bool × Seen

-- `seen.get(objX)`, and `seenY.has(objY)` of what it returns
unfoldable pub has : Seen → ℕ → ℕ → Bool
has seen i j = elim (seen i) [ none ↦ false | some ys ↦ ys j ]

abbrev pub update : Seen → ℕ → Option (ℕ → Bool) → Seen
update seen i entry k = if k == i then entry else seen k

unfoldable pub record_seen : Seen → ℕ → ℕ → Seen
record_seen seen i j = elim (seen i) [
  | some existing ↦ update seen i (some (λ b. b == j || existing b))
  | none ↦ update seen i (some (λ b. b == j))
]

-- `ownY.delete(objY)`, where `ownY` is the entry of `objX`
unfoldable pub delete_seen : Seen → ℕ → ℕ → Seen
delete_seen seen i j = elim (seen i) [
  | some own ↦ update seen i (some (λ b. not (b == j) && own b))
  | none ↦ seen
]

module _ (recurse : EqualFn) where
  unfoldable pub compare_elements : List Value → List Value → Seen → Bool × Seen
  compare_elements (x ∷ xs) (y ∷ ys) seen =
      let (same, seen') = recurse x y seen in
      let rest = compare_elements xs ys seen' in if same then rest else (false, seen')
  compare_elements _ _ seen = (true, seen)

  unfoldable pub compare_arrays : List Value → List Value → Seen → Bool × Seen
  unfolding compare_elements
  compare_arrays xs ys seen =
      if not (length xs == length ys) then (false, seen) else compare_elements xs ys seen

  -- The loop over the keys of the left object; `v` is `recX[k]`.
  unfoldable pub compare_keys : List (String × Value) → List (String × Value) → Seen → Bool × Seen
  unfolding get_property
  compare_keys [] ys seen = (true, seen)
  compare_keys ((k, v) ∷ xs) ys seen = elim (get_property k ys) [
    | none ↦ (false, seen)
    | some w ↦
        let (same, seen') = recurse v w seen in
        let rest = compare_keys xs ys seen' in if same then rest else (false, seen')
  ]

  unfoldable pub compare_objects :
      List (String × Value) → List (String × Value) → Seen → Bool × Seen
  unfolding compare_keys
  compare_objects xs ys seen =
      if not (length xs == length ys) then (false, seen) else compare_keys xs ys seen

  unfoldable pub compare_cells : Cell → Cell → Seen → Bool × Seen
  unfolding compare_arrays compare_objects
  compare_cells (array xs) (array ys) seen = compare_arrays xs ys seen
  compare_cells (object xs) (object ys) seen = compare_objects xs ys seen
  compare_cells _ _ seen = (false, seen)

abbrev pub same_category : Cell → Cell → Bool
same_category (array _) (array _) = true
same_category (object _) (object _) = true
same_category _ _ = false

abbrev pub both_nan : Value → Value → Bool
both_nan (number a) (number b) = is_nan a && is_nan b
both_nan _ _ = false

-- The comparison where not both sides are compound. A primitive is never strictly equal to a value
-- of another category, so the category test is in it.
unfoldable pub same_primitive : Value → Value → Bool
unfolding strict_equals
same_primitive x y = strict_equals x y || both_nan x y

abbrev pub both_references : Value → Value → Option (ℕ × ℕ)
both_references (reference i) (reference j) = some (i, j)
both_references _ _ = none

-- The compound part of `equalAtDepth` below the depth guard: the cycle guard, the comparison of the
-- contents with the pair recorded, and the removal of the pair.
unfoldable pub compare_references : Heap → EqualFn → ℕ → ℕ → Seen → Bool × Seen
unfolding has record_seen delete_seen compare_cells
compare_references heap recurse i j seen =
    if not (same_category (heap i) (heap j))
    then (false, seen)
    else if has seen i j
    then (false, seen)
    else (let (result, after) = compare_cells recurse (heap i) (heap j) (record_seen seen i j) in
        (result, delete_seen after i j))

unfoldable pub equal_at_depth : Heap → ℕ → EqualFn
unfolding same_primitive compare_references
equal_at_depth heap zero x y seen = elim (both_references x y) [
  | none ↦ (same_primitive x y, seen)
  | some (i, j) ↦ (false, seen)
]
equal_at_depth heap (suc left) x y seen = elim (both_references x y) [
  | none ↦ (same_primitive x y, seen)
  | some (i, j) ↦ compare_references heap (equal_at_depth heap left) i j seen
]

unfoldable pub deep_equal : Heap → Value → Value → Option ℕ → Bool
unfolding equal_at_depth
deep_equal heap a b max_depth =
    (equal_at_depth heap (get_or max_depth deep_equal_max_depth) a b (λ _. none)).0
