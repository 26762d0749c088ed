-- ===== src/Core/DeepEqual/Guard.antt =====
-- The plain comparison to a depth, which keeps no record of pairs, against deepEqual: from the
-- guarded one to the plain one.
use mathlib.Core.Bool.{false≢true}
use apiwright.Prelude.{
  ℕ, zero, suc, ◌≡◌, refl, inl, inr, Bool, true, false, Bool-cases, Option-cases, Option, none,
  some, List, [], ◌∷◌, String, ◌==◌, ◌&&◌, arith, ==_iff, length,
}
use apiwright.Core.Value.{Value, Cell, array, object, Heap, get_property}
use apiwright.Core.DeepEqual.{
  Seen, EqualFn, has, record_seen, compare_elements, compare_keys, compare_cells, same_category,
  same_primitive, both_references, compare_references, equal_at_depth,
}

-- The specification: both sides have the same shape down to the leaves, in at most `left` levels.
-- Arrays are compared in order, and objects by the keys of the left one, with as many on the right.
module _ (equal : Value → Value → Bool) where
  unfoldable pub same_elements : List Value → List Value → Bool
  same_elements [] [] = true
  same_elements (x ∷ xs) (y ∷ ys) = equal x y && same_elements xs ys
  same_elements _ _ = false

  abbrev pub same_property : Value → Option Value → Bool
  same_property v none = false
  same_property v (some w) = equal v w

  unfoldable pub same_properties : List (String × Value) → List (String × Value) → Bool
  same_properties [] ys = true
  same_properties ((k, v) ∷ xs) ys = same_property v (get_property k ys) && same_properties xs ys

  unfoldable pub same_cells : Cell → Cell → Bool
  unfolding same_elements same_properties
  same_cells (array xs) (array ys) = same_elements xs ys
  same_cells (object xs) (object ys) = length xs == length ys && same_properties xs ys
  same_cells _ _ = false

unfoldable pub same_at : Heap → ℕ → Value → Value → Bool
unfolding same_cells
same_at heap zero x y = elim (both_references x y) [
  | none ↦ same_primitive x y
  | some (i, j) ↦ false
]
same_at heap (suc left) x y = elim (both_references x y) [
  | none ↦ same_primitive x y
  | some (i, j) ↦ same_cells (same_at heap left) (heap i) (heap j)
]

-- A comparison with the guard that answers `true` is right.
abbrev pub IsSoundFor : EqualFn → (Value → Value → Bool) → Type 0
IsSoundFor f equal = (x y : Value) (seen : Seen) → (f x y seen).0 ≡ true → equal x y ≡ true

module _ (f : EqualFn) (equal : Value → Value → Bool) (sound : IsSoundFor f equal) where
  elements_sound :
      (xs ys : List Value) (seen : Seen)
      → length xs ≡ length ys
      → (compare_elements f xs ys seen).0 ≡ true
      → same_elements equal xs ys ≡ true
  unfolding compare_elements same_elements
  elements_sound [] [] seen e h = refl
  elements_sound [] (y ∷ ys) seen e h = absurd (omega arith)
  elements_sound (x ∷ xs) [] seen e h = absurd (omega arith)
  elements_sound (x ∷ xs) (y ∷ ys) seen e h = elim (Bool-cases (f x y seen).0) [
    | inl same ↦
        rw (sound x y seen same)
          (elements_sound xs ys (f x y seen).1 (omega arith) (rw (same, compare_elements) at h))
    | inr other ↦ absurd (false≢true (rw (other, compare_elements) at h))
  ]

  keys_sound :
      (xs ys : List (String × Value)) (seen : Seen)
      → (compare_keys f xs ys seen).0 ≡ true
      → same_properties equal xs ys ≡ true
  unfolding compare_keys same_properties
  keys_sound [] ys seen h = refl
  keys_sound ((k, v) ∷ xs) ys seen h = elim (Option-cases (get_property k ys)) [
    | inl missing ↦ absurd (false≢true (rw (missing, compare_keys) at h))
    | inr (w, found) ↦ elim (Bool-cases (f v w seen).0) [
      | inl same ↦
          rw (found, same_properties)
            (rw (sound v w seen same)
              (keys_sound xs ys (f v w seen).1 (rw (found, same, compare_keys) at h)))
      | inr other ↦ absurd (false≢true (rw (found, other, compare_keys) at h))
    ]
  ]

  cells_sound :
      (c d : Cell) (seen : Seen) → (compare_cells f c d seen).0 ≡ true → same_cells equal c d ≡ true
  unfolding compare_cells same_cells
  cells_sound (array xs) (array ys) seen h = elim (Bool-cases (length xs == length ys)) [
    | inl e ↦ elements_sound xs ys seen ((==_iff _ _).0 e) (rw (e, compare_cells) at h)
    | inr e ↦ absurd (false≢true (rw (e, compare_cells) at h))
  ]
  cells_sound (object xs) (object ys) seen h = elim (Bool-cases (length xs == length ys)) [
    | inl e ↦ rw e (keys_sound xs ys seen (rw (e, compare_cells) at h))
    | inr e ↦ absurd (false≢true (rw (e, compare_cells) at h))
  ]
  cells_sound (array xs) (object ys) seen h = h
  cells_sound (object xs) (array ys) seen h = h

  references_sound :
      (heap : Heap) (i j : ℕ) (seen : Seen)
      → (compare_references heap f i j seen).0 ≡ true
      → same_cells equal (heap i) (heap j) ≡ true
  unfolding compare_references
  references_sound heap i j seen h = elim (Bool-cases (same_category (heap i) (heap j))) [
    | inr differ ↦ absurd (false≢true (rw (differ, compare_references) at h))
    | inl alike ↦ elim (Bool-cases (has seen i j)) [
      | inl back_edge ↦ absurd (false≢true (rw (alike, back_edge, compare_references) at h))
      | inr fresh ↦
          cells_sound (heap i) (heap j) (record_seen seen i j)
            (rw (alike, fresh, compare_references) at h)
    ]
  ]

pub equal_at_depth_sound :
    (heap : Heap) (left : ℕ) → IsSoundFor (equal_at_depth heap left) (same_at heap left)
unfolding equal_at_depth same_at
equal_at_depth_sound heap zero x y seen h = elim (Option-cases (both_references x y)) [
  | inl e ↦ rw (e, same_at) (rw (e, equal_at_depth) at h)
  | inr ((i, j), e) ↦ rw (e, same_at) (rw (e, equal_at_depth) at h)
]
equal_at_depth_sound heap (suc left) x y seen h = elim (Option-cases (both_references x y)) [
  | inl e ↦ rw (e, same_at) (rw (e, equal_at_depth) at h)
  | inr ((i, j), e) ↦
      rw (e, same_at)
        (references_sound (equal_at_depth heap left) (same_at heap left)
          (equal_at_depth_sound heap left) heap i j seen (rw (e, equal_at_depth) at h))
]
