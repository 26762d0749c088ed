-- ===== src/Core/DeepEqual/Complete.antt =====
-- deepEqual against the plain comparison: from the plain one to the guarded one. The measure is the
-- least depth at which a pair is accepted, along the pairs on the path.
use mathlib.Core.Bool.{false≢true}
use native.Mathlib.Nat.{le_refl}
use apiwright.Prelude.{
  ℕ, zero, suc, ◌≤◌, ◌≡◌, refl, sym, ap, ◌∙◌, inl, inr, Bool, true, false, Bool-cases, Bool-ext,
  Option-cases, Option, none, some, List, [], ◌∷◌, String, ◌==◌, ◌&&◌, ◌||◌, arith, and_split,
  ==_iff, length, get_or,
}
use apiwright.Core.Value.{Value, reference, Cell, array, object, Heap, get_property}
use apiwright.Core.DeepEqual.{
  Seen, EqualFn, has, record_seen, compare_elements, compare_keys, compare_cells, same_primitive,
  both_references, compare_references, equal_at_depth, deep_equal, deep_equal_max_depth,
}
use apiwright.Core.DeepEqual.Frame.{Frames, has-record_seen, equal_at_depth-Frames}
use apiwright.Core.DeepEqual.Guard.{
  same_elements, same_property, same_properties, same_cells, same_at, equal_at_depth_sound,
}
use apiwright.Core.DeepEqual.Depth.{same_at_mono, same_elements-length, same_cells-category}

-- No recorded pair is a good one.
abbrev IsClear : (ℕ → ℕ → Bool) → Seen → Type 0
IsClear good seen = (a b : ℕ) → has seen a b ≡ true → good a b ≡ false

module _ (f : EqualFn) (equal : Value → Value → Bool) (frames : Frames f) (good : ℕ → ℕ → Bool)
    (complete : (x y : Value) (seen : Seen)
      → IsClear good seen
      → equal x y ≡ true
      → (f x y seen).0 ≡ true) where
  stays-IsClear : (x y : Value) (seen : Seen) → IsClear good seen → IsClear good (f x y seen).1
  stays-IsClear x y seen clear a b h = clear a b (sym (frames x y seen a b) ∙ h)

  elements_complete :
      (xs ys : List Value) (seen : Seen)
      → IsClear good seen
      → same_elements equal xs ys ≡ true
      → (compare_elements f xs ys seen).0 ≡ true
  unfolding compare_elements same_elements
  elements_complete [] [] seen clear h = refl
  elements_complete [] (y ∷ ys) seen clear h = refl
  elements_complete (x ∷ xs) [] seen clear h = refl
  elements_complete (x ∷ xs) (y ∷ ys) seen clear h =
      let (e, es) = and_split (equal x y) (same_elements equal xs ys) h in
      rw (complete x y seen clear e, compare_elements)
        (elements_complete xs ys (f x y seen).1 (stays-IsClear x y seen clear) es)

  keys_complete :
      (xs ys : List (String × Value)) (seen : Seen)
      → IsClear good seen
      → same_properties equal xs ys ≡ true
      → (compare_keys f xs ys seen).0 ≡ true
  unfolding compare_keys same_properties
  keys_complete [] ys seen clear h = refl
  keys_complete ((k, v) ∷ xs) ys seen clear h =
      let (e, es) =
        and_split (same_property equal v (get_property k ys)) (same_properties equal xs ys) h in
      elim (Option-cases (get_property k ys)) [
        | inl missing ↦ absurd (false≢true (rw missing at e))
        | inr (w, found) ↦
            rw (found, complete v w seen clear (rw found at e), compare_keys)
              (keys_complete xs ys (f v w seen).1 (stays-IsClear v w seen clear) es)
      ]

  cells_complete :
      (c d : Cell) (seen : Seen)
      → IsClear good seen
      → same_cells equal c d ≡ true
      → (compare_cells f c d seen).0 ≡ true
  unfolding compare_cells same_cells
  cells_complete (array xs) (array ys) seen clear h =
      rw ((==_iff _ _).1 (same_elements-length equal xs ys h), compare_cells)
        (elements_complete xs ys seen clear h)
  cells_complete (object xs) (object ys) seen clear h =
      let (e, es) = and_split (length xs == length ys) (same_properties equal xs ys) h in
      rw (e, compare_cells) (keys_complete xs ys seen clear es)
  cells_complete (array xs) (object ys) seen clear h = h
  cells_complete (object xs) (array ys) seen clear h = h

  references_complete :
      (heap : Heap) (i j : ℕ) (seen : Seen)
      → has seen i j ≡ false
      → IsClear good (record_seen seen i j)
      → same_cells equal (heap i) (heap j) ≡ true
      → (compare_references heap f i j seen).0 ≡ true
  unfolding compare_references
  references_complete heap i j seen fresh clear h =
      rw (same_cells-category equal (heap i) (heap j) h, fresh, compare_references)
        (cells_complete (heap i) (heap j) (record_seen seen i j) clear h)

references_of :
    (x y : Value) {i j : ℕ}
    → both_references x y ≡ some (i, j)
    → (x ≡ reference i) × (y ≡ reference j)
references_of (reference a) (reference b) e = (cc, cc)
references_of _ _ e = cc

equal_at_depth-primitive :
    (heap : Heap) (left : ℕ) (x y : Value) (seen : Seen)
    → both_references x y ≡ none
    → (equal_at_depth heap left x y seen).0 ≡ same_primitive x y
unfolding equal_at_depth
equal_at_depth-primitive heap zero x y seen e = rw (e, equal_at_depth) refl
equal_at_depth-primitive heap (suc left) x y seen e = rw (e, equal_at_depth) refl

same_at-primitive :
    (heap : Heap) (n : ℕ) (x y : Value)
    → both_references x y ≡ none
    → same_at heap n x y ≡ true
    → same_primitive x y ≡ true
unfolding same_at
same_at-primitive heap zero x y e h = rw (e, same_at) at h
same_at-primitive heap (suc n) x y e h = rw (e, same_at) at h

abbrev good_at : Heap → ℕ → ℕ → ℕ → Bool
good_at heap n a b = same_at heap n (reference a) (reference b)

IsClear-record_seen :
    (heap : Heap) (k i j : ℕ) (seen : Seen)
    → IsClear (good_at heap k) seen
    → good_at heap k i j ≡ false
    → IsClear (good_at heap k) (record_seen seen i j)
IsClear-record_seen heap k i j seen clear least a b h = elim (Bool-cases (a == i && b == j)) [
  | inl e ↦
      let (first, second) = and_split (a == i) (b == j) e in
      let same_a : a ≡ i = (==_iff a i).0 first in
      let same_b : b ≡ j = (==_iff b j).0 second in rw same_a (rw same_b least)
  | inr e ↦ clear a b (sym (has-record_seen seen i j a b ∙ ap (λ t. t || has seen a b) e) ∙ h)
]

IsClear-below :
    (heap : Heap) (k : ℕ) (seen : Seen)
    → IsClear (good_at heap (suc k)) seen
    → IsClear (good_at heap k) seen
IsClear-below heap k seen clear a b h = elim (Bool-cases (good_at heap k a b)) [
  | inl g ↦
      absurd (false≢true (sym (clear a b h) ∙ same_at_mono heap k (reference a) (reference b) g))
  | inr b ↦ b
]

-- The claim at one depth `n`, for every budget that is large enough.
abbrev IsCompleteAt : Heap → ℕ → Type 0
IsCompleteAt heap n =
    (left : ℕ) (x y : Value) (seen : Seen)
    → n ≤ left
    → IsClear (good_at heap n) seen
    → same_at heap n x y ≡ true
    → (equal_at_depth heap left x y seen).0 ≡ true

module _ (heap : Heap) (k : ℕ) (ih : IsCompleteAt heap k) (left i j : ℕ) (seen : Seen) where
  -- The pair is not accepted at a smaller depth, so it is not recorded, and may be.
  least_complete :
      k ≤ left
      → IsClear (good_at heap (suc k)) seen
      → good_at heap (suc k) i j ≡ true
      → good_at heap k i j ≡ false
      → (equal_at_depth heap (suc left) (reference i) (reference j) seen).0 ≡ true
  unfolding equal_at_depth same_at
  least_complete room clear h least = elim (Bool-cases (has seen i j)) [
    | inl back_edge ↦ absurd (false≢true (sym (clear i j back_edge) ∙ h))
    | inr fresh ↦
        references_complete (equal_at_depth heap left) (same_at heap k)
          (equal_at_depth-Frames heap left) (good_at heap k)
          (λ x y s clear_s e. ih left x y s room clear_s e) heap i j seen fresh
          (IsClear-record_seen heap k i j seen (IsClear-below heap k seen clear) least) h
  ]

  references_case :
      k ≤ left
      → IsClear (good_at heap (suc k)) seen
      → good_at heap (suc k) i j ≡ true
      → (equal_at_depth heap (suc left) (reference i) (reference j) seen).0 ≡ true
  references_case room clear h = elim (Bool-cases (good_at heap k i j)) [
    | inl sooner ↦
        ih (suc left) (reference i) (reference j) seen (omega arith)
          (IsClear-below heap k seen clear) sooner
    | inr least ↦ least_complete room clear h least
  ]

equal_at_depth_complete : (heap : Heap) (n : ℕ) → IsCompleteAt heap n
unfolding same_at
equal_at_depth_complete heap zero left x y seen room clear h =
    elim (Option-cases (both_references x y)) [
      | inl e ↦ equal_at_depth-primitive heap left x y seen e ∙ same_at-primitive heap zero x y e h
      | inr ((i, j), e) ↦ absurd (false≢true (rw (e, same_at) at h))
    ]
equal_at_depth_complete heap (suc n) zero x y seen room clear h = absurd (omega arith)
equal_at_depth_complete heap (suc n) (suc left) x y seen room clear h =
    elim (Option-cases (both_references x y)) [
      | inl e ↦
          equal_at_depth-primitive heap (suc left) x y seen e
          ∙ same_at-primitive heap (suc n) x y e h
      | inr ((i, j), e) ↦
          let (same_x, same_y) = references_of x y e in
          rw same_x (
            rw same_y (
              references_case heap n (equal_at_depth_complete heap n) left i j seen (omega arith)
                clear (rw same_y at (rw same_x at h))))
    ]

-- On every heap, cyclic or not, `deepEqual` answers what the plain comparison to the same depth
-- answers, which keeps no record of pairs: the cycle guard cuts no comparison short that would have
-- succeeded, and the two values are equal exactly when they have the same shape and the same leaves
-- in at most `maxDepth` levels (200 where no depth is given).
pub deep_equal-same_at :
    (heap : Heap) (a b : Value) (max_depth : Option ℕ)
    → deep_equal heap a b max_depth ≡ same_at heap (get_or max_depth deep_equal_max_depth) a b
unfolding deep_equal has
deep_equal-same_at heap a b max_depth =
    let n = get_or max_depth deep_equal_max_depth in
    Bool-ext _ _ (equal_at_depth_sound heap n a b (λ _. none)) (λ h.
      equal_at_depth_complete heap n n a b (λ _. none) (le_refl n) (λ i j e. absurd (false≢true e))
        h)
