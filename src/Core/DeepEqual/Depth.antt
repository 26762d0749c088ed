-- ===== src/Core/DeepEqual/Depth.antt =====
-- The plain comparison at different depths, and the shapes that it accepts.
use mathlib.Core.Bool.{false≢true}
use apiwright.Prelude.{
  ℕ, zero, suc, ◌≡◌, refl, ap, inl, inr, Bool, true, Option-cases, Option, none, some, List, [],
  ◌∷◌, String, ◌==◌, and_split, length,
}
use apiwright.Core.Value.{Value, Cell, array, object, Heap, get_property}
use apiwright.Core.DeepEqual.{same_category, both_references}
use apiwright.Core.DeepEqual.Guard.{
  same_elements, same_property, same_properties, same_cells, same_at,
}

module _ (equal wider : Value → Value → Bool)
    (grows : (x y : Value) → equal x y ≡ true → wider x y ≡ true) where
  elements_mono :
      (xs ys : List Value) → same_elements equal xs ys ≡ true → same_elements wider xs ys ≡ true
  unfolding same_elements
  elements_mono [] [] h = refl
  elements_mono (x ∷ xs) (y ∷ ys) h =
      let (e, es) = and_split (equal x y) (same_elements equal xs ys) h in
      rw (grows x y e) (elements_mono xs ys es)
  elements_mono [] (y ∷ ys) h = h
  elements_mono (x ∷ xs) [] h = h

  property_mono :
      (v : Value) (o : Option Value)
      → same_property equal v o ≡ true
      → same_property wider v o ≡ true
  property_mono v none h = h
  property_mono v (some w) h = grows v w h

  properties_mono :
      (xs ys : List (String × Value))
      → same_properties equal xs ys ≡ true
      → same_properties wider xs ys ≡ true
  unfolding same_properties
  properties_mono [] ys h = refl
  properties_mono ((k, v) ∷ xs) ys h =
      let (e, es) =
        and_split (same_property equal v (get_property k ys)) (same_properties equal xs ys) h in
      rw (property_mono v (get_property k ys) e) (properties_mono xs ys es)

  cells_mono : (c d : Cell) → same_cells equal c d ≡ true → same_cells wider c d ≡ true
  unfolding same_cells
  cells_mono (array xs) (array ys) h = elements_mono xs ys h
  cells_mono (object xs) (object ys) h =
      let (e, es) = and_split (length xs == length ys) (same_properties equal xs ys) h in
      rw e (properties_mono xs ys es)
  cells_mono (array xs) (object ys) h = h
  cells_mono (object xs) (array ys) h = h

-- What is the same down to one depth is the same down to the next.
pub same_at_mono :
    (heap : Heap) (n : ℕ) (x y : Value)
    → same_at heap n x y ≡ true
    → same_at heap (suc n) x y ≡ true
unfolding same_at
same_at_mono heap zero x y h = elim (Option-cases (both_references x y)) [
  | inl e ↦ rw (e, same_at) (rw (e, same_at) at h)
  | inr ((i, j), e) ↦ absurd (false≢true (rw (e, same_at) at h))
]
same_at_mono heap (suc n) x y h = elim (Option-cases (both_references x y)) [
  | inl e ↦ rw (e, same_at) (rw (e, same_at) at h)
  | inr ((i, j), e) ↦
      rw (e, same_at)
        (cells_mono (same_at heap n) (same_at heap (suc n)) (same_at_mono heap n) (heap i) (heap j)
          (rw (e, same_at) at h))
]

pub same_elements-length :
    (equal : Value → Value → Bool) (xs ys : List Value)
    → same_elements equal xs ys ≡ true
    → length xs ≡ length ys
unfolding same_elements
same_elements-length equal [] [] h = refl
same_elements-length equal [] (y ∷ ys) h = cc
same_elements-length equal (x ∷ xs) [] h = cc
same_elements-length equal (x ∷ xs) (y ∷ ys) h =
    ap suc
      (same_elements-length equal xs ys (and_split (equal x y) (same_elements equal xs ys) h).1)

pub same_cells-category :
    (equal : Value → Value → Bool) (c d : Cell)
    → same_cells equal c d ≡ true
    → same_category c d ≡ true
unfolding same_cells
same_cells-category equal (array xs) (array ys) h = refl
same_cells-category equal (object xs) (object ys) h = refl
same_cells-category equal (array xs) (object ys) h = h
same_cells-category equal (object xs) (array ys) h = h
