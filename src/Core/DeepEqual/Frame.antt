-- ===== src/Core/DeepEqual/Frame.antt =====
-- What the `seen` map holds before and after a comparison.
use apiwright.Prelude.{
  ℕ, zero, suc, ◌≡◌, refl, sym, ap, ◌∙◌, inl, inr, true, false, not, Bool-cases, Option-cases, List,
  [], ◌∷◌, String, ◌==◌, ◌&&◌, ◌||◌, and_split, ==_iff, or_false, and_false, length,
}
use apiwright.Core.Value.{Value, Cell, array, object, Heap, get_property}
use apiwright.Core.DeepEqual.{
  Seen, EqualFn, has, record_seen, delete_seen, compare_elements, compare_keys, compare_cells,
  same_category, both_references, compare_references, equal_at_depth,
}

eq_self : (i : ℕ) → (i == i) ≡ true
eq_self i = (==_iff i i).1 refl

module _ (seen : Seen) (i j : ℕ) where
  has-record_seen_self : (b : ℕ) → has (record_seen seen i j) i b ≡ (b == j || has seen i b)
  unfolding has record_seen
  has-record_seen_self b = elim (Option-cases (seen i)) [
    | inl e ↦ rw (e, record_seen) (rw (eq_self i, has) (rw (e, has) (sym (or_false (b == j)))))
    | inr (ys, e) ↦ rw (e, record_seen) (rw (eq_self i, has) (rw (e, has) refl))
  ]

  has-record_seen_ne : (a b : ℕ) → (a == i) ≡ false → has (record_seen seen i j) a b ≡ has seen a b
  unfolding has record_seen
  has-record_seen_ne a b n = elim (Option-cases (seen i)) [
    | inl e ↦ rw (e, record_seen) (rw (n, has) refl)
    | inr (ys, e) ↦ rw (e, record_seen) (rw (n, has) refl)
  ]

  pub has-record_seen :
      (a b : ℕ) → has (record_seen seen i j) a b ≡ ((a == i && b == j) || has seen a b)
  has-record_seen a b = elim (Bool-cases (a == i)) [
    | inl e ↦
        let same : a ≡ i = (==_iff a i).0 e in rw same (rw (eq_self i) (has-record_seen_self b))
    | inr n ↦ rw n (has-record_seen_ne a b n)
  ]

  has-delete_seen_self : (b : ℕ) → has (delete_seen seen i j) i b ≡ (not (b == j) && has seen i b)
  unfolding has delete_seen
  has-delete_seen_self b = elim (Option-cases (seen i)) [
    | inl e ↦ rw (e, delete_seen) (rw (e, has) (sym (and_false (not (b == j)))))
    | inr (ys, e) ↦ rw (e, delete_seen) (rw (eq_self i, has) (rw (e, has) refl))
  ]

  has-delete_seen_ne : (a b : ℕ) → (a == i) ≡ false → has (delete_seen seen i j) a b ≡ has seen a b
  unfolding has delete_seen
  has-delete_seen_ne a b n = elim (Option-cases (seen i)) [
    | inl e ↦ rw (e, delete_seen) refl
    | inr (ys, e) ↦ rw (e, delete_seen) (rw (n, has) refl)
  ]

  pub has-delete_seen :
      (a b : ℕ) → has (delete_seen seen i j) a b ≡ (not (a == i && b == j) && has seen a b)
  has-delete_seen a b = elim (Bool-cases (a == i)) [
    | inl e ↦
        let same : a ≡ i = (==_iff a i).0 e in rw same (rw (eq_self i) (has-delete_seen_self b))
    | inr n ↦ rw n (has-delete_seen_ne a b n)
  ]

-- A pair that was not there is recorded, and removed again.
back_again :
    (seen : Seen) (i j a b : ℕ)
    → has seen i j ≡ false
    → (not (a == i && b == j) && ((a == i && b == j) || has seen a b)) ≡ has seen a b
back_again seen i j a b fresh = elim (Bool-cases (a == i && b == j)) [
  | inl e ↦
      let (first, second) = and_split (a == i) (b == j) e in
      let same_a : a ≡ i = (==_iff a i).0 first in
      let same_b : b ≡ j = (==_iff b j).0 second in
      rw e (sym (ap (λ k. has seen k b) same_a ∙ ap (λ k. has seen i k) same_b ∙ fresh))
  | inr e ↦ rw e refl
]

-- A comparison leaves the pairs of the map as they were.
abbrev pub Frames : EqualFn → Type 0
Frames f = (x y : Value) (seen : Seen) (a b : ℕ) → has (f x y seen).1 a b ≡ has seen a b

module _ (recurse : EqualFn) (frames : Frames recurse) where
  compare_elements-Frames :
      (xs ys : List Value) (seen : Seen) (a b : ℕ)
      → has (compare_elements recurse xs ys seen).1 a b ≡ has seen a b
  unfolding compare_elements
  compare_elements-Frames (x ∷ xs) (y ∷ ys) seen a b = elim (Bool-cases (recurse x y seen).0) [
    | inl same ↦
        rw same (compare_elements-Frames xs ys (recurse x y seen).1 a b ∙ frames x y seen a b)
    | inr other ↦ rw other (frames x y seen a b)
  ]
  compare_elements-Frames _ _ seen a b = refl

  compare_keys-Frames :
      (xs ys : List (String × Value)) (seen : Seen) (a b : ℕ)
      → has (compare_keys recurse xs ys seen).1 a b ≡ has seen a b
  unfolding compare_keys
  compare_keys-Frames [] ys seen a b = refl
  compare_keys-Frames ((k, v) ∷ xs) ys seen a b = elim (Option-cases (get_property k ys)) [
    | inl missing ↦ rw (missing, compare_keys) refl
    | inr (w, found) ↦ elim (Bool-cases (recurse v w seen).0) [
      | inl same ↦
          rw (found, same, compare_keys)
            (compare_keys-Frames xs ys (recurse v w seen).1 a b ∙ frames v w seen a b)
      | inr other ↦ rw (found, other, compare_keys) (frames v w seen a b)
    ]
  ]

  compare_cells-Frames :
      (c d : Cell) (seen : Seen) (a b : ℕ)
      → has (compare_cells recurse c d seen).1 a b ≡ has seen a b
  unfolding compare_cells
  compare_cells-Frames (array xs) (array ys) seen a b = elim (Bool-cases (length xs == length ys)) [
    | inl e ↦ rw e (compare_elements-Frames xs ys seen a b)
    | inr e ↦ rw e refl
  ]
  compare_cells-Frames (object xs) (object ys) seen a b =
      elim (Bool-cases (length xs == length ys)) [
        | inl e ↦ rw e (compare_keys-Frames xs ys seen a b)
        | inr e ↦ rw e refl
      ]
  compare_cells-Frames (array xs) (object ys) seen a b = refl
  compare_cells-Frames (object xs) (array ys) seen a b = refl

  compare_references-Frames :
      (heap : Heap) (i j : ℕ) (seen : Seen) (a b : ℕ)
      → has (compare_references heap recurse i j seen).1 a b ≡ has seen a b
  unfolding compare_references
  compare_references-Frames heap i j seen a b =
      elim (Bool-cases (same_category (heap i) (heap j))) [
        | inr differ ↦ rw differ refl
        | inl alike ↦ elim (Bool-cases (has seen i j)) [
          | inl back_edge ↦ rw (alike, back_edge) refl
          | inr fresh ↦
              rw (alike, fresh)
                (has-delete_seen (compare_cells recurse (heap i) (heap j) (record_seen seen i j)).1
                    i j a b
                  ∙ ap (λ h. not (a == i && b == j) && h)
                      (compare_cells-Frames (heap i) (heap j) (record_seen seen i j) a b
                        ∙ has-record_seen seen i j a b)
                  ∙ back_again seen i j a b fresh)
        ]
      ]

-- A comparison of two values leaves exactly the pairs in the `seen` map that were there before, at
-- any depth and whatever it answers, also where the guards cut it short: what one path recorded is
-- gone when a sibling is compared.
pub equal_at_depth-Frames :
    (heap : Heap) (left : ℕ) (x y : Value) (seen : Seen) (a b : ℕ)
    → has (equal_at_depth heap left x y seen).1 a b ≡ has seen a b
unfolding equal_at_depth
equal_at_depth-Frames heap zero x y seen a b = elim (Option-cases (both_references x y)) [
  | inl e ↦ rw (e, equal_at_depth) refl
  | inr ((i, j), e) ↦ rw (e, equal_at_depth) refl
]
equal_at_depth-Frames heap (suc left) x y seen a b = elim (Option-cases (both_references x y)) [
  | inl e ↦ rw (e, equal_at_depth) refl
  | inr ((i, j), e) ↦
      rw (e, equal_at_depth)
        (compare_references-Frames (equal_at_depth heap left) (equal_at_depth-Frames heap left) heap
          i j seen a b)
]
