-- ===== src/Runner/Shard/Order.antt =====
-- The order of the sorted plan.
use Prim.Native.Nat.{Ordering}
use mathlib.Core.Bool.{false≢true}
use apiwright.Prelude.{
  ◌≡◌, ◌⊎◌, inl, inr, refl, sym, true, false, Bool-cases, List, [], ◌∷◌, String,
}
use apiwright.Runner.Shard.{PlannedTestCase, before, insert, sort_deterministic}

-- What the platform promises of `localeCompare`: the answer for the texts the other way round has
-- the other sign.
pub record IsSymmetric (locale_compare : String → String → Ordering) : Type 0 where
  pub flip_gt : (s t : String) → locale_compare s t ≡ Ordering.gt → locale_compare t s ≡ Ordering.lt
  pub flip_eq : (s t : String) → locale_compare s t ≡ Ordering.eq → locale_compare t s ≡ Ordering.eq

Ordering-cases : (o : Ordering) → (o ≡ Ordering.lt) ⊎ (o ≡ Ordering.eq) ⊎ (o ≡ Ordering.gt)
Ordering-cases Ordering.lt = inl refl
Ordering-cases Ordering.eq = inr (inl refl)
Ordering-cases Ordering.gt = inr (inr refl)

module _ {C : Type 0} (locale_compare : String → String → Ordering) where
  -- No case has the next one before it: its endpoint comes first, or is the same and its own id
  -- does not come later.
  abbrev pub InOrder : PlannedTestCase C → PlannedTestCase C → Type 0
  InOrder a b =
      (locale_compare a.endpoint_id b.endpoint_id ≡ Ordering.lt)
      ⊎ ((locale_compare a.endpoint_id b.endpoint_id ≡ Ordering.eq)
          × ((locale_compare a.case_id b.case_id ≡ Ordering.lt)
              ⊎ (locale_compare a.case_id b.case_id ≡ Ordering.eq)))

  abbrev pub IsSorted : List (PlannedTestCase C) → Type 0
  IsSorted [] = Unit
  IsSorted (a ∷ []) = Unit
  IsSorted (a ∷ b ∷ rest) = InOrder a b × IsSorted (b ∷ rest)

  before_sound : (a b : PlannedTestCase C) → before locale_compare a b ≡ true → InOrder a b
  unfolding before
  before_sound a b e = elim (Ordering-cases (locale_compare a.endpoint_id b.endpoint_id)) [
    | inl less ↦ inl less
    | inr (inr more) ↦ absurd (false≢true (rw (more, before) at e))
    | inr (inl same) ↦ elim (Ordering-cases (locale_compare a.case_id b.case_id)) [
      | inl less ↦ inr (same, inl less)
      | inr (inl equal) ↦ inr (same, inr equal)
      | inr (inr more) ↦ absurd (false≢true (rw (same, more, before) at e))
    ]
  ]

  module _ (symmetric : IsSymmetric locale_compare) where
    not_before : (a b : PlannedTestCase C) → before locale_compare a b ≡ false → InOrder b a
    unfolding before
    not_before a b e = elim (Ordering-cases (locale_compare a.endpoint_id b.endpoint_id)) [
      | inl less ↦ absurd (false≢true (sym (rw (less, before) at e)))
      | inr (inr more) ↦ inl (symmetric.flip_gt _ _ more)
      | inr (inl same) ↦ elim (Ordering-cases (locale_compare a.case_id b.case_id)) [
        | inl less ↦ absurd (false≢true (sym (rw (same, less, before) at e)))
        | inr (inl equal) ↦ absurd (false≢true (sym (rw (same, equal, before) at e)))
        | inr (inr more) ↦ inr (symmetric.flip_eq _ _ same, inl (symmetric.flip_gt _ _ more))
      ]
    ]

    insert_after-IsSorted :
        (a b : PlannedTestCase C) (bs : List (PlannedTestCase C))
        → InOrder b a
        → IsSorted (b ∷ bs)
        → IsSorted (b ∷ insert locale_compare a bs)
    unfolding insert
    insert_after-IsSorted a b [] first h = (first, tt)
    insert_after-IsSorted a b (c ∷ bs) first (second, h) =
        elim (Bool-cases (before locale_compare a c)) [
          | inl e ↦ rw e (first, (before_sound a c e, h))
          | inr e ↦ rw e (second, insert_after-IsSorted a c bs (not_before a c e) h)
        ]

    insert-IsSorted :
        (a : PlannedTestCase C) (bs : List (PlannedTestCase C))
        → IsSorted bs
        → IsSorted (insert locale_compare a bs)
    unfolding insert
    insert-IsSorted a [] h = tt
    insert-IsSorted a (b ∷ bs) h = elim (Bool-cases (before locale_compare a b)) [
      | inl e ↦ rw e (before_sound a b e, h)
      | inr e ↦ rw e (insert_after-IsSorted a b bs (not_before a b e) h)
    ]

    -- If the platform's comparison of two texts changes sign when they are exchanged, then in the
    -- plan that is cut into shards every case is in order with the next one: by endpoint, and
    -- within an endpoint by case.
    pub sort_deterministic-IsSorted :
        (cases : List (PlannedTestCase C)) → IsSorted (sort_deterministic locale_compare cases)
    unfolding sort_deterministic
    sort_deterministic-IsSorted [] = tt
    sort_deterministic-IsSorted (a ∷ rest) =
        insert-IsSorted a (sort_deterministic locale_compare rest)
          (sort_deterministic-IsSorted rest)
