-- ===== src/Runner/Shard/Slices.antt =====
-- The slices of the shards: what they are together, and how long each is.
use Prim.Native.Nat.{Ordering}
use apiwright.Prelude.{
  Bool-cases, inl, inr, ℕ, zero, suc, ◌+◌, ◌-◌, ◌*◌, ◌/◌, ◌≤◌, ◌<◌, ◌≡◌, refl, sym, ap, ◌∙◌, List,
  [], ◌∷◌, ◌++◌, String, arith, length, take, length-take, length-drop, take_all,
}
use native.Mathlib.Nat.{
  le_of_eq, zero-mul, zero-div, le-div_iff_mul-le, div-lt_iff_lt-mul, lt-div-mul-add,
  div-mul-le_self,
}
use native.Mathlib.Numerals.{add-one}
use apiwright.Runner.Shard.{PlannedTestCase, slice, sort_deterministic, shard_slice, insert, before}

module _ {ℓ} {A : Type ℓ} where
  take-append-slice :
      (start stop : ℕ) (xs : List A)
      → start ≤ stop
      → take start xs ++ slice start stop xs ≡ take stop xs
  take-append-slice zero stop xs h = refl
  take-append-slice (suc start) zero xs h = absurd (omega arith)
  take-append-slice (suc start) (suc stop) [] h = refl
  take-append-slice (suc start) (suc stop) (x ∷ xs) h =
      ap (λ r. x ∷ r) (take-append-slice start stop xs (omega arith))

  length-slice :
      (start stop : ℕ) (xs : List A)
      → start ≤ stop
      → stop ≤ length xs
      → length (slice start stop xs) ≡ stop - start
  length-slice start stop xs h k =
      omega (arith, length-drop {ℓ} start (take stop xs), length-take {ℓ} stop xs)

-- The bound between shard `k` and the next.
abbrev pub cut : ℕ → ℕ → ℕ → ℕ
cut n total k = k * n / total

cut_mono : (n total k : ℕ) → 0 < total → cut n total k ≤ cut n total (k + 1)
cut_mono n total k h = grind arith

cut_mono_suc : (n total k : ℕ) → 0 < total → cut n total k ≤ cut n total (suc k)
cut_mono_suc n total k h = rw (← add-one) (cut_mono n total k h)

cut_last : (n total : ℕ) → 0 < total → cut n total total ≡ n
cut_last n total h = grind arith

cut_le : (n total k : ℕ) → 0 < total → k ≤ total → cut n total k ≤ n
cut_le n total k h l = grind arith

-- What a quotient gains from a second summand.
div_add_bounds :
    (a b m : ℕ) → 0 < m → (a / m + b / m ≤ (a + b) / m) × ((a + b) / m ≤ a / m + b / m + 1)
div_add_bounds a b m h = (
  (le-div_iff_mul-le h).1 (omega (arith, div-mul-le_self a m, div-mul-le_self b m)),
  (let below : (a + b) / m < a / m + b / m + 2 =
        (div-lt_iff_lt-mul h).1
          (omega (arith, lt-div-mul-add {a = a} h, lt-div-mul-add {a = b} h)) in
      omega arith),
)

cut_width :
    (n total k : ℕ)
    → 0 < total
    → (n / total ≤ cut n total (k + 1) - cut n total k)
      × (cut n total (k + 1) - cut n total k ≤ n / total + 1)
cut_width n total k h =
    let more : (k + 1) * n ≡ k * n + n = omega arith in
    let bounds = div_add_bounds (k * n) n total h in
    rw more (omega (arith, bounds.0, bounds.1), omega (arith, bounds.0, bounds.1))

module _ {C : Type 0} (locale_compare : String → String → Ordering) where
  -- The first `k` shards of `total`, one after the other.
  abbrev pub first_shards : ℕ → ℕ → List (PlannedTestCase C) → List (PlannedTestCase C)
  first_shards zero total cases = []
  first_shards (suc k) total cases =
      first_shards k total cases ++ shard_slice locale_compare (suc k) total cases

  first_shards-take :
      (k total : ℕ) (cases : List (PlannedTestCase C))
      → 0 < total
      → first_shards k total cases
        ≡ take
            (cut (length (sort_deterministic locale_compare cases)) total k)
            (sort_deterministic locale_compare cases)
  unfolding shard_slice
  first_shards-take zero total cases h = rw zero-mul (rw zero-div)
  first_shards-take (suc k) total cases h =
      let sorted = sort_deterministic locale_compare cases in
      let n = length sorted in
      let back : suc k - 1 ≡ k = omega arith in
      rw back (
        ap (λ r. r ++ slice (cut n total k) (cut n total (suc k)) sorted)
          (first_shards-take k total cases h)
        ∙ take-append-slice (cut n total k) (cut n total (suc k)) sorted (cut_mono_suc n total k h))

  -- For a positive `total`, the shards 1, ..., `total` one after the other are the sorted plan.
  pub first_shards_all :
      (total : ℕ) (cases : List (PlannedTestCase C))
      → 0 < total
      → first_shards total total cases ≡ sort_deterministic locale_compare cases
  first_shards_all total cases h =
      first_shards-take total total cases h
      ∙ take_all _ _
          (le_of_eq (sym (cut_last (length (sort_deterministic locale_compare cases)) total h)))

  length-insert :
      (a : PlannedTestCase C) (bs : List (PlannedTestCase C))
      → length (insert locale_compare a bs) ≡ length bs + 1
  unfolding insert
  length-insert a [] = refl
  length-insert a (b ∷ bs) = elim (Bool-cases (before locale_compare a b)) [
    | inl e ↦ rw e (omega arith)
    | inr e ↦ rw e (omega (arith, length-insert a bs))
  ]

  length-sort_deterministic :
      (cases : List (PlannedTestCase C))
      → length (sort_deterministic locale_compare cases) ≡ length cases
  unfolding sort_deterministic
  length-sort_deterministic [] = refl
  length-sort_deterministic (a ∷ rest) = omega (
    arith,
    length-insert a (sort_deterministic locale_compare rest),
    length-sort_deterministic rest,
  )

  length-slice_bounds :
      (k total : ℕ) (sorted : List (PlannedTestCase C))
      → k < total
      → let shard =
          slice (cut (length sorted) total k) (cut (length sorted) total (suc k)) sorted in
        (length sorted / total ≤ length shard) × (length shard ≤ length sorted / total + 1)
  length-slice_bounds k total sorted h =
      let n = length sorted in
      let width = cut_width n total k (omega arith) in
      let same : length (slice (cut n total k) (cut n total (suc k)) sorted)
          ≡ cut n total (suc k) - cut n total k =
        length-slice _ _ sorted (cut_mono_suc n total k (omega arith))
          (cut_le n total (suc k) (omega arith) h) in
      rw same (rw (← add-one) width)

  -- Each of the shards 1, ..., `total` has the integer part of the average number of planned cases per
  -- shard, or one more.
  pub length-shard_slice :
      (k total : ℕ) (cases : List (PlannedTestCase C))
      → k < total
      → (length cases / total ≤ length (shard_slice locale_compare (suc k) total cases))
        × (length (shard_slice locale_compare (suc k) total cases) ≤ length cases / total + 1)
  unfolding shard_slice
  length-shard_slice k total cases h =
      let back : suc k - 1 ≡ k = omega arith in
      rw (back, ← length-sort_deterministic cases)
        (length-slice_bounds k total (sort_deterministic locale_compare cases) h)
