-- ===== src/Runner/Shard.antt =====
-- src/runner/filter/sharder.ts: the slice of the sorted plan that one of several CI jobs runs.
-- `locale_compare` is `String.prototype.localeCompare`, whose order is the platform's. The sort of
-- an array is stable, which insertion from the right is too.
pub mod Slices
pub mod Sorting
pub mod Order
mod Tests
use Prim.Native.Nat.{Ordering}
use apiwright.Prelude.{
  ℕ, suc, ◌+◌, ◌-◌, ◌*◌, ◌/◌, Bool, true, false, Option, none, some, List, [], ◌∷◌, String, ltb,
  ◌||◌, if◌then◌else◌, length, take, drop,
}

-- A number of the shard tuple: an integer that is at least 0, `-(n + 1)`, or no integer at all.
pub data ShardNumber : Type 0 where
  pos negsuc : ℕ → ShardNumber
  not_integer : ShardNumber

pub record ShardSpec : Type 0 where
  pub index : ShardNumber
  pub total : ShardNumber

-- The fields of a `PlannedTestCase` that the order reads; the rest of the case is carried.
pub record PlannedTestCase (C : Type 0) : Type 0 where
  pub endpoint_id : String
  pub case_id : String
  pub rest : C

-- The three refusals of `validateShard`, each a RunnerError with code RUNNER_SHARD_INVALID.
pub data ShardError : Type 0 where
  non_integer total_below_one index_out_of_range : ShardError

pub data Checked {ℓ} (A : Type ℓ) : Type ℓ where
  ok : A → Checked A
  err : ShardError → Checked A

-- A valid tuple as two numbers. The tests stand in the order of the code.
check_shard : ShardNumber → ShardNumber → Checked (ℕ × ℕ)
check_shard not_integer total = err non_integer
check_shard (pos index) not_integer = err non_integer
check_shard (negsuc n) not_integer = err non_integer
check_shard (pos index) (negsuc m) = err total_below_one
check_shard (negsuc n) (negsuc m) = err total_below_one
check_shard (negsuc n) (pos total) =
    if ltb total 1 then err total_below_one else err index_out_of_range
check_shard (pos index) (pos total) =
    if ltb total 1
    then err total_below_one
    else if ltb index 1 || ltb total index
    then err index_out_of_range
    else ok (index, total)

unfoldable pub validate_shard : ShardSpec → Checked (ℕ × ℕ)
unfolding check_shard
validate_shard shard = check_shard shard.index shard.total

-- `sorted.slice(start, end)` for `start ≤ end`.
abbrev pub slice {ℓ} : {A : Type ℓ} → ℕ → ℕ → List A → List A
slice start stop xs = drop start (take stop xs)

module _ {C : Type 0} (locale_compare : String → String → Ordering) where
  -- `true` unless the comparator answers a positive number.
  unfoldable pub before : PlannedTestCase C → PlannedTestCase C → Bool
  before a b = elim (locale_compare a.endpoint_id b.endpoint_id) [
    | Ordering.lt ↦ true
    | Ordering.gt ↦ false
    | Ordering.eq ↦ elim (locale_compare a.case_id b.case_id) [ Ordering.gt ↦ false | _ ↦ true ]
  ]

  pub insert : PlannedTestCase C → List (PlannedTestCase C) → List (PlannedTestCase C)
  insert a [] = a ∷ []
  insert a (b ∷ bs) = if before a b then a ∷ b ∷ bs else b ∷ insert a bs

  unfoldable pub sort_deterministic : List (PlannedTestCase C) → List (PlannedTestCase C)
  unfolding insert
  sort_deterministic [] = []
  sort_deterministic (a ∷ rest) = insert a (sort_deterministic rest)

  -- Shard `index` of `total`, for a tuple that passed the validation.
  unfoldable pub shard_slice : ℕ → ℕ → List (PlannedTestCase C) → List (PlannedTestCase C)
  shard_slice index total cases =
      let sorted = sort_deterministic cases in
      let n = length sorted in slice ((index - 1) * n / total) (index * n / total) sorted

  unfoldable pub shard_cases :
      List (PlannedTestCase C) → Option ShardSpec → Checked (List (PlannedTestCase C))
  unfolding shard_slice validate_shard
  shard_cases cases none = ok (sort_deterministic cases)
  shard_cases cases (some shard) = elim (validate_shard shard) [
    | err e ↦ err e
    | ok (index, total) ↦ ok (shard_slice index total cases)
  ]
