-- ===== src/Runner/Shard/Tests.antt =====
-- Shards of a small plan, with the strings compared by length.
use mathlib.Core.List.{Perm}
use Prim.Native.Nat.{Ordering}
use apiwright.Prelude.{
  ℕ, ◌≤◌, ◌+◌, ◌/◌, ◌≡◌, refl, List, [], ◌∷◌, String, some, arith, length, if◌then◌else◌, str_eq,
}
use apiwright.Runner.Shard.{
  pos, PlannedTestCase, ok, err, index_out_of_range, validate_shard, check_shard, before,
  sort_deterministic, insert, shard_slice, shard_cases,
}
use apiwright.Runner.Shard.Slices.{first_shards, length-shard_slice}
use apiwright.Runner.Shard.Order.{IsSymmetric, IsSorted, sort_deterministic-IsSorted}
use apiwright.Runner.Shard.Sorting.{first_shards-Perm}

-- Equal texts are equal, "a" comes before every other one, and the rest is the other way round.
abbrev by_a : String → String → Ordering
by_a s t = if str_eq s t then Ordering.eq else if str_eq s "a" then Ordering.lt else Ordering.gt

abbrev planned : String → String → PlannedTestCase ℕ
planned endpoint id = record { endpoint_id = endpoint; case_id = id; rest = 0 }

abbrev plan : List (PlannedTestCase ℕ)
plan = planned "b" "x" ∷ planned "a" "b" ∷ planned "a" "a" ∷ []

second_of_two :
    shard_cases by_a plan (some (record { index = pos 2; total = pos 2 }))
    ≡ ok (planned "a" "b" ∷ planned "b" "x" ∷ [])
unfolding shard_cases validate_shard check_shard shard_slice sort_deterministic insert before
second_of_two = refl

shard_zero :
    shard_cases by_a plan (some (record { index = pos 0; total = pos 2 })) ≡ err index_out_of_range
unfolding shard_cases validate_shard check_shard
shard_zero = refl

first_shards-Perm_example : Perm (first_shards by_a 2 2 plan) plan
first_shards-Perm_example = first_shards-Perm by_a 2 plan (omega arith)

length-shard_slice_example :
    (length plan / 2 ≤ length (shard_slice by_a 2 2 plan))
    × (length (shard_slice by_a 2 2 plan) ≤ length plan / 2 + 1)
length-shard_slice_example = length-shard_slice by_a 1 2 plan (omega arith)

-- "a" comes before every other text, and the others are equal.
abbrev a_first : String → String → Ordering
a_first s t =
    if str_eq s "a"
    then if str_eq t "a" then Ordering.eq else Ordering.lt
    else if str_eq t "a"
    then Ordering.gt
    else Ordering.eq

a_first-IsSymmetric : IsSymmetric a_first
a_first-IsSymmetric = record { flip_gt = λ s t e. ground arith; flip_eq = λ s t e. ground arith }

sort_deterministic-IsSorted_example : IsSorted a_first (sort_deterministic a_first plan)
sort_deterministic-IsSorted_example = sort_deterministic-IsSorted a_first a_first-IsSymmetric plan
