-- ===== src/Runner/Shard/Sorting.antt =====
-- The refusals of a bad tuple, and the shards against the plan before it is sorted.
use Prim.Native.Nat.{Ordering}
use mathlib.Core.List.{Perm}
use mathlib.Core.List.Perm
use apiwright.Prelude.{ℕ, ◌≤◌, ◌<◌, ◌≡◌, ◌↔◌, inl, inr, Bool-cases, List, [], ◌∷◌, String, arith}
use apiwright.Runner.Shard.{
  ShardNumber, pos, negsuc, not_integer, ShardSpec, PlannedTestCase, ok, validate_shard,
  check_shard, before, insert, sort_deterministic,
}
use apiwright.Runner.Shard.Slices.{first_shards, first_shards_all}

check_shard_iff :
    (a b : ShardNumber) (index total : ℕ)
    → (check_shard a b ≡ ok (index, total))
      ↔ ((a ≡ pos index) × (b ≡ pos total) × (1 ≤ index) × (index ≤ total))
unfolding check_shard
check_shard_iff (pos n) (pos m) index total =
    (λ e. (ground arith, ground arith, ground arith, ground arith), λ h. ground arith)
check_shard_iff (pos n) (negsuc m) index total = (λ e. cc, λ h. cc)
check_shard_iff (pos n) not_integer index total = (λ e. cc, λ h. cc)
check_shard_iff (negsuc n) (pos m) index total = (λ e. ground arith, λ h. cc)
check_shard_iff (negsuc n) (negsuc m) index total = (λ e. cc, λ h. cc)
check_shard_iff (negsuc n) not_integer index total = (λ e. cc, λ h. cc)
check_shard_iff not_integer b index total = (λ e. cc, λ h. cc)

-- A tuple is accepted exactly when both parts are integers with 1 ≤ index ≤ total.
validate_shard_iff :
    (shard : ShardSpec) (index total : ℕ)
    → (validate_shard shard ≡ ok (index, total))
      ↔ ((shard.index ≡ pos index) × (shard.total ≡ pos total) × (1 ≤ index) × (index ≤ total))
unfolding validate_shard
validate_shard_iff shard index total = check_shard_iff shard.index shard.total index total

module _ {C : Type 0} (locale_compare : String → String → Ordering) where
  insert-Perm :
      (a : PlannedTestCase C) (bs : List (PlannedTestCase C))
      → Perm (insert locale_compare a bs) (a ∷ bs)
  unfolding insert
  insert-Perm a [] = Perm.refl _
  insert-Perm a (b ∷ bs) = elim (Bool-cases (before locale_compare a b)) [
    | inl e ↦ rw e (Perm.refl _)
    | inr e ↦ rw e (Perm.trans (Perm.cons b (insert-Perm a bs)) (Perm.swap a b bs))
  ]

  sort_deterministic-Perm :
      (cases : List (PlannedTestCase C)) → Perm (sort_deterministic locale_compare cases) cases
  unfolding sort_deterministic
  sort_deterministic-Perm [] = Perm.refl _
  sort_deterministic-Perm (a ∷ rest) =
      Perm.trans (insert-Perm a (sort_deterministic locale_compare rest))
        (Perm.cons a (sort_deterministic-Perm rest))

  -- For a positive `total`, the shards 1, ..., `total` hold together exactly the planned cases, each as often as planned,
  -- in whatever way the platform compares strings.
  pub first_shards-Perm :
      (total : ℕ) (cases : List (PlannedTestCase C))
      → 0 < total
      → Perm (first_shards locale_compare total total cases) cases
  first_shards-Perm total cases h =
      rw (first_shards_all locale_compare total cases h) (sort_deterministic-Perm cases)
