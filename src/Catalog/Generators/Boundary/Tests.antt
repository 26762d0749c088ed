-- ===== src/Catalog/Generators/Boundary/Tests.antt =====
-- The value outside an enumeration, on a small one.
use apiwright.Prelude.{
  ℕ, ◌+◌, ◌-◌, ◌<◌, ◌≤◌, ◌^◌, ◌≡◌, refl, true, false, List, [], ◌∷◌, ltb, arith,
}
use native.Mathlib.Nat.{mod-eq_of_lt}
use apiwright.Core.Json.{Json, number, string, boolean}
use apiwright.Core.Value.{numbers_equal, is_zero}
use apiwright.Catalog.Case.{returned}
use apiwright.Catalog.Generators.Boundary.{
  DoubleOps, enum_outside_sentinel, includes, first_absent_value,
}
use apiwright.Catalog.Generators.Boundary.Absent.{Distinct, first_absent_value-absent}

-- An integer is told apart by one more than itself.
abbrev ops : DoubleOps
ops = record {
  plus_one = λ n. n + 1;
  minus_one = λ n. n - 1;
  is_positive = λ n. ltb 0 n;
  repeat_a = λ n. returned "a";
  of_integer = λ n. n + 1;
}

not_zero : (k : ℕ) → 0 < k → k ≤ 2 ^ 53 → is_zero k ≡ false
not_zero k l b = rw (mod-eq_of_lt {n = k} {m = 2 ^ 63} (omega (arith, b))) (ground (arith, l))

equal_number : (x k : ℕ) → is_zero k ≡ false → numbers_equal x k ≡ true → x ≡ k
unfolding numbers_equal
equal_number x k l p = ground arith

ops-Distinct : Distinct ops
ops-Distinct x m n bm bn p q =
    let a = equal_number x (m + 1) (not_zero (m + 1) (omega arith) (omega arith)) p in
    let b = equal_number x (n + 1) (not_zero (n + 1) (omega arith) (omega arith)) q in
    omega (arith, a, b)

abbrev values : List Json
values = string enum_outside_sentinel ∷ number 1 ∷ boolean false ∷ number 3 ∷ number 2 ∷ []

found : first_absent_value ops values ≡ number 4
unfolding first_absent_value numbers_equal
found = refl

first_absent_value-absent_example : includes values (first_absent_value ops values) ≡ false
first_absent_value-absent_example = first_absent_value-absent ops ops-Distinct values (omega arith)
