-- ===== src/Catalog/Generators/Boundary/Absent.antt =====
-- src/test-catalog/generators/boundary-battery-generator.ts: the loop of `#firstAbsentValue`.
use apiwright.Prelude.{
  ℕ, zero, suc, ◌+◌, ◌≤◌, ◌<◌, ◌^◌, ◌≡◌, refl, Bool, true, false, not, List, [], ◌∷◌, Bool-cases,
  inl, inr, any, keep, length, length-keep_le, arith, sym, ◌∙◌,
}
use mathlib.Core.Bool.{false≢true}
use apiwright.Core.Json.{Json, number, string, boolean}
use apiwright.Core.Value.{numbers_equal}
use apiwright.Catalog.Generators.Boundary.{
  DoubleOps, same_primitive, includes, integer, first_absent_from, first_absent_value,
  enum_outside_sentinel,
}

-- Taking out what has a property that some element has makes the list shorter.
length-keep-not :
    (p : Json → Bool) (vs : List Json)
    → any p vs ≡ true
    → length (keep (λ v. not (p v)) vs) < length vs
length-keep-not p [] h = absurd (false≢true h)
length-keep-not p (v ∷ vs) h = elim (Bool-cases (p v)) [
  | inl e ↦ rw e (omega (arith, length-keep_le (λ w. not (p w)) vs))
  | inr e ↦ rw e (omega (arith, length-keep-not p vs (rw e at h)))
]

-- What never has the property stays.
any-keep-not :
    (p q : Json → Bool) (vs : List Json)
    → ((v : Json) → p v ≡ true → q v ≡ true → ⊥)
    → any q (keep (λ v. not (p v)) vs) ≡ any q vs
any-keep-not p q [] h = refl
any-keep-not p q (v ∷ vs) h = elim (Bool-cases (p v)) [
  | inr e ↦ rw (e, any-keep-not p q vs h)
  | inl e ↦ elim (Bool-cases (q v)) [
    | inl f ↦ absurd (h v e f)
    | inr f ↦ rw (e, f, any-keep-not p q vs h)
  ]
]

-- No double equals two small integers.
abbrev pub Distinct : DoubleOps → Type 0
Distinct ops =
    (x m n : ℕ)
    → m < 2 ^ 53
    → n < 2 ^ 53
    → numbers_equal x (ops.of_integer m) ≡ true
    → numbers_equal x (ops.of_integer n) ≡ true
    → m ≡ n

module _ (ops : DoubleOps) (distinct : Distinct ops) where
  same_primitive_distinct :
      (v : Json) (m n : ℕ)
      → m < n
      → n < 2 ^ 53
      → same_primitive (integer ops m) v ≡ true
      → same_primitive (integer ops n) v ≡ true
      → ⊥
  same_primitive_distinct (number x) m n l b p q =
      let e = distinct x m n (omega arith) b p q in omega (arith, e, l)
  same_primitive_distinct _ m n l b p q = absurd (false≢true p)

  first_absent_from-absent :
      (fuel n : ℕ) (values vs : List Json)
      → length vs ≤ fuel
      → n + fuel < 2 ^ 53
      → ((m : ℕ)
          → n ≤ m
          → m < 2 ^ 53
          → includes values (integer ops m) ≡ includes vs (integer ops m))
      → includes values (integer ops (first_absent_from ops fuel n values)) ≡ false
  unfolding first_absent_from
  first_absent_from-absent zero n values [] l b h = h n (omega arith) (omega arith)
  first_absent_from-absent zero n values (v ∷ vs) l b h = absurd (omega (arith, l))
  first_absent_from-absent (suc fuel) n values vs l b h =
      elim (Bool-cases (includes values (integer ops n))) [
        | inr e ↦ rw (e, first_absent_from) e
        | inl e ↦
            let p = same_primitive (integer ops n) in
            let shorter = length-keep-not p vs (sym (h n (omega arith) (omega arith)) ∙ e) in
            rw (e, first_absent_from)
              (first_absent_from-absent fuel (suc n) values (keep (λ v. not (p v)) vs)
                (omega (arith, shorter, l)) (omega (arith, b))
                (λ m lm bm.
                  h m (omega (arith, lm)) bm
                  ∙ sym (
                      any-keep-not p (same_primitive (integer ops m)) vs
                        (λ v. same_primitive_distinct v n m (omega (arith, lm)) bm))))
      ]

  -- The value for the outside case of an enumeration is none of its values: the loop comes to an end
  -- within as many rounds as there are values. No double equals two integers below 2^53, and the
  -- enumeration is shorter than 2^53 - 1.
  pub first_absent_value-absent :
      (values : List Json)
      → length values + 1 < 2 ^ 53
      → includes values (first_absent_value ops values) ≡ false
  unfolding first_absent_value
  first_absent_value-absent values b =
      elim (Bool-cases (includes values (string enum_outside_sentinel))) [
        | inr e ↦ rw (e, first_absent_value) e
        | inl e ↦ elim (Bool-cases (includes values (integer ops 0))) [
          | inr f ↦ rw (e, f, first_absent_value) f
          | inl f ↦ elim (Bool-cases (includes values (boolean false))) [
            | inr g ↦ rw (e, f, g, first_absent_value) g
            | inl g ↦
                rw (e, f, g, first_absent_value)
                  (first_absent_from-absent (length values) 1 values values (omega arith)
                    (omega (arith, b)) (λ m lm bm. refl))
          ]
        ]
      ]
