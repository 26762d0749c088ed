-- ===== src/Assertions/Evaluator/Budget.antt =====
-- src/assertions/arithmetic-evaluator.ts against the evaluation without a limit on the nodes.
use apiwright.Prelude.{
  ℕ, zero, suc, ◌+◌, ◌≤◌, ◌≡◌, refl, true, Option, none, some, List, [], ◌∷◌, String, arith, ◌∙◌,
  Bool-cases, inl, inr, ◌⊎◌, ◌&&◌,
}
use apiwright.Core.Value.{Value, number, is_zero}
use apiwright.Assertions.Evaluator.{
  ArithmeticOutcome, ok, failed, FailureCode, Runtime, is_finite, finite_or, eval_number,
  eval_resolved, eval_target, is_over, apply_op, eval_node, evaluate, operate, type_mismatch,
  arithmetic_error, mismatch,
}
use apiwright.Assertions.Tokens.{ArithmeticOperator, ArithmeticExpr, literal, reference, binary}

abbrev pub nodes : {R : Type 0} → ArithmeticExpr R → ℕ
nodes (literal v) = 1
nodes (reference r) = 1
nodes (binary op l r) = suc (nodes l + nodes r)

-- The right side counts where the left side has a value.
abbrev pub after : ArithmeticOutcome → (ℕ → ArithmeticOutcome) → ArithmeticOutcome
after (ok x) f = f x
after (failed code reason) f = failed code reason

-- A value is finite.
abbrev pub IsFinite : ArithmeticOutcome → Type 0
IsFinite (ok value) = is_finite value ≡ true
IsFinite (failed code reason) = Unit

Outcome-cases :
    (o : ArithmeticOutcome)
    → ((v : ℕ) × (o ≡ ok v)) ⊎ ((code : FailureCode) × (reason : String) × (o ≡ failed code reason))
Outcome-cases (ok v) = inl (v, refl)
Outcome-cases (failed code reason) = inr (code, reason, refl)

module _ {R : Type 0} (run : Runtime R) where
  -- The value of an expression, left side first, with no counter.
  unfoldable pub value_of : ArithmeticExpr R → ArithmeticOutcome
  unfolding eval_number eval_target apply_op
  value_of (literal v) = eval_number run v
  value_of (reference r) = eval_target run r
  value_of (binary op l r) = after (value_of l) (λ x. after (value_of r) (λ y. apply_op run op x y))

  finite_or-IsFinite :
      (code : FailureCode) (pieces : List String) (bits : ℕ)
      → IsFinite (finite_or run code pieces bits)
  finite_or-IsFinite code pieces bits = elim (Bool-cases (is_finite bits)) [
    | inl e ↦ rw e e
    | inr e ↦ rw e tt
  ]

  eval_resolved-IsFinite : (o : Option Value) → IsFinite (eval_resolved run o)
  unfolding eval_resolved
  eval_resolved-IsFinite none = tt
  eval_resolved-IsFinite (some (number bits)) =
      finite_or-IsFinite type_mismatch (mismatch run (number bits)) bits
  eval_resolved-IsFinite (some _) = tt

  apply_op-IsFinite : (op : ArithmeticOperator) (l r : ℕ) → IsFinite (apply_op run op l r)
  unfolding apply_op
  apply_op-IsFinite op l r = elim (Bool-cases (is_over run op && is_zero r)) [
    | inl e ↦ rw (e, apply_op) tt
    | inr e ↦
        rw (e, apply_op)
          (finite_or-IsFinite arithmetic_error
            ("Arithmetic expression produced non-finite result: "
              ∷ run.number_text (operate run op l r)
              ∷ [])
            (operate run op l r))
  ]

  value_of-IsFinite : (e : ArithmeticExpr R) → IsFinite (value_of e)
  unfolding value_of eval_number eval_target
  value_of-IsFinite (literal v) =
      finite_or-IsFinite arithmetic_error
        ("Non-finite number literal in arithmetic expression: " ∷ run.number_text v ∷ []) v
  value_of-IsFinite (reference r) = eval_resolved-IsFinite (run.resolve r)
  value_of-IsFinite (binary op l r) = elim (Outcome-cases (value_of l)) [
    | inr (code, reason, e) ↦ rw (e, value_of) tt
    | inl (x, e) ↦ elim (Outcome-cases (value_of r)) [
      | inr (code, reason, f) ↦ rw (e, f, value_of) tt
      | inl (y, f) ↦ rw (e, f, value_of) (apply_op-IsFinite op x y)
    ]
  ]

  -- With enough nodes to visit the counter does not matter, and it falls by no more than the nodes.
  eval_node-value_of :
      (e : ArithmeticExpr R) (n : ℕ)
      → nodes e ≤ n
      → ((eval_node run e n).0 ≡ value_of e) × (n ≤ (eval_node run e n).1 + nodes e)
  unfolding eval_node value_of
  eval_node-value_of (literal v) zero b = absurd (omega (arith, b))
  eval_node-value_of (reference r) zero b = absurd (omega (arith, b))
  eval_node-value_of (binary op l r) zero b = absurd (omega (arith, b))
  eval_node-value_of (literal v) (suc n) b = (refl, omega arith)
  eval_node-value_of (reference r) (suc n) b = (refl, omega arith)
  eval_node-value_of (binary op l r) (suc n) b =
      let (p, k) = eval_node-value_of l n (omega (arith, b)) in
      let (q, m) = eval_node-value_of r (eval_node run l n).1 (omega (arith, b, k)) in
      elim (Outcome-cases (value_of l)) [
        | inr (code, reason, e) ↦ rw (p ∙ e, e, eval_node, value_of) (refl, omega (arith, k))
        | inl (x, e) ↦ elim (Outcome-cases (value_of r)) [
          | inr (code, reason, f) ↦
              rw (p ∙ e, e, q ∙ f, f, eval_node, value_of) (refl, omega (arith, k, m))
          | inl (y, f) ↦ rw (p ∙ e, e, q ∙ f, f, eval_node, value_of) (refl, omega (arith, k, m))
        ]
      ]

  -- An expression of at most 4096 nodes is evaluated to its value or its first failure, as without the
  -- limit on nodes, and a value is a finite double.
  pub evaluate-value_of :
      (e : ArithmeticExpr R)
      → nodes e ≤ 4096
      → (evaluate run e ≡ value_of e) × IsFinite (evaluate run e)
  unfolding evaluate
  evaluate-value_of e b =
      let same = (eval_node-value_of e 4096 b).0 in (same, rw same (value_of-IsFinite e))
