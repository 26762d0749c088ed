-- ===== src/Assertions/Evaluator.antt =====
-- src/assertions/arithmetic-evaluator.ts. The counter of nodes is passed along; where the code goes below
-- zero it stays there, and nothing reads it after that. The target resolver on a context, the
-- operations of doubles and the texts of values are parameters.
pub mod Budget
mod Tests
use apiwright.Prelude.{
  ℕ, zero, suc, ◌%◌, ◌^◌, Bool, true, false, not, Option, none, some, List, [], ◌∷◌, String,
  template, ltb, ◌&&◌, if◌then◌else◌,
}
use apiwright.Core.Value.{
  Value, OpaqueKind, is_zero, undefined, null, boolean, number, string, opaque,
}
use apiwright.Assertions.Tokens.{
  ArithmeticOperator, plus, minus, times, over, ArithmeticExpr, literal, reference, binary,
}

pub data FailureCode : Type 0 where
  arithmetic_error target_not_found type_mismatch : FailureCode

pub data ArithmeticOutcome : Type 0 where
  ok : (value : ℕ) → ArithmeticOutcome
  failed : (failure_code : FailureCode) (reason : String) → ArithmeticOutcome

abbrev pub max_arith_eval_nodes : ℕ
max_arith_eval_nodes = 4096

-- `+`, `-`, `*` and `/` of doubles, `resolve` with its context (`none` where nothing is found), and
-- `String(v)` of a number and of any value.
pub record Runtime (R : Type 0) : Type 0 where
  pub add : ℕ → ℕ → ℕ
  pub subtract : ℕ → ℕ → ℕ
  pub multiply : ℕ → ℕ → ℕ
  pub divide : ℕ → ℕ → ℕ
  pub resolve : R → Option Value
  pub number_text : ℕ → String
  pub value_text : Value → String

-- `Number.isFinite`: the exponent is not all ones.
abbrev pub is_finite : ℕ → Bool
is_finite bits = ltb (bits % 2 ^ 63) 0x7ff0_0000_0000_0000

abbrev pub type_of : Value → String
type_of undefined = "undefined"
type_of null = "object"
type_of (boolean _) = "boolean"
type_of (number _) = "number"
type_of (string _) = "string"
type_of (opaque OpaqueKind.bigint _) = "bigint"
type_of (opaque OpaqueKind.symbol _) = "symbol"
type_of (opaque OpaqueKind.function _) = "function"
type_of (Value.reference _) = "object"

abbrev pub limit_exceeded : ArithmeticOutcome
limit_exceeded = failed arithmetic_error "Arithmetic expression exceeded 4096 node limit"

module _ {R : Type 0} (run : Runtime R) where
  -- A number that has to be finite, or the failure.
  abbrev pub finite_or : FailureCode → List String → ℕ → ArithmeticOutcome
  finite_or code pieces bits = if is_finite bits then ok bits else failed code (template pieces)

  unfoldable pub eval_number : ℕ → ArithmeticOutcome
  eval_number value =
      finite_or arithmetic_error
        ("Non-finite number literal in arithmetic expression: " ∷ run.number_text value ∷ []) value

  abbrev pub mismatch : Value → List String
  mismatch v =
      "Arithmetic operand resolved to non-number type '" ∷ type_of v ∷ "': " ∷ run.value_text v ∷ []

  unfoldable pub eval_resolved : Option Value → ArithmeticOutcome
  eval_resolved none = failed target_not_found "Arithmetic target not found in evaluation context"
  eval_resolved (some (number bits)) = finite_or type_mismatch (mismatch (number bits)) bits
  eval_resolved (some v) = failed type_mismatch (template (mismatch v))

  unfoldable pub eval_target : R → ArithmeticOutcome
  unfolding eval_resolved
  eval_target ref = eval_resolved (run.resolve ref)

  abbrev pub operate : ArithmeticOperator → ℕ → ℕ → ℕ
  operate plus l r = run.add l r
  operate minus l r = run.subtract l r
  operate times l r = run.multiply l r
  operate over l r = run.divide l r

  abbrev pub is_over : ArithmeticOperator → Bool
  is_over over = true
  is_over _ = false

  unfoldable pub apply_op : ArithmeticOperator → ℕ → ℕ → ArithmeticOutcome
  apply_op op l r =
      if is_over op && is_zero r
      then failed arithmetic_error "Division by zero in arithmetic expression"
      else finite_or arithmetic_error
          ("Arithmetic expression produced non-finite result: "
            ∷ run.number_text (operate op l r)
            ∷ [])
          (operate op l r)

  -- `#evalNode`, with how many more nodes may be visited.
  unfoldable pub eval_node : ArithmeticExpr R → ℕ → ArithmeticOutcome × ℕ
  unfolding eval_number eval_target apply_op
  eval_node expr zero = (limit_exceeded, zero)
  eval_node (literal value) (suc remaining) = (eval_number value, remaining)
  eval_node (reference ref) (suc remaining) = (eval_target ref, remaining)
  eval_node (binary op left right) (suc remaining) =
      let l = eval_node left remaining in
      elim l.0 [
        | failed code reason ↦ (failed code reason, l.1)
        | ok x ↦
            let r = eval_node right l.1 in
            elim r.0 [
              | failed code reason ↦ (failed code reason, r.1)
              | ok y ↦ (apply_op op x y, r.1)
            ]
      ]

  unfoldable pub evaluate : ArithmeticExpr R → ArithmeticOutcome
  unfolding eval_node
  evaluate expr = (eval_node expr max_arith_eval_nodes).0
