-- ===== src/Assertions/Evaluator/Tests.antt =====
-- The evaluator with small numbers for the doubles.
use apiwright.Prelude.{◌+◌, ◌-◌, ◌*◌, ◌/◌, ◌≡◌, refl, some, String, arith}
use apiwright.Core.Value.{number}
use apiwright.Assertions.Evaluator.{Runtime, evaluate, ok}
use apiwright.Assertions.Evaluator.Budget.{value_of, IsFinite, evaluate-value_of}
use apiwright.Assertions.Tokens.{plus, over, ArithmeticExpr, literal, reference, binary}

abbrev small : Runtime String
small = record {
  add = λ a b. a + b;
  subtract = λ a b. a - b;
  multiply = λ a b. a * b;
  divide = λ a b. a / b;
  resolve = λ r. some (number 40);
  number_text = λ n. "number";
  value_text = λ v. "value";
}

abbrev sum : ArithmeticExpr String
sum = binary plus (reference "response.body.n") (binary over (literal 4) (literal 2))

sum_value : evaluate small sum ≡ ok 42
unfolding evaluate
sum_value = refl

evaluate-value_of_example :
    (evaluate small sum ≡ value_of small sum) × IsFinite (evaluate small sum)
evaluate-value_of_example = evaluate-value_of small sum (omega arith)
