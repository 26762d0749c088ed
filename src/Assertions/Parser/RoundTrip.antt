-- ===== src/Assertions/Parser/RoundTrip.antt =====
-- src/assertions/arithmetic-parser.ts on printed expressions.
use apiwright.Prelude.{ℕ, ◌≤◌, ◌≡◌, refl, none, some, List, [], ◌∷◌, String, arith, ◌∙◌, ap}
use mathlib.Core.List.{append-nil}
use apiwright.Assertions.Parser.Levels.{
  group, FactorReads, TermReads, ExprReads, factor-term, term-expr, literal-factor,
  reference-factor, product-term, sum-expr, parens-factor,
}
use apiwright.Assertions.Parser.Printer.{
  level, print, nesting, IsReadable, BeginsOperand, print-BeginsOperand,
}
use apiwright.Assertions.Parser.Steps.{state, loop-Stops}
use apiwright.Assertions.Parser.{parse_term, parse_expr, parse_to, trailing, result_of}
use apiwright.Assertions.State.{Parsed, TargetPaths, additive, multiplicative, ok}
use apiwright.Assertions.Tokens.{
  ArithmeticOperator, plus, minus, times, over, arith_op, Token, ArithmeticExpr, literal, reference,
  binary,
}

module _ {R : Type 0} (text : R → String) (paths : TargetPaths R) (max_depth : ℕ) where
  -- All three levels at once.
  abbrev AllRead : ArithmeticExpr R → Type 0
  AllRead e =
      ExprReads text paths max_depth e
      × TermReads text paths max_depth e
      × FactorReads text paths max_depth e

  operand-AllRead :
      (e : ArithmeticExpr R)
      → (print text 0 e ≡ print text 1 e) × (nesting text 0 e ≡ nesting text 1 e)
      → (print text 1 e ≡ print text 2 e) × (nesting text 1 e ≡ nesting text 2 e)
      → FactorReads text paths max_depth e
      → AllRead e
  operand-AllRead e (p, n) (q, k) h =
      let term = factor-term text paths max_depth e q k h in
      (term-expr text paths max_depth e p n term, term, h)

  sum-AllRead :
      (op : ArithmeticOperator) (l r : ArithmeticExpr R)
      → (additive (arith_op op) ≡ some op) × (multiplicative (arith_op op) ≡ none) × (level op ≡ 0)
      → AllRead l
      → AllRead r
      → AllRead (binary op l r)
  unfolding print nesting
  sum-AllRead op l r (a, m, v) hl hr =
      let e = binary op l r in
      let expr =
        sum-expr text paths max_depth op l r e a m refl (rw v) (rw v (omega arith, omega arith))
          hl.0 hr.1 in
      let factor = parens-factor text paths max_depth e (rw v) (rw v (omega arith)) expr in
      (expr, factor-term text paths max_depth e (rw v) (rw v (omega arith)) factor, factor)

  product-AllRead :
      (op : ArithmeticOperator) (l r : ArithmeticExpr R)
      → (multiplicative (arith_op op) ≡ some op) × (level op ≡ 1)
      → AllRead l
      → AllRead r
      → AllRead (binary op l r)
  unfolding print nesting
  product-AllRead op l r (m, v) hl hr =
      let e = binary op l r in
      let term =
        product-term text paths max_depth op l r e m refl (rw v) (rw v (omega arith, omega arith))
          hl.1 hr.2 in
      let expr = term-expr text paths max_depth e (rw v) (rw v (omega arith)) term in
      (expr, term, parens-factor text paths max_depth e (rw v) (rw v (omega arith)) expr)

  all_read : (e : ArithmeticExpr R) → IsReadable text paths e → AllRead e
  unfolding print nesting
  all_read (literal v) h =
      operand-AllRead (literal v) (refl, refl) (refl, refl) (literal-factor text paths max_depth v)
  all_read (reference r) h =
      operand-AllRead (reference r) (refl, refl) (refl, refl)
        (reference-factor text paths max_depth r h)
  all_read (binary plus l r) (a, b) =
      sum-AllRead plus l r (refl, refl, refl) (all_read l a) (all_read r b)
  all_read (binary minus l r) (a, b) =
      sum-AllRead minus l r (refl, refl, refl) (all_read l a) (all_read r b)
  all_read (binary times l r) (a, b) =
      product-AllRead times l r (refl, refl) (all_read l a) (all_read r b)
  all_read (binary over l r) (a, b) =
      product-AllRead over l r (refl, refl) (all_read l a) (all_read r b)

  parse_to_whole :
      (ts : List Token) (e : ArithmeticExpr R) (c : ℕ)
      → BeginsOperand ts
      → parse_expr paths (group text paths max_depth max_depth) (state ts 0 []) ≡ (e, state [] c [])
      → parse_to paths max_depth ts ≡ ok e
  unfolding parse_to trailing
  parse_to_whole [] e c h q = elim h [ ]
  parse_to_whole (t ∷ ts) e c h q =
      ap (λ (r : Parsed R). result_of paths r.0 (trailing paths r.1.rest r.1).errors) q

  -- An expression that is printed with parentheses only where the grammar needs them is read back as it
  -- is, if its parentheses are nested no deeper than the maximal depth and each reference has a text with
  -- a dot that the target parser reads as this reference.
  pub parse_to-print :
      (e : ArithmeticExpr R)
      → nesting text 0 e ≤ max_depth
      → IsReadable text paths e
      → parse_to paths max_depth (print text 0 e) ≡ ok e
  parse_to-print e b h =
      let (c, q) = (all_read e h).0 max_depth b [] 0 [] tt in
      let add = parse_term paths (group text paths max_depth max_depth) in
      let same = append-nil (print text 0 e) in
      parse_to_whole (print text 0 e) e c (print-BeginsOperand text 0 e)
        (rw same at (q ∙ loop-Stops additive add e [] c [] tt))
