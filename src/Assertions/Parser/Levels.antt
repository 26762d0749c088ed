-- ===== src/Assertions/Parser/Levels.antt =====
-- src/assertions/arithmetic-parser.ts: how each level of the grammar reads a printed expression.
use apiwright.Prelude.{
  ℕ, zero, suc, ◌≤◌, ◌≡◌, refl, none, some, List, [], ◌∷◌, ◌++◌, String, arith, ◌∙◌, ap,
}
use mathlib.Core.List.{append_assoc}
use apiwright.Assertions.Parser.Ends.{
  parse_factor-Shrinks, parse_term-Shrinks, parse_group-GroupShrinks,
}
use apiwright.Assertions.Parser.Printer.{
  token, in_parens, operator_token, print, nesting, IsReadable, OperandKind, BeginsOperand,
  BeginsOperand-append, print-BeginsOperand,
}
use apiwright.Assertions.Parser.Steps.{
  state, Stops, loop, loop-Stops, loop_step, with_operators-begins, BeginsOperand-Stops,
}
use apiwright.Assertions.Parser.{
  parse_factor, parse_factor_on, factor_at, parse_paren_group, after_open, parse_target_leaf,
  parse_dotted, parse_term, parse_expr, parse_group, close_group, close_at,
}
use apiwright.Assertions.State.{
  ArithParseError, ParserState, Parsed, TargetPaths, additive, multiplicative, GroupParser,
}
use apiwright.Assertions.Tokens.{
  ArithmeticOperator, TokenKind, target, lparen, rparen, number, arith_op, Token, ArithmeticExpr,
  literal, reference, binary,
}

module _ {R : Type 0} (text : R → String) (paths : TargetPaths R) (max_depth : ℕ) where
  abbrev pub group : ℕ → GroupParser R
  group left = parse_group paths max_depth left

  -- The three levels of the grammar, with what follows the printed tokens.
  abbrev pub FactorReads : ArithmeticExpr R → Type 0
  FactorReads e =
      (left : ℕ)
      → nesting text 2 e ≤ left
      → (ts : List Token) (c : ℕ) (errors : List ArithParseError)
      → (c' : ℕ) × (parse_factor paths (group left) (state (print text 2 e ++ ts) c errors)
          ≡ (e, state ts c' errors))

  abbrev pub TermReads : ArithmeticExpr R → Type 0
  TermReads e =
      (left : ℕ)
      → nesting text 1 e ≤ left
      → (ts : List Token) (c : ℕ) (errors : List ArithParseError)
      → (c' : ℕ) × (parse_term paths (group left) (state (print text 1 e ++ ts) c errors)
          ≡ loop multiplicative (parse_factor paths (group left)) e (state ts c' errors))

  abbrev pub ExprReads : ArithmeticExpr R → Type 0
  ExprReads e =
      (left : ℕ)
      → nesting text 0 e ≤ left
      → (ts : List Token) (c : ℕ) (errors : List ArithParseError) → Stops multiplicative ts
      → (c' : ℕ) × (parse_expr paths (group left) (state (print text 0 e ++ ts) c errors)
          ≡ loop additive (parse_term paths (group left)) e (state ts c' errors))

  begins :
      (lvl : ℕ) (e : ArithmeticExpr R) (ts : List Token) → BeginsOperand (print text lvl e ++ ts)
  begins lvl e ts = BeginsOperand-append (print text lvl e) ts (print-BeginsOperand text lvl e)

  -- An operand is a term, where it is printed the same.
  pub factor-term :
      (e : ArithmeticExpr R)
      → print text 1 e ≡ print text 2 e
      → nesting text 1 e ≡ nesting text 2 e
      → FactorReads e
      → TermReads e
  factor-term e p n h left b ts c errors =
      let (c', q) = h left (omega (arith, n, b)) ts c errors in
      (
        c',
        rw p (
            with_operators-begins multiplicative (parse_factor paths (group left))
              (print text 2 e ++ ts) c errors (e, state ts c' errors)
              (BeginsOperand-Stops (print text 2 e ++ ts) (begins 2 e ts)).1 q),
      )

  -- A term that is no sum is an expression.
  pub term-expr :
      (e : ArithmeticExpr R)
      → print text 0 e ≡ print text 1 e
      → nesting text 0 e ≡ nesting text 1 e
      → TermReads e
      → ExprReads e
  term-expr e p n h left b ts c errors stops =
      let (c', q) = h left (omega (arith, n, b)) ts c errors in
      let mul = parse_factor paths (group left) in
      (
        c',
        rw p (
            with_operators-begins additive (parse_term paths (group left)) (print text 1 e ++ ts) c
              errors (e, state ts c' errors)
              (BeginsOperand-Stops (print text 1 e ++ ts) (begins 1 e ts)).0
              (q ∙ loop-Stops multiplicative mul e ts c' errors stops)),
      )

  pub literal-factor : (v : ℕ) → FactorReads (literal v)
  unfolding parse_factor_on factor_at print
  literal-factor v left b ts c errors = (suc c, refl)

  pub reference-factor : (r : R) → IsReadable text paths (reference r) → FactorReads (reference r)
  unfolding parse_factor_on factor_at parse_target_leaf parse_dotted print
  reference-factor r (d, f) left b ts c errors = (suc c, rw (d, f))

  -- A product, from the readings of its two sides.
  pub product-term :
      (op : ArithmeticOperator) (l r e : ArithmeticExpr R)
      → multiplicative (arith_op op) ≡ some op
      → e ≡ binary op l r
      → print text 1 e ≡ print text 1 l ++ (operator_token op ∷ print text 2 r)
      → (nesting text 1 l ≤ nesting text 1 e) × (nesting text 2 r ≤ nesting text 1 e)
      → TermReads l
      → FactorReads r
      → TermReads e
  product-term op l r e m q p n hl hr left b ts c errors =
      let mul = parse_factor paths (group left) in
      let shrinks =
        parse_factor-Shrinks paths (group left) (parse_group-GroupShrinks paths max_depth left) in
      let (c1, q1) =
        hl left (omega (arith, n.0, b)) (operator_token op ∷ (print text 2 r ++ ts)) c errors in
      let (c2, q2) = hr left (omega (arith, n.1, b)) ts (suc c1) errors in
      let step =
        loop_step multiplicative mul shrinks op l (operator_token op) (print text 2 r ++ ts) c1
          errors (r, state ts c2 errors) m (begins 2 r ts) q2 in
      (
        c2,
        rw (p, append_assoc (print text 1 l) (operator_token op ∷ print text 2 r) ts, q)
            (q1 ∙ step),
      )

  pub sum-expr :
      (op : ArithmeticOperator) (l r e : ArithmeticExpr R)
      → additive (arith_op op) ≡ some op
      → multiplicative (arith_op op) ≡ none
      → e ≡ binary op l r
      → print text 0 e ≡ print text 0 l ++ (operator_token op ∷ print text 1 r)
      → (nesting text 0 l ≤ nesting text 0 e) × (nesting text 1 r ≤ nesting text 0 e)
      → ExprReads l
      → TermReads r
      → ExprReads e
  sum-expr op l r e a m q p n hl hr left b ts c errors stops =
      let mul = parse_factor paths (group left) in
      let add = parse_term paths (group left) in
      let shrinks =
        parse_term-Shrinks paths (group left) (parse_group-GroupShrinks paths max_depth left) in
      let (c1, q1) =
        hl left (omega (arith, n.0, b)) (operator_token op ∷ (print text 1 r ++ ts)) c errors m in
      let (c2, q2) = hr left (omega (arith, n.1, b)) ts (suc c1) errors in
      let step =
        loop_step additive add shrinks op l (operator_token op) (print text 1 r ++ ts) c1 errors
          (r, state ts c2 errors) a (begins 1 r ts)
          (q2 ∙ loop-Stops multiplicative mul r ts c2 errors stops) in
      (
        c2,
        rw (p, append_assoc (print text 0 l) (operator_token op ∷ print text 1 r) ts, q)
            (q1 ∙ step),
      )

  after_open-OperandKind :
      (g : GroupParser R) (tok : Token) (s : ParserState) (k : TokenKind)
      → OperandKind k
      → after_open paths g tok s k ≡ g tok s
  unfolding after_open
  after_open-OperandKind g tok s (number v) h = refl
  after_open-OperandKind g tok s target h = refl
  after_open-OperandKind g tok s lparen h = refl
  after_open-OperandKind g tok s _ h = elim h [ ]

  parse_paren_group-begins :
      (g : GroupParser R) (tok : Token) (ts : List Token) (s : ParserState)
      → BeginsOperand ts
      → parse_paren_group paths g tok ts s ≡ g tok s
  unfolding parse_paren_group
  parse_paren_group-begins g tok [] s h = elim h [ ]
  parse_paren_group-begins g tok (t ∷ ts) s h = after_open-OperandKind g tok s t.kind h

  -- In parentheses an expression is an operand.
  pub parens-factor :
      (e : ArithmeticExpr R)
      → print text 2 e ≡ in_parens (print text 0 e)
      → nesting text 2 e ≡ suc (nesting text 0 e)
      → ExprReads e
      → FactorReads e
  unfolding parse_factor_on factor_at parse_group close_group close_at
  parens-factor e p n h zero b ts c errors = absurd (omega (arith, n, b))
  parens-factor e p n h (suc left) b ts c errors =
      let closing = token rparen ")" ∷ ts in
      let inside = print text 0 e ++ closing in
      let opening = token lparen "(" in
      let add = parse_term paths (group left) in
      let (c1, q) = h left (omega (arith, n, b)) closing (suc c) errors refl in
      let read = q ∙ loop-Stops additive add e closing c1 errors refl in
      (
        suc c1,
        rw (p, append_assoc (print text 0 e) (token rparen ")" ∷ []) ts)
            (parse_paren_group-begins (group (suc left)) opening inside
                (state (opening ∷ inside) c errors) (begins 0 e closing)
              ∙ ap (λ (r : Parsed R). close_group paths opening r.0 r.1.rest r.1) read),
      )
