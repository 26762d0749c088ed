-- ===== src/Assertions/Parser/Steps.antt =====
-- src/assertions/arithmetic-parser.ts: one step of each loop on tokens that begin with an operand.
use apiwright.Prelude.{ℕ, suc, ◌≡◌, refl, Option, none, some, List, [], ◌∷◌, length, arith, ap}
use apiwright.Assertions.Parser.Loops.{Shrinks, operators_loop_more}
use apiwright.Assertions.Parser.Printer.{
  BeginsOperand, OperandKind-missing_before, OperandKind-no_operator,
}
use apiwright.Assertions.Parser.{operators_loop, with_operators}
use apiwright.Assertions.State.{
  ArithParseError, ParserState, Parsed, missing_right, multiplicative, additive,
}
use apiwright.Assertions.Tokens.{ArithmeticOperator, TokenKind, Token, ArithmeticExpr, binary}

abbrev pub state : List Token → ℕ → List ArithParseError → ParserState
state ts c errors = record { rest = ts; cursor = c; errors = errors }

-- The first token is no operator that the loop reads.
abbrev pub Stops : (TokenKind → Option ArithmeticOperator) → List Token → Type 0
Stops reads [] = Unit
Stops reads (t ∷ ts) = reads t.kind ≡ none

BeginsOperand-missing_right :
    (op : ArithmeticOperator) (t : Token) (ts : List Token) (s : ParserState)
    → BeginsOperand ts
    → missing_right op t ts s ≡ none
unfolding missing_right
BeginsOperand-missing_right op t [] s h = elim h [ ]
BeginsOperand-missing_right op t (n ∷ ts) s h = OperandKind-missing_before op t n s n.kind h

module _ {R : Type 0} (reads : TokenKind → Option ArithmeticOperator)
    (operand : ParserState → Parsed R) where
  -- The loop with as much fuel as tokens.
  abbrev pub loop : ArithmeticExpr R → ParserState → Parsed R
  loop left s = operators_loop reads operand (length s.rest) left s.rest s

  pub loop-Stops :
      (left : ArithmeticExpr R) (ts : List Token) (c : ℕ) (errors : List ArithParseError)
      → Stops reads ts
      → loop left (state ts c errors) ≡ (left, state ts c errors)
  unfolding operators_loop
  loop-Stops left [] c errors h = refl
  loop-Stops left (t ∷ ts) c errors h = rw (h, operators_loop)

  pub loop_step :
      (h : Shrinks operand) (op : ArithmeticOperator) (left : ArithmeticExpr R) (t : Token)
      (ts : List Token) (c : ℕ) (errors : List ArithParseError) (right : Parsed R)
      → reads t.kind ≡ some op
      → BeginsOperand ts
      → operand (state ts (suc c) errors) ≡ right
      → loop left (state (t ∷ ts) c errors) ≡ loop (binary op left right.0) right.1
  unfolding operators_loop
  loop_step h op left t ts c errors right r b e =
      let shorter = h (state ts (suc c) errors) in
      let same = ap (λ (q : Parsed R). length q.1.rest) e in
      rw (r, BeginsOperand-missing_right op t ts (state ts (suc c) errors) b, e, operators_loop)
        (operators_loop_more reads operand h (length ts) (length right.1.rest)
          (binary op left right.0) right.1.rest right.1 refl (omega (arith, shorter, same))
          (omega arith))

  pub with_operators-begins :
      (ts : List Token) (c : ℕ) (errors : List ArithParseError) (first : Parsed R)
      → Stops reads ts
      → operand (state ts c errors) ≡ first
      → with_operators reads operand ts (state ts c errors) ≡ loop first.0 first.1
  unfolding with_operators
  with_operators-begins [] c errors first h e = rw e
  with_operators-begins (t ∷ ts) c errors first h e = rw (h, e, with_operators)

-- Tokens that begin with an operand begin with no operator.
pub BeginsOperand-Stops :
    (ts : List Token) → BeginsOperand ts → Stops additive ts × Stops multiplicative ts
BeginsOperand-Stops [] h = elim h [ ]
BeginsOperand-Stops (t ∷ ts) h = OperandKind-no_operator t.kind h
