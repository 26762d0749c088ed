-- ===== src/Assertions/Parser/Loops.antt =====
-- src/assertions/arithmetic-parser.ts: no method puts the cursor back, so the loops end.
use apiwright.Prelude.{
  ℕ, zero, suc, ◌≤◌, ◌≡◌, refl, Option, some, List, [], ◌∷◌, length, Option-cases, inl, inr, arith,
  some-injective, none_ne_some, sym, ap,
}
use native.Mathlib.Nat.{le_trans}
use apiwright.Assertions.Parser.{operators_loop, with_operators}
use apiwright.Assertions.State.{
  ParserState, tail, advance, missing_before, missing_right, depth_after, skip_group, Parsed,
}
use apiwright.Assertions.Tokens.{
  ArithmeticOperator, TokenKind, rparen, arith_op, Token, ArithmeticExpr, binary,
}

pub length-tail : (ts : List Token) → length (tail ts) ≤ length ts
length-tail [] = omega arith
length-tail (t ∷ ts) = omega arith

missing_before-rest :
    (op : ArithmeticOperator) (t n : Token) (s after : ParserState) (k : TokenKind)
    → missing_before op t n s k ≡ some after
    → after.rest ≡ s.rest
unfolding missing_before
missing_before-rest op t n s after rparen e = ap (λ a. a.rest) (sym (some-injective e))
missing_before-rest op t n s after (arith_op _) e = ap (λ a. a.rest) (sym (some-injective e))
missing_before-rest op t n s after _ e = absurd (none_ne_some e)

missing_right-rest :
    (op : ArithmeticOperator) (t : Token) (ts : List Token) (s after : ParserState)
    → missing_right op t ts s ≡ some after
    → after.rest ≡ s.rest
unfolding missing_right
missing_right-rest op t [] s after e = ap (λ a. a.rest) (sym (some-injective e))
missing_right-rest op t (n ∷ ts) s after e = missing_before-rest op t n s after n.kind e

pub skip_group-shrinks :
    (d : ℕ) (ts : List Token) (s : ParserState) → length (skip_group d ts s).rest ≤ length s.rest
unfolding skip_group
skip_group-shrinks d [] s = omega arith
skip_group-shrinks d (t ∷ ts) s = elim (Option-cases (depth_after t.kind d)) [
  | inl e ↦ rw (e, skip_group) (length-tail s.rest)
  | inr (d', e) ↦
      rw (e, skip_group) (le_trans (skip_group-shrinks d' ts (advance s)) (length-tail s.rest))
]

module _ {R : Type 0} where
  -- What is left after the parser is no longer than what was there.
  abbrev pub Shrinks : (ParserState → Parsed R) → Type 0
  Shrinks operand = (s : ParserState) → length (operand s).1.rest ≤ length s.rest

  module _ (reads : TokenKind → Option ArithmeticOperator) (operand : ParserState → Parsed R)
      (h : Shrinks operand) where
    operators_loop-shrinks :
        (fuel : ℕ) (left : ArithmeticExpr R) (ts : List Token) (s : ParserState)
        → length (operators_loop reads operand fuel left ts s).1.rest ≤ length s.rest
    unfolding operators_loop
    operators_loop-shrinks zero left ts s = omega arith
    operators_loop-shrinks (suc fuel) left [] s = omega arith
    operators_loop-shrinks (suc fuel) left (t ∷ ts) s = elim (Option-cases (reads t.kind)) [
      | inl e ↦ rw (e, operators_loop) (omega arith)
      | inr (op, e) ↦ elim (Option-cases (missing_right op t ts (advance s))) [
        | inr (after, m) ↦
            let same = missing_right-rest op t ts (advance s) after m in
            rw (e, m, operators_loop, same) (length-tail s.rest)
        | inl m ↦
            let right = operand (advance s) in
            let rest = operators_loop-shrinks fuel (binary op left right.0) right.1.rest right.1 in
            rw (e, m, operators_loop)
              (le_trans rest (le_trans (h (advance s)) (length-tail s.rest)))
      ]
    ]

    pub with_operators-shrinks :
        (ts : List Token) (s : ParserState)
        → length (with_operators reads operand ts s).1.rest ≤ length s.rest
    unfolding with_operators
    with_operators-shrinks [] s = le_trans (operators_loop-shrinks _ _ _ (operand s).1) (h s)
    with_operators-shrinks (t ∷ ts) s = elim (Option-cases (reads t.kind)) [
      | inl e ↦ rw (e, with_operators) (le_trans (operators_loop-shrinks _ _ _ (operand s).1) (h s))
      | inr (op, e) ↦ rw (e, with_operators) (le_trans (h _) (length-tail s.rest))
    ]

    -- The loop on the tokens of its state, with at least as much fuel as tokens.
    pub operators_loop_more :
        (n m : ℕ) (left : ArithmeticExpr R) (ts : List Token) (s : ParserState)
        → s.rest ≡ ts
        → length ts ≤ n
        → length ts ≤ m
        → operators_loop reads operand n left ts s ≡ operators_loop reads operand m left ts s
    unfolding operators_loop
    operators_loop_more zero zero left ts s q a b = refl
    operators_loop_more zero (suc m) left [] s q a b = refl
    operators_loop_more (suc n) zero left [] s q a b = refl
    operators_loop_more (suc n) (suc m) left [] s q a b = refl
    operators_loop_more zero (suc m) left (t ∷ ts) s q a b = absurd (omega (arith, a))
    operators_loop_more (suc n) zero left (t ∷ ts) s q a b = absurd (omega (arith, b))
    operators_loop_more (suc n) (suc m) left (t ∷ ts) s q a b = elim (Option-cases (reads t.kind)) [
      | inl e ↦ rw (e, operators_loop)
      | inr (op, e) ↦ elim (Option-cases (missing_right op t ts (advance s))) [
        | inr (after, f) ↦ rw (e, f, operators_loop)
        | inl f ↦
            let right = operand (advance s) in
            let shorter = h (advance s) in
            let gone = ap (λ r. length (tail r)) q in
            rw (e, f, operators_loop)
              (operators_loop_more n m (binary op left right.0) right.1.rest right.1 refl
                (omega (arith, shorter, gone, a)) (omega (arith, shorter, gone, b)))
      ]
    ]
