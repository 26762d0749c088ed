-- ===== src/Assertions/Parser/Ends.antt =====
-- src/assertions/arithmetic-parser.ts: no method puts the cursor back, so the loops of the
-- parser end.
use apiwright.Prelude.{
  ℕ, zero, suc, ◌+◌, ◌≤◌, ◌≡◌, refl, Bool, true, false, List, [], ◌∷◌, length, if◌then◌else◌,
  Bool-cases, inl, inr, arith,
}
use native.Mathlib.Nat.{le_trans}
use apiwright.Assertions.Parser.{
  parse_dotted, parse_target_leaf, handle_unbalanced_close, disallowed, parse_paren_group,
  factor_at, parse_factor_on, parse_factor, operators_loop, parse_term, parse_expr, close_group,
  parse_group, after_open, close_at, unclosed,
}
use apiwright.Assertions.State.{
  ParserState, tail, advance, has_dot, additive, multiplicative, GroupParser, TargetPaths,
  TargetParseResult, found, faulty,
}
use apiwright.Assertions.Tokens.{
  TokenKind, target, identifier, lparen, rparen, number, Token, ArithmeticExpr,
}
use apiwright.Assertions.Parser.Loops.{
  Shrinks, with_operators-shrinks, operators_loop_more, length-tail, skip_group-shrinks,
}

module _ {R : Type 0} (paths : TargetPaths R) where
  parse_dotted-shrinks :
      (tok : Token) (s : ParserState) (r : TargetParseResult R)
      → length (parse_dotted paths tok s r).1.rest ≤ length s.rest
  unfolding parse_dotted
  parse_dotted-shrinks tok s (found ref) = omega arith
  parse_dotted-shrinks tok s (faulty messages) = omega arith

  parse_target_leaf-shrinks :
      (tok : Token) (s : ParserState)
      → length (parse_target_leaf paths tok s).1.rest ≤ length s.rest
  unfolding parse_target_leaf
  parse_target_leaf-shrinks tok s = elim (Bool-cases (has_dot tok.raw)) [
    | inr e ↦ rw (e, parse_target_leaf) (length-tail s.rest)
    | inl e ↦
        rw (e, parse_target_leaf)
          (le_trans (parse_dotted-shrinks tok (advance s) (paths.parse_target tok.raw))
            (length-tail s.rest))
  ]

  disallowed-shrinks :
      (tok : Token) (s : ParserState) → length (disallowed paths tok s).1.rest ≤ length s.rest
  unfolding disallowed
  disallowed-shrinks tok s = length-tail s.rest

  identifier-shrinks :
      (tok : Token) (s : ParserState) (dotted : Bool)
      → length (if dotted then parse_target_leaf paths tok s else disallowed paths tok s).1.rest
        ≤ length s.rest
  identifier-shrinks tok s true = parse_target_leaf-shrinks tok s
  identifier-shrinks tok s false = disallowed-shrinks tok s

  -- A parser of groups does not put the cursor back either.
  abbrev GroupShrinks : GroupParser R → Type 0
  GroupShrinks group = (tok : Token) → Shrinks (group tok)

  module _ (group : GroupParser R) (g : GroupShrinks group) where
    after_open-shrinks :
        (tok : Token) (s : ParserState) (k : TokenKind)
        → length (after_open paths group tok s k).1.rest ≤ length s.rest
    unfolding after_open
    after_open-shrinks tok s rparen = le_trans (length-tail (tail s.rest)) (length-tail s.rest)
    after_open-shrinks tok s _ = g tok s

    parse_paren_group-shrinks :
        (tok : Token) (toks : List Token) (s : ParserState)
        → length (parse_paren_group paths group tok toks s).1.rest ≤ length s.rest
    unfolding parse_paren_group
    parse_paren_group-shrinks tok [] s = g tok s
    parse_paren_group-shrinks tok (n ∷ toks) s = after_open-shrinks tok s n.kind

    factor_at-shrinks :
        (tok : Token) (toks : List Token) (s : ParserState) (k : TokenKind)
        → length (factor_at paths group tok toks s k).1.rest ≤ length s.rest
    unfolding factor_at handle_unbalanced_close
    factor_at-shrinks tok toks s lparen = parse_paren_group-shrinks tok toks s
    factor_at-shrinks tok toks s rparen = length-tail s.rest
    factor_at-shrinks tok toks s (number value) = length-tail s.rest
    factor_at-shrinks tok toks s target = parse_target_leaf-shrinks tok s
    factor_at-shrinks tok toks s identifier = identifier-shrinks tok s (has_dot tok.raw)
    factor_at-shrinks tok toks s _ = disallowed-shrinks tok s

    factor_on-shrinks :
        (toks : List Token) (s : ParserState)
        → length (parse_factor_on paths group toks s).1.rest ≤ length s.rest
    unfolding parse_factor_on
    factor_on-shrinks [] s = omega arith
    factor_on-shrinks (tok ∷ toks) s = factor_at-shrinks tok toks s tok.kind

    pub parse_factor-Shrinks : Shrinks (parse_factor paths group)
    parse_factor-Shrinks s = factor_on-shrinks s.rest s

    pub parse_term-Shrinks : Shrinks (parse_term paths group)
    parse_term-Shrinks s =
        with_operators-shrinks multiplicative (parse_factor paths group) parse_factor-Shrinks s.rest
          s

    pub parse_expr-Shrinks : Shrinks (parse_expr paths group)
    parse_expr-Shrinks s =
        with_operators-shrinks additive (parse_term paths group) parse_term-Shrinks s.rest s

  close_at-shrinks :
      (tok : Token) (inner : ArithmeticExpr R) (s : ParserState) (k : TokenKind)
      → length (close_at paths tok inner s k).1.rest ≤ length s.rest
  unfolding close_at unclosed
  close_at-shrinks tok inner s rparen = length-tail s.rest
  close_at-shrinks tok inner s _ = omega arith

  close_group-shrinks :
      (tok : Token) (inner : ArithmeticExpr R) (toks : List Token) (s : ParserState)
      → length (close_group paths tok inner toks s).1.rest ≤ length s.rest
  unfolding close_group unclosed
  close_group-shrinks tok inner [] s = omega arith
  close_group-shrinks tok inner (c ∷ toks) s = close_at-shrinks tok inner s c.kind

  pub parse_group-GroupShrinks :
      (max_depth left : ℕ) → GroupShrinks (parse_group paths max_depth left)
  unfolding parse_group
  parse_group-GroupShrinks max_depth zero tok s = skip_group-shrinks 0 s.rest _
  parse_group-GroupShrinks max_depth (suc left) tok s =
      let group = parse_group paths max_depth left in
      let inner = parse_expr paths group (advance s) in
      le_trans (close_group-shrinks tok inner.0 inner.1.rest inner.1) (
        le_trans (parse_expr-Shrinks group (parse_group-GroupShrinks max_depth left) (advance s))
          (length-tail s.rest))

  -- The two loops of the parser come to their end by themselves within as many rounds as there are
  -- tokens left: with any more fuel they return the same expression and the same state, at every depth
  -- of parentheses, whatever the tokens are.
  pub operators_loop-ends :
      (max_depth left k : ℕ) (expr : ArithmeticExpr R) (s : ParserState)
      → (operators_loop multiplicative
            (parse_factor paths (parse_group paths max_depth left))
            (length s.rest + k)
            expr
            s.rest
            s
          ≡ operators_loop multiplicative
              (parse_factor paths (parse_group paths max_depth left))
              (length s.rest)
              expr
              s.rest
              s)
        × (operators_loop additive
              (parse_term paths (parse_group paths max_depth left))
              (length s.rest + k)
              expr
              s.rest
              s
            ≡ operators_loop additive
                (parse_term paths (parse_group paths max_depth left))
                (length s.rest)
                expr
                s.rest
                s)
  operators_loop-ends max_depth left k expr s =
      let group = parse_group paths max_depth left in
      let g = parse_group-GroupShrinks max_depth left in
      (
        operators_loop_more multiplicative (parse_factor paths group) (parse_factor-Shrinks group g)
            (length s.rest + k) (length s.rest) expr s.rest s refl (omega arith) (omega arith),
        operators_loop_more additive (parse_term paths group) (parse_term-Shrinks group g)
            (length s.rest + k) (length s.rest) expr s.rest s refl (omega arith) (omega arith),
      )
