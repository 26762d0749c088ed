-- ===== src/Assertions/Parser.antt =====
-- src/assertions/arithmetic-parser.ts. The state is the tokens from the cursor on, the cursor and the
-- errors so far. `left` counts the parentheses that may still be opened: the maximal depth less the
-- depth. What the target parser answers is a parameter.
pub mod Loops
pub mod Ends
pub mod Printer
pub mod Steps
pub mod Levels
pub mod RoundTrip
mod Tests
use Prim.Native.Char.{code}
use Prim.Native.String
use apiwright.Prelude.{
  ℕ, zero, suc, ◌+◌, ◌-◌, Bool, true, false, not, Option, none, some, List, [], ◌∷◌, ◌++◌, String,
  template, decimal, join, length, ◌==◌, ◌||◌, if◌then◌else◌,
}
use apiwright.Core.PathWalk.{WalkSegment, key}
use apiwright.Assertions.Tokens.{
  ArithmeticOperator, plus, minus, times, over, operator_text, TokenKind, target, identifier,
  lparen, rparen, number, arith_op, kind_text, Token, ArithmeticExpr, literal, reference, binary,
}
use apiwright.Assertions.State.{
  ArithParseErrorCode, empty_expression, unbalanced_open_paren, unbalanced_close_paren,
  empty_parens, missing_left_operand, missing_right_operand, expected_operand, disallowed_token,
  trailing_tokens, depth_exceeded, invalid_target, ArithParseError, ArithParseResult, ok, failed,
  TargetParseResult, found, faulty, TargetPaths, max_arith_depth, ParserState, tail, advance,
  push_error, has_dot, additive, multiplicative, missing_right, skip_group, Parsed, GroupParser,
}

module _ {R : Type 0} where
  -- ARITH_SENTINEL; the bits of 0 are 0.
  abbrev pub arith_sentinel : ArithmeticExpr R
  arith_sentinel = literal 0

  -- A loop of `#parseTerm` or `#parseExpr`: `reads` takes an operator, `operand` parses what follows.
  -- Fuel: as many rounds as there are tokens.
  unfoldable pub operators_loop :
      (TokenKind → Option ArithmeticOperator)
      → (ParserState → Parsed R)
      → ℕ
      → ArithmeticExpr R
      → List Token
      → ParserState
      → Parsed R
  unfolding missing_right
  operators_loop reads operand zero left toks s = (left, s)
  operators_loop reads operand (suc fuel) left [] s = (left, s)
  operators_loop reads operand (suc fuel) left (tok ∷ toks) s = elim (reads tok.kind) [
    | none ↦ (left, s)
    | some op ↦ elim (missing_right op tok toks (advance s)) [
      | some after ↦ (left, after)
      | none ↦
          let right = operand (advance s) in
          operators_loop reads operand fuel (binary op left right.0) right.1.rest right.1
    ]
  ]

  -- An operator at the start has no left operand; it is passed over, and what follows is parsed.
  unfoldable pub with_operators :
      (TokenKind → Option ArithmeticOperator)
      → (ParserState → Parsed R)
      → List Token
      → ParserState
      → Parsed R
  unfolding operators_loop
  with_operators reads operand [] s =
      let first = operand s in
      operators_loop reads operand (length first.1.rest) first.0 first.1.rest first.1
  with_operators reads operand (tok ∷ toks) s = elim (reads tok.kind) [
    | some op ↦ operand (
        advance (
          push_error missing_left_operand s.cursor tok.start
            ("Operator '" ∷ operator_text op ∷ "' has no left operand" ∷ []) s))
    | none ↦
        let first = operand s in
        operators_loop reads operand (length first.1.rest) first.0 first.1.rest first.1
  ]

  module _ (paths : TargetPaths R) where
    unfoldable pub parse_dotted : Token → ParserState → TargetParseResult R → Parsed R
    parse_dotted tok s (found ref) = (reference ref, s)
    parse_dotted tok s (faulty messages) = (
      arith_sentinel,
      push_error invalid_target (s.cursor - 1) tok.start
          ("Invalid target '" ∷ tok.raw ∷ "': " ∷ join "; " messages ∷ []) s,
    )

    unfoldable pub parse_target_leaf : Token → ParserState → Parsed R
    unfolding has_dot parse_dotted
    parse_target_leaf tok s =
        if not (has_dot tok.raw)
        then (reference (paths.response_body (key tok.raw ∷ [])), advance s)
        else parse_dotted tok (advance s) (paths.parse_target tok.raw)

    unfoldable pub handle_unbalanced_close : Token → ParserState → Parsed R
    handle_unbalanced_close tok s = (
      arith_sentinel,
      advance (
          push_error unbalanced_close_paren s.cursor tok.start
            ("Unexpected ')' at offset " ∷ decimal tok.start ∷ " — no matching '('" ∷ []) s),
    )

    unfoldable pub disallowed : Token → ParserState → Parsed R
    disallowed tok s = (
      arith_sentinel,
      advance (
          push_error disallowed_token s.cursor tok.start
            ("Disallowed token kind '"
              ∷ kind_text tok.kind
              ∷ "' ('"
              ∷ tok.raw
              ∷ "') in arithmetic expression"
              ∷ [])
            s),
    )

    -- The token after the opening parenthesis: `()` is an error of its own.
    unfoldable pub after_open : GroupParser R → Token → ParserState → TokenKind → Parsed R
    after_open group tok s rparen = (
      arith_sentinel,
      advance (
          advance (
            push_error empty_parens s.cursor tok.start
              ("Empty parentheses '()' — no expression inside" ∷ []) s)),
    )
    after_open group tok s _ = group tok s

    unfoldable pub parse_paren_group : GroupParser R → Token → List Token → ParserState → Parsed R
    unfolding after_open
    parse_paren_group group tok [] s = group tok s
    parse_paren_group group tok (next ∷ _) s = after_open group tok s next.kind

    -- `#parseFactor` on a token of the kind given, the tokens after it and the state.
    unfoldable pub factor_at :
        GroupParser R → Token → List Token → ParserState → TokenKind → Parsed R
    unfolding parse_paren_group handle_unbalanced_close parse_target_leaf disallowed has_dot
    factor_at group tok toks s lparen = parse_paren_group group tok toks s
    factor_at group tok toks s rparen = handle_unbalanced_close tok s
    factor_at group tok toks s (number value) = (literal value, advance s)
    factor_at group tok toks s target = parse_target_leaf tok s
    factor_at group tok toks s identifier =
        if has_dot tok.raw then parse_target_leaf tok s else disallowed tok s
    factor_at group tok toks s _ = disallowed tok s

    unfoldable pub parse_factor_on : GroupParser R → List Token → ParserState → Parsed R
    unfolding factor_at
    parse_factor_on group [] s = (
      arith_sentinel,
      push_error expected_operand s.cursor 0
          ("Expected an operand but reached end of expression" ∷ []) s,
    )
    parse_factor_on group (tok ∷ toks) s = factor_at group tok toks s tok.kind

    abbrev pub parse_factor : GroupParser R → ParserState → Parsed R
    parse_factor group s = parse_factor_on group s.rest s

    abbrev pub parse_term : GroupParser R → ParserState → Parsed R
    parse_term group s = with_operators multiplicative (parse_factor group) s.rest s

    abbrev pub parse_expr : GroupParser R → ParserState → Parsed R
    parse_expr group s = with_operators additive (parse_term group) s.rest s

    unfoldable pub unclosed : Token → ArithmeticExpr R → ParserState → Parsed R
    unclosed tok inner s = (
      inner,
      push_error unbalanced_open_paren (s.cursor - 1) tok.start
          ("Unmatched paren '(' at offset " ∷ decimal tok.start ∷ " — no closing paren ')'" ∷ []) s,
    )

    unfoldable pub close_at : Token → ArithmeticExpr R → ParserState → TokenKind → Parsed R
    unfolding unclosed
    close_at tok inner s rparen = (inner, advance s)
    close_at tok inner s _ = unclosed tok inner s

    unfoldable pub close_group : Token → ArithmeticExpr R → List Token → ParserState → Parsed R
    unfolding unclosed close_at
    close_group tok inner [] s = unclosed tok inner s
    close_group tok inner (close_tok ∷ _) s = close_at tok inner s close_tok.kind

    -- `max_depth` is for the message; with no level left the group is skipped.
    unfoldable pub parse_group : ℕ → ℕ → GroupParser R
    unfolding with_operators parse_factor_on close_group skip_group
    parse_group max_depth zero tok s = (
      arith_sentinel,
      skip_group 0 s.rest (
          push_error depth_exceeded s.cursor tok.start
            ("Parenthesis nesting depth "
              ∷ decimal (suc max_depth)
              ∷ " exceeds maximum "
              ∷ decimal max_depth
              ∷ [])
            s),
    )
    parse_group max_depth (suc left) tok s =
        let inner = parse_expr (parse_group max_depth left) (advance s) in
        close_group tok inner.0 inner.1.rest inner.1

    unfoldable pub trailing : List Token → ParserState → ParserState
    trailing [] s = s
    trailing (tok ∷ _) s =
        push_error trailing_tokens s.cursor tok.start
          ("Unexpected token '" ∷ tok.raw ∷ "' after complete expression" ∷ []) s

    abbrev pub result_of : ArithmeticExpr R → List ArithParseError → ArithParseResult R
    result_of expr [] = ok expr
    result_of expr (e ∷ es) = failed (e ∷ es)

    -- `parse`, with `maxDepth` given.
    unfoldable pub parse_to : ℕ → List Token → ArithParseResult R
    unfolding parse_group trailing with_operators parse_factor_on
    parse_to max_depth [] = failed (
        record {
          code = empty_expression;
          token_index = none;
          offset = 0;
          message = "Empty arithmetic expression — no tokens";
        }
        ∷ [])
    parse_to max_depth (tok ∷ toks) =
        let start : ParserState = record { rest = tok ∷ toks; cursor = 0; errors = [] } in
        let parsed = parse_expr (parse_group max_depth max_depth) start in
        result_of parsed.0 (trailing parsed.1.rest parsed.1).errors

    unfoldable pub parse : List Token → ArithParseResult R
    unfolding parse_to
    parse = parse_to max_arith_depth
