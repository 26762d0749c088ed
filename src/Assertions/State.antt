-- ===== src/Assertions/State.antt =====
-- src/assertions/arithmetic-parser.ts and arithmetic-parser-types.ts: the state of the parser, its
-- errors, and the methods that only look at tokens or pass over them.
use Prim.Native.Char.{code}
use apiwright.Prelude.{
  ℕ, zero, suc, ◌-◌, Bool, false, Option, none, some, List, [], ◌∷◌, ◌++◌, String, template, ◌==◌,
  ◌||◌,
}
use apiwright.Core.PathWalk.{WalkSegment}
use apiwright.Assertions.Tokens.{
  ArithmeticOperator, plus, minus, times, over, operator_text, TokenKind, lparen, rparen, arith_op,
  Token, ArithmeticExpr,
}

pub data ArithParseErrorCode : Type 0 where
  empty_expression unbalanced_open_paren unbalanced_close_paren empty_parens : ArithParseErrorCode
  missing_left_operand missing_right_operand expected_operand : ArithParseErrorCode
  disallowed_token trailing_tokens depth_exceeded invalid_target : ArithParseErrorCode

-- The index is absent where the code gives -1.
pub record ArithParseError : Type 0 where
  pub code : ArithParseErrorCode
  pub token_index : Option ℕ
  pub offset : ℕ
  pub message : String

pub data ArithParseResult (R : Type 0) : Type 0 where
  ok : (expr : ArithmeticExpr R) → ArithParseResult R
  failed : (errors : List ArithParseError) → ArithParseResult R

-- The answer of the target parser: a reference, or the messages of its errors.
pub data TargetParseResult (R : Type 0) : Type 0 where
  found : R → TargetParseResult R
  faulty : List String → TargetParseResult R

-- The target parser, and the reference into the response's body.
pub record TargetPaths (R : Type 0) : Type 0 where
  pub parse_target : String → TargetParseResult R
  pub response_body : List WalkSegment → R

abbrev pub max_arith_depth : ℕ
max_arith_depth = 64

pub record ParserState : Type 0 where
  pub rest : List Token
  pub cursor : ℕ
  pub errors : List ArithParseError

abbrev pub tail : List Token → List Token
tail [] = []
tail (t ∷ ts) = ts

abbrev pub advance : ParserState → ParserState
advance s = record s { rest = tail s.rest; cursor = suc s.cursor }

-- `#pushError`, at a token index and an offset.
abbrev pub push_error : ArithParseErrorCode → ℕ → ℕ → List String → ParserState → ParserState
push_error code index offset pieces s = record s {
  errors =
      s.errors
      ++ record {
        code = code;
        token_index = some index;
        offset = offset;
        message = template pieces;
      }
        ∷ [];
}

-- `raw.includes(".")`
unfoldable pub has_dot : String → Bool
has_dot String.[] = false
has_dot (String.◌∷◌ c s) = code c == 46 || has_dot s

abbrev pub additive : TokenKind → Option ArithmeticOperator
additive (arith_op plus) = some plus
additive (arith_op minus) = some minus
additive _ = none

abbrev pub multiplicative : TokenKind → Option ArithmeticOperator
multiplicative (arith_op times) = some times
multiplicative (arith_op over) = some over
multiplicative _ = none

-- The tests of `#isMissingRight` on the kind of the token after the operator; `none` is `false`.
unfoldable pub missing_before :
    ArithmeticOperator → Token → Token → ParserState → TokenKind → Option ParserState
missing_before op op_tok next s rparen = some (
    push_error missing_right_operand s.cursor next.start
      ("Arithmetic operator '"
        ∷ operator_text op
        ∷ "' has no right operand (closing paren found instead)"
        ∷ [])
      s)
missing_before op op_tok next s (arith_op _) = some (
    push_error missing_right_operand (s.cursor - 1) op_tok.start
      ("Operator '"
        ∷ operator_text op
        ∷ "' has no right operand (followed by '"
        ∷ next.raw
        ∷ "')"
        ∷ [])
      s)
missing_before op op_tok next s _ = none

unfoldable pub missing_right :
    ArithmeticOperator → Token → List Token → ParserState → Option ParserState
unfolding missing_before
missing_right op op_tok [] s = some (
    push_error missing_right_operand (s.cursor - 1) op_tok.start
      ("Operator '" ∷ operator_text op ∷ "' has no right operand" ∷ []) s)
missing_right op op_tok (next ∷ _) s = missing_before op op_tok next s next.kind

-- `groupDepth` after a token; `none` where the loop of `#skipBalancedGroup` breaks.
abbrev pub depth_after : TokenKind → ℕ → Option ℕ
depth_after lparen d = some (suc d)
depth_after rparen zero = none
depth_after rparen (suc d) = some d
depth_after _ d = some d

-- `#skipBalancedGroup`, on the tokens left.
unfoldable pub skip_group : ℕ → List Token → ParserState → ParserState
skip_group group_depth [] s = s
skip_group group_depth (tok ∷ toks) s = elim (depth_after tok.kind group_depth) [
  | none ↦ advance s
  | some d ↦ skip_group d toks (advance s)
]

-- What a parsing method returns, with the state it leaves.
abbrev pub Parsed : Type 0 → Type 0
Parsed R = ArithmeticExpr R × ParserState

-- What the operators need of the rest of the parser: a group after its opening parenthesis.
abbrev pub GroupParser : Type 0 → Type 0
GroupParser R = Token → ParserState → Parsed R
