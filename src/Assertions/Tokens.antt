-- ===== src/Assertions/Tokens.antt =====
-- src/assertions/token-types.ts and the arithmetic part of ast.ts. A number is the 64 bits of its
-- double. The reference to a target is a parameter.
use apiwright.Prelude.{ℕ, Bool, String}

pub data ArithmeticOperator : Type 0 where
  plus minus times over : ArithmeticOperator

abbrev pub operator_text : ArithmeticOperator → String
operator_text plus = "+"
operator_text minus = "-"
operator_text times = "*"
operator_text over = "/"

-- The kind of a token with what the kind carries.
pub data TokenKind : Type 0 where
  target identifier null lparen rparen range_sep eof : TokenKind
  string : (value : String) → TokenKind
  number : (value : ℕ) → TokenKind
  boolean : (value : Bool) → TokenKind
  regex : (source flags : String) → TokenKind
  arith_op : (op : ArithmeticOperator) → TokenKind

abbrev pub kind_text : TokenKind → String
kind_text target = "target"
kind_text identifier = "identifier"
kind_text null = "null"
kind_text lparen = "lparen"
kind_text rparen = "rparen"
kind_text range_sep = "range_sep"
kind_text eof = "eof"
kind_text (string _) = "string"
kind_text (number _) = "number"
kind_text (boolean _) = "boolean"
kind_text (regex _ _) = "regex"
kind_text (arith_op _) = "arith_op"

-- `start` is `span.start`.
pub record Token : Type 0 where
  pub kind : TokenKind
  pub start : ℕ
  pub raw : String

pub data ArithmeticExpr (R : Type 0) : Type 0 where
  literal : (value : ℕ) → ArithmeticExpr R
  reference : (ref : R) → ArithmeticExpr R
  binary : (op : ArithmeticOperator) (left right : ArithmeticExpr R) → ArithmeticExpr R
