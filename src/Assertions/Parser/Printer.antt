-- ===== src/Assertions/Parser/Printer.antt =====
-- Arithmetic expressions written as tokens, with parentheses only where the grammar of
-- src/assertions/arithmetic-parser.ts needs them.
use apiwright.Prelude.{
  ℕ, suc, ◌+◌, ◌≡◌, refl, Bool, true, false, List, [], ◌∷◌, ◌++◌, String, ltb, if◌then◌else◌, none,
}
use Prim.Native.Nat.{max}
use apiwright.Assertions.State.{
  ParserState, TargetPaths, found, has_dot, additive, multiplicative, missing_before,
}
use apiwright.Assertions.Tokens.{
  ArithmeticOperator, plus, minus, times, over, operator_text, TokenKind, target, lparen, rparen,
  number, arith_op, Token, ArithmeticExpr, literal, reference, binary,
}

-- 0 for a sum, 1 for a product, 2 for an operand.
abbrev pub level : ArithmeticOperator → ℕ
level plus = 0
level minus = 0
level times = 1
level over = 1

abbrev pub token : TokenKind → String → Token
token kind raw = record { kind = kind; start = 0; raw = raw }

abbrev pub in_parens : List Token → List Token
in_parens ts = token lparen "(" ∷ (ts ++ token rparen ")" ∷ [])

abbrev pub operator_token : ArithmeticOperator → Token
operator_token op = token (arith_op op) (operator_text op)

module _ {R : Type 0} (text : R → String) where
  unfoldable pub print : ℕ → ArithmeticExpr R → List Token
  print lvl (literal v) = token (number v) "" ∷ []
  print lvl (reference r) = token target (text r) ∷ []
  print lvl (binary op l r) =
      let body = print (level op) l ++ (operator_token op ∷ print (suc (level op)) r) in
      if ltb (level op) lvl then in_parens body else body

  -- How deep the printed parentheses are nested.
  unfoldable pub nesting : ℕ → ArithmeticExpr R → ℕ
  nesting lvl (literal v) = 0
  nesting lvl (reference r) = 0
  nesting lvl (binary op l r) =
      (if ltb (level op) lvl then 1 else 0)
      + max (nesting (level op) l) (nesting (suc (level op)) r)

  -- Every reference is read back from its text, which holds a dot.
  abbrev pub IsReadable : TargetPaths R → ArithmeticExpr R → Type 0
  IsReadable paths (literal v) = Unit
  IsReadable paths (reference r) =
      (has_dot (text r) ≡ true) × (paths.parse_target (text r) ≡ found r)
  IsReadable paths (binary op l r) = IsReadable paths l × IsReadable paths r

-- The kinds with which an operand begins.
abbrev pub OperandKind : TokenKind → Type 0
OperandKind (number v) = Unit
OperandKind target = Unit
OperandKind lparen = Unit
OperandKind _ = ⊥

pub OperandKind-no_operator :
    (k : TokenKind) → OperandKind k → (additive k ≡ none) × (multiplicative k ≡ none)
OperandKind-no_operator (number v) h = (refl, refl)
OperandKind-no_operator target h = (refl, refl)
OperandKind-no_operator lparen h = (refl, refl)
OperandKind-no_operator _ h = elim h [ ]

pub OperandKind-missing_before :
    (op : ArithmeticOperator) (t n : Token) (s : ParserState) (k : TokenKind)
    → OperandKind k
    → missing_before op t n s k ≡ none
unfolding missing_before
OperandKind-missing_before op t n s (number v) h = refl
OperandKind-missing_before op t n s target h = refl
OperandKind-missing_before op t n s lparen h = refl
OperandKind-missing_before op t n s _ h = elim h [ ]

-- The tokens begin with an operand.
abbrev pub BeginsOperand : List Token → Type 0
BeginsOperand [] = ⊥
BeginsOperand (t ∷ ts) = OperandKind t.kind

pub BeginsOperand-append : (ts us : List Token) → BeginsOperand ts → BeginsOperand (ts ++ us)
BeginsOperand-append [] us h = elim h [ ]
BeginsOperand-append (t ∷ ts) us h = h

in_parens-BeginsOperand :
    (b : Bool) (ts us : List Token)
    → BeginsOperand ts
    → BeginsOperand (if b then in_parens (ts ++ us) else ts ++ us)
in_parens-BeginsOperand true ts us h = tt
in_parens-BeginsOperand false ts us h = BeginsOperand-append ts us h

pub print-BeginsOperand :
    {R : Type 0} (text : R → String) (lvl : ℕ) (e : ArithmeticExpr R)
    → BeginsOperand (print text lvl e)
unfolding print
print-BeginsOperand text lvl (literal v) = tt
print-BeginsOperand text lvl (reference r) = tt
print-BeginsOperand text lvl (binary op l r) =
    in_parens-BeginsOperand (ltb (level op) lvl) (print text (level op) l)
      (operator_token op ∷ print text (suc (level op)) r) (print-BeginsOperand text (level op) l)
