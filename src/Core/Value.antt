-- ===== src/Core/Value.antt =====
-- The runtime values that src/core works on. An array or an object is a reference into a heap, so
-- that sharing and cycles are there; a number is the 64 bits of its IEEE double; a bigint, a symbol
-- or a function is told apart by a number. An object is the list of its own enumerable string
-- properties, each key once.
use apiwright.Prelude.{
  ℕ, ◌%◌, ◌^◌, Bool, true, false, not, Option, none, some, List, [], ◌∷◌, String, str_eq, ltb, ◌==◌,
  ◌&&◌, ◌||◌, if◌then◌else◌,
}

pub data OpaqueKind : Type 0 where
  bigint symbol function : OpaqueKind

pub data Value : Type 0 where
  undefined null : Value
  boolean : Bool → Value
  number : ℕ → Value
  string : String → Value
  opaque : OpaqueKind → ℕ → Value
  reference : ℕ → Value

pub data Cell : Type 0 where
  array : List Value → Cell
  object : List (String × Value) → Cell

abbrev pub Heap : Type 0
Heap = ℕ → Cell

-- The exponent is all ones and the fraction is not zero.
abbrev pub is_nan : ℕ → Bool
is_nan bits = ltb 0x7ff0_0000_0000_0000 (bits % 2 ^ 63)

-- +0 and -0.
abbrev pub is_zero : ℕ → Bool
is_zero bits = bits % 2 ^ 63 == 0

unfoldable pub numbers_equal : ℕ → ℕ → Bool
numbers_equal a b = not (is_nan a) && not (is_nan b) && (a == b || (is_zero a && is_zero b))

abbrev pub same_opaque : OpaqueKind → OpaqueKind → Bool
same_opaque bigint bigint = true
same_opaque symbol symbol = true
same_opaque function function = true
same_opaque _ _ = false

abbrev pub same_boolean : Bool → Bool → Bool
same_boolean true b = b
same_boolean false b = not b

-- `x === y`
unfoldable pub strict_equals : Value → Value → Bool
unfolding numbers_equal
strict_equals undefined undefined = true
strict_equals null null = true
strict_equals (boolean a) (boolean b) = same_boolean a b
strict_equals (number a) (number b) = numbers_equal a b
strict_equals (string a) (string b) = str_eq a b
strict_equals (opaque k a) (opaque l b) = same_opaque k l && a == b
strict_equals (reference i) (reference j) = i == j
strict_equals _ _ = false

-- An own property, by its key.
unfoldable pub get_property : String → List (String × Value) → Option Value
get_property k [] = none
get_property k ((j, v) ∷ rest) = if str_eq j k then some v else get_property k rest
