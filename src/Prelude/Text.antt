-- ===== src/Prelude/Text.antt =====
-- Texts of the JavaScript runtime: template literals and decimal numbers.
use Prim.Native.Nat.{ℕ, zero, suc, ◌/◌, ◌%◌}
use Prim.Native.String
use Prim.Native.String.{String}
use mathlib.Core.List.{List, [], ◌∷◌}
use apiwright.Prelude.Tests.{ltb, ◌==◌, if◌then◌else◌}

-- The text of a template literal, piece by piece.
abbrev pub template : List String → String
template [] = ""
template (s ∷ rest) = String.◌++◌ s (template rest)

-- `array.join(separator)`
abbrev pub join : String → List String → String
join separator [] = ""
join separator (s ∷ []) = s
join separator (s ∷ t ∷ rest) = template (s ∷ separator ∷ join separator (t ∷ rest) ∷ [])

digit : ℕ → String
digit d =
    if d == 0
    then "0"
    else if d == 1
    then "1"
    else if d == 2
    then "2"
    else if d == 3
    then "3"
    else if d == 4
    then "4"
    else if d == 5
    then "5"
    else if d == 6
    then "6"
    else if d == 7
    then "7"
    else if d == 8
    then "8"
    else "9"

-- The digits of `n` before `tail`; fuel above `n` is enough, since `n / 10` falls.
decimal_from : ℕ → ℕ → String → String
unfolding digit
decimal_from zero n tail = tail
decimal_from (suc fuel) n tail =
    let text = template (digit (n % 10) ∷ tail ∷ []) in
    let longer = decimal_from fuel (n / 10) text in if ltb n 10 then text else longer

-- `String(n)` of a natural number
unfoldable pub decimal : ℕ → String
unfolding decimal_from
decimal n = decimal_from (suc n) n ""
