-- ===== src/Catalog/CaseId.antt =====
-- src/test-catalog/test-case-id.ts. Of the characters outside ASCII only the Kelvin sign and the
-- dotted capital I have a lower case that begins with an ASCII letter; what follows that letter, and
-- every other character outside ASCII, is in the class that a hyphen replaces.
pub mod Allowed
use Prim.Native.Char.{Char, code}
use Prim.Native.String
use apiwright.Prelude.{
  ℕ, Bool, true, false, List, [], ◌∷◌, ◌++◌, String, ◌+◌, leb, ◌==◌, ◌&&◌, ◌||◌, if◌then◌else◌,
  template, decimal,
}

-- The code points of a text.
abbrev pub codes : String → List ℕ
codes String.[] = []
codes (String.◌∷◌ c s) = code c ∷ codes s

-- `toLowerCase`, on one code point.
unfoldable pub to_lower : ℕ → List ℕ
to_lower c =
    if leb 65 c && leb c 90
    then (c + 32) ∷ []
    else if c == 0x212a
    then 107 ∷ []
    else if c == 0x130
    then 105 ∷ 0x307 ∷ []
    else c ∷ []

unfoldable pub lower_all : List ℕ → List ℕ
unfolding to_lower
lower_all [] = []
lower_all (c ∷ cs) = to_lower c ++ lower_all cs

-- `[a-z0-9._-]`
unfoldable pub is_allowed : ℕ → Bool
is_allowed c = (leb 97 c && leb c 122) || (leb 48 c && leb c 57) || c == 46 || c == 95 || c == 45

-- `replace(/_/g, "-")`
unfoldable pub replace_underscores : List ℕ → List ℕ
replace_underscores [] = []
replace_underscores (c ∷ cs) = (if c == 95 then 45 else c) ∷ replace_underscores cs

-- `replace(/[^a-z0-9._-]+/g, "-")`; the flag says that the character before was replaced.
unfoldable pub replace_runs : Bool → List ℕ → List ℕ
unfolding is_allowed
replace_runs inside [] = []
replace_runs inside (c ∷ cs) =
    let kept = c ∷ replace_runs false cs in
    let run = replace_runs true cs in
    if is_allowed c then kept else if inside then run else 45 ∷ run

unfoldable pub normalize : List ℕ → List ℕ
unfolding lower_all replace_underscores replace_runs
normalize cs = replace_runs false (replace_underscores (lower_all cs))

-- The text of the identifier, as code points.
unfoldable pub make_test_case_id : String → String → ℕ → List ℕ
unfolding normalize
make_test_case_id endpoint_id type ordinal =
    normalize (codes (template (endpoint_id ∷ "." ∷ type ∷ "." ∷ decimal ordinal ∷ [])))
