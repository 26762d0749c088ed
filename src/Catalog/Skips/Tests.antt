-- ===== src/Catalog/Skips/Tests.antt =====
-- Skip tokens, well-formed and malformed, on concrete texts.
use apiwright.Prelude.{◌≡◌, ◌≢◌, refl, some, String, arith, eq_iff}
use apiwright.Catalog.Skips.{
  parse_skip_token, parsed, malformed, multiple_colons, leading_colon, trailing_colon, empty,
  count_colons,
}
use apiwright.Catalog.Skips.Tokens.{print_skip_token, parse-print_skip_token}

malformed_tokens :
    (parse_skip_token " " ≡ malformed empty)
    × (parse_skip_token ":field" ≡ malformed leading_colon)
    × (parse_skip_token "kind:" ≡ malformed trailing_colon)
    × (parse_skip_token "a:b:c" ≡ malformed multiple_colons)
unfolding parse_skip_token
malformed_tokens = (refl, refl, refl, refl)

no_colons : (count_colons "boundary_battery" ≡ 0) × (count_colons "user.name" ≡ 0)
unfolding count_colons
no_colons = (refl, refl)

not_empty : (◌≢◌ {A = String} "boundary_battery" "") × (◌≢◌ {A = String} "user.name" "")
not_empty = (ground (arith, eq_iff "boundary_battery" ""), ground (arith, eq_iff "user.name" ""))

parse-print_skip_token_example :
    parse_skip_token (print_skip_token "boundary_battery" (some "user.name"))
    ≡ parsed "boundary_battery" (some "user.name")
parse-print_skip_token_example =
    parse-print_skip_token "boundary_battery" (some "user.name")
      (no_colons.0, not_empty.0, no_colons.1, not_empty.1)
