-- ===== src/Catalog/Skips.antt =====
-- src/test-catalog/skip-resolver.ts. A set of kinds is its characteristic function.
pub mod Tokens
mod Tests
use Prim.Native.Char.{Char, code}
use Prim.Native.String
use apiwright.Prelude.{
  ℕ, zero, suc, ◌+◌, Bool, true, false, not, Option, none, some, List, [], ◌∷◌, ◌++◌, String,
  str_eq, template, any, is_some, leb, ltb, ◌==◌, ◌&&◌, ◌||◌, if◌then◌else◌,
}
use apiwright.Catalog.Case.{
  TestCase, TestCaseParams, kind_of, type_text, probe_text, required_field_omission_params,
  type_violation_params, boundary_params, pagination_boundary_params,
}
use apiwright.Catalog.Markers.{
  GeneratedTestType, status_code_conformance, content_type_alignment, response_time_sla,
  response_schema_validation, auth_happy_path, no_auth_returns_401, garbage_token_returns_401,
  method_not_allowed, malformed_json_returns_400, required_field_omission_returns_400,
  type_violation_returns_400, boundary_battery, get_idempotency, delete_idempotency,
  put_idempotency, head_get_parity, conditional_get_304, pagination_boundary,
  db_state_matches_expectation, assertion, cors_preflight,
}

abbrev pub all_skippable_kinds : List GeneratedTestType
all_skippable_kinds =
    status_code_conformance ∷ content_type_alignment ∷ response_time_sla
    ∷ response_schema_validation ∷ auth_happy_path ∷ no_auth_returns_401 ∷ garbage_token_returns_401
    ∷ method_not_allowed ∷ malformed_json_returns_400 ∷ required_field_omission_returns_400
    ∷ type_violation_returns_400 ∷ boundary_battery ∷ get_idempotency ∷ delete_idempotency
    ∷ put_idempotency ∷ head_get_parity ∷ conditional_get_304 ∷ pagination_boundary
    ∷ db_state_matches_expectation ∷ assertion ∷ cors_preflight ∷ []

unfoldable pub is_skippable_kind : String → Bool
is_skippable_kind kind = any (λ t. str_eq (type_text t) kind) all_skippable_kinds

pub data MalformedReason : Type 0 where
  empty leading_colon trailing_colon multiple_colons : MalformedReason

abbrev pub reason_text : MalformedReason → String
reason_text empty = "empty"
reason_text leading_colon = "leading_colon"
reason_text trailing_colon = "trailing_colon"
reason_text multiple_colons = "multiple_colons"

pub data ParseResult : Type 0 where
  parsed : (kind : String) (field : Option String) → ParseResult
  malformed : (reason : MalformedReason) → ParseResult

-- What `trim` takes off.
unfoldable pub is_white_space : ℕ → Bool
is_white_space c =
    (leb 9 c && leb c 13)
    || c == 0x20
    || c == 0xa0
    || c == 0x1680
    || (leb 0x2000 c && leb c 0x200a)
    || c == 0x2028
    || c == 0x2029
    || c == 0x202f
    || c == 0x205f
    || c == 0x3000
    || c == 0xfeff

-- `token.trim() === ""`
unfoldable pub is_blank : String → Bool
unfolding is_white_space
is_blank String.[] = true
is_blank (String.◌∷◌ c s) = is_white_space (code c) && is_blank s

abbrev pub is_colon : Char → Bool
is_colon c = code c == 58

unfoldable pub count_colons : String → ℕ
count_colons String.[] = 0
count_colons (String.◌∷◌ c s) = (if is_colon c then 1 else 0) + count_colons s

-- `token.startsWith(":")` and `token.endsWith(":")`
unfoldable pub starts_with_colon : String → Bool
starts_with_colon String.[] = false
starts_with_colon (String.◌∷◌ c s) = is_colon c

unfoldable pub ends_with_colon : String → Bool
ends_with_colon String.[] = false
ends_with_colon (String.◌∷◌ c String.[]) = is_colon c
ends_with_colon (String.◌∷◌ c (String.◌∷◌ d s)) = ends_with_colon (String.◌∷◌ d s)

-- `token.slice(0, colonIdx)` and `token.slice(colonIdx + 1)`
unfoldable pub before_colon : String → String
before_colon String.[] = ""
before_colon (String.◌∷◌ c s) = if is_colon c then "" else String.◌∷◌ c (before_colon s)

unfoldable pub after_colon : String → String
after_colon String.[] = ""
after_colon (String.◌∷◌ c s) = if is_colon c then s else after_colon s

unfoldable pub parse_skip_token : String → ParseResult
unfolding is_blank count_colons starts_with_colon ends_with_colon before_colon after_colon
parse_skip_token token =
    if is_blank token
    then malformed empty
    else if ltb 1 (count_colons token)
    then malformed multiple_colons
    else if count_colons token == 0
    then parsed token none
    else if starts_with_colon token
    then malformed leading_colon
    else if ends_with_colon token
    then malformed trailing_colon
    else parsed (before_colon token) (some (after_colon token))

unfoldable pub extract_field : TestCaseParams → Option String
extract_field (required_field_omission_params omitted_field _) = some omitted_field
extract_field (type_violation_params path _ _ _) = some path
extract_field (boundary_params path _ _ _ _) = some path
extract_field (pagination_boundary_params _ _ _ _ _ probe _) = some (probe_text probe)
extract_field _ = none

-- `extractFieldFromCase(tc) === parsed.field`
abbrev pub same_field : Option String → String → Bool
same_field none field = false
same_field (some carried) field = str_eq carried field

unfoldable pub matches_parsed : TestCaseParams → ParseResult → Bool
unfolding extract_field
matches_parsed params (malformed _) = false
matches_parsed params (parsed kind none) = str_eq kind (type_text (kind_of params))
matches_parsed params (parsed kind (some field)) =
    if not (str_eq kind (type_text (kind_of params)))
    then false
    else same_field (extract_field params) field

unfoldable pub matches_token : TestCase → String → Bool
unfolding matches_parsed parse_skip_token
matches_token c token = matches_parsed c.params (parse_skip_token token)

-- One of the two loops of `matchSkip`.
unfoldable pub first_match : TestCase → List String → Option String
unfolding matches_token
first_match c [] = none
first_match c (token ∷ tokens) = if matches_token c token then some token else first_match c tokens

unfoldable pub match_skip : TestCase → List String → List String → Option String
unfolding first_match
match_skip c endpoint_skips global_skips = elim (first_match c endpoint_skips) [
  | some token ↦ some token
  | none ↦ first_match c global_skips
]

unfoldable pub should_skip : TestCase → List String → List String → Bool
unfolding match_skip
should_skip c endpoint_skips global_skips = is_some (match_skip c endpoint_skips global_skips)

pub record SkipValidationResult : Type 0 where
  pub recognized : List String
  pub unrecognized : List String
  pub warnings : List String

unfoldable pub malformed_warning : String → String → MalformedReason → String
malformed_warning scope token reason =
    template
      (scope ∷ ": malformed skip token '" ∷ token ∷ "' (" ∷ reason_text reason ∷ "); ignored." ∷ [])

unfoldable pub unknown_kind_warning : String → String → String → String
unknown_kind_warning scope kind token =
    template (scope ∷ ": unknown skip kind '" ∷ kind ∷ "' in token '" ∷ token ∷ "'; ignored." ∷ [])

-- One round of the loop of `validateSkipTokens`.
unfoldable pub validate_token :
    (String → Bool) → String → SkipValidationResult → String → ParseResult → SkipValidationResult
unfolding malformed_warning unknown_kind_warning
validate_token known scope result token (malformed reason) = record result {
  unrecognized = result.unrecognized ++ token ∷ [];
  warnings = result.warnings ++ malformed_warning scope token reason ∷ [];
}
validate_token known scope result token (parsed kind _) =
    if not (known kind)
    then record result {
      unrecognized = result.unrecognized ++ token ∷ [];
      warnings = result.warnings ++ unknown_kind_warning scope kind token ∷ [];
    }
    else record result { recognized = result.recognized ++ token ∷ [] }

unfoldable pub validate_from :
    (String → Bool) → String → SkipValidationResult → List String → SkipValidationResult
unfolding validate_token parse_skip_token
validate_from known scope result [] = result
validate_from known scope result (token ∷ tokens) =
    validate_from known scope (validate_token known scope result token (parse_skip_token token))
      tokens

unfoldable pub validate_skip_tokens : List String → (String → Bool) → String → SkipValidationResult
unfolding validate_from
validate_skip_tokens tokens known scope =
    validate_from known scope (record { recognized = []; unrecognized = []; warnings = [] }) tokens
