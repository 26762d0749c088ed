-- ===== src/Catalog/Plan/Skipping.antt =====
-- src/test-catalog/test-plan-generator.ts: skip tokens applied to an endpoint's cases, with the
-- warnings and the statistics that go with them.
use apiwright.Prelude.{
  ℕ, ◌+◌, Bool, true, false, not, none, some, List, [], ◌∷◌, ◌++◌, String, str_eq, template,
  decimal, any, length, is_some, get_or, ◌&&◌, ◌||◌, if◌then◌else◌,
}
use apiwright.Prelude.Maps.{map_get, map_set}
use apiwright.Catalog.Case.{TestCase, kind_of, type_text}
use apiwright.Catalog.Endpoint.{CanonicalEndpoint}
use apiwright.Catalog.Skips.{is_skippable_kind, match_skip, validate_skip_tokens}

-- What the loop of `generate` keeps; the statistics of global tokens are two maps.
pub record Progress : Type 0 where
  pub planned : ℕ
  pub skipped : ℕ
  pub cases : List TestCase
  pub warnings : List String
  pub counts : List (String × ℕ)
  pub endpoint_hits : List (String × List String)
  pub kinds : List String

abbrev pub warn : Progress → List String → Progress
warn p ws = record p { warnings = p.warnings ++ ws }

-- `includes` of an array or `has` of a set of texts.
abbrev pub includes : List String → String → Bool
includes xs x = any (λ y. str_eq y x) xs

-- `set.add(x)`
abbrev pub set_add : String → List String → List String
set_add x xs = if includes xs x then xs else xs ++ x ∷ []

abbrev pub is_non_empty : List String → Bool
is_non_empty [] = false
is_non_empty (x ∷ xs) = true

-- `extractEndpointSkips`
abbrev pub endpoint_skips_of : CanonicalEndpoint → List String
endpoint_skips_of endpoint = get_or endpoint.skip_cases []

unfoldable pub is_known_token : String → Bool
unfolding validate_skip_tokens
is_known_token token =
    is_non_empty (validate_skip_tokens (token ∷ []) is_skippable_kind "").recognized

abbrev pub known_kinds : List String → String → Bool
known_kinds fired kind = includes fired kind || is_skippable_kind kind

abbrev pub kinds_fired : List TestCase → List String
kinds_fired [] = []
kinds_fired (c ∷ cases) = type_text (kind_of c.params) ∷ kinds_fired cases

pub record SkipPass : Type 0 where
  pub token_hits : List (String × ℕ)
  pub kept : List TestCase

-- One round of the loop of `#applySkipsForEndpoint`.
unfoldable pub scan_case : List String → List String → TestCase → SkipPass → SkipPass
unfolding match_skip
scan_case endpoint_skips global_skips c pass = elim (match_skip c endpoint_skips global_skips) [
  | some hit ↦ record pass {
    token_hits = map_set hit (get_or (map_get hit pass.token_hits) 0 + 1) pass.token_hits;
  }
  | none ↦ record pass { kept = pass.kept ++ c ∷ [] }
]

unfoldable pub scan_cases : List String → List String → List TestCase → SkipPass → SkipPass
unfolding scan_case
scan_cases endpoint_skips global_skips [] pass = pass
scan_cases endpoint_skips global_skips (c ∷ cases) pass =
    scan_cases endpoint_skips global_skips cases (scan_case endpoint_skips global_skips c pass)

unfoldable pub counted_warning : CanonicalEndpoint → String → ℕ → String
counted_warning endpoint token count = template (
    "Endpoint '"
    ∷ endpoint.id
    ∷ "': skip_cases token '"
    ∷ token
    ∷ "' skipped "
    ∷ decimal count
    ∷ " case(s)."
    ∷ [])

unfoldable pub dead_weight_warning : CanonicalEndpoint → String → String
dead_weight_warning endpoint token = template (
    "Endpoint '" ∷ endpoint.id ∷ "': skip_cases token '" ∷ token ∷ "' matched zero"
    ∷ " generated cases on this endpoint." ∷ [])

-- One round of the loop over the hits: a token of the endpoint warns, a global one is counted.
unfoldable pub count_hit : CanonicalEndpoint → List String → String → ℕ → Progress → Progress
unfolding counted_warning
count_hit endpoint endpoint_skips token count p =
    if includes endpoint_skips token
    then warn p (counted_warning endpoint token count ∷ [])
    else record p {
      counts = map_set token (get_or (map_get token p.counts) 0 + count) p.counts;
      endpoint_hits =
          map_set token (set_add endpoint.id (get_or (map_get token p.endpoint_hits) []))
            p.endpoint_hits;
    }

unfoldable pub count_hits :
    CanonicalEndpoint → List String → List (String × ℕ) → Progress → Progress
unfolding count_hit
count_hits endpoint endpoint_skips [] p = p
count_hits endpoint endpoint_skips ((token, count) ∷ hits) p =
    count_hits endpoint endpoint_skips hits (count_hit endpoint endpoint_skips token count p)

-- Tokens of known kind that matched nothing, with the warning for each.
unfoldable pub dead_weight : (String → String) → (String → Bool) → List String → List String
unfolding is_known_token
dead_weight warning was_hit [] = []
dead_weight warning was_hit (token ∷ tokens) =
    let rest = dead_weight warning was_hit tokens in
    if not (was_hit token) && is_known_token token then warning token ∷ rest else rest

unfoldable pub emit_endpoint_skip_warnings :
    CanonicalEndpoint → List String → List (String × ℕ) → Progress → Progress
unfolding count_hits dead_weight dead_weight_warning
emit_endpoint_skip_warnings endpoint endpoint_skips token_hits p =
    warn (count_hits endpoint endpoint_skips token_hits p) (
      dead_weight (dead_weight_warning endpoint) (λ t. is_some (map_get t token_hits))
        endpoint_skips)

-- The warnings of `validateSkipTokens` on the endpoint's own tokens; none where it has no tokens.
unfoldable pub token_warnings : CanonicalEndpoint → List String → List String
unfolding validate_skip_tokens
token_warnings endpoint fired =
    (validate_skip_tokens (endpoint_skips_of endpoint) (known_kinds fired)
      (template ("Endpoint '" ∷ endpoint.id ∷ "'" ∷ []))).warnings

-- `#applySkipsForEndpoint`, and the loop that pushes what it keeps.
unfoldable pub apply_skips : List String → CanonicalEndpoint → List TestCase → Progress → Progress
unfolding scan_cases emit_endpoint_skip_warnings token_warnings
apply_skips global_skips endpoint endpoint_cases p =
    let endpoint_skips = endpoint_skips_of endpoint in
    let pass =
      scan_cases endpoint_skips global_skips endpoint_cases
        (record { token_hits = []; kept = [] }) in
    let emitted =
      emit_endpoint_skip_warnings endpoint endpoint_skips pass.token_hits
        (warn p (token_warnings endpoint (kinds_fired endpoint_cases))) in
    record emitted { cases = emitted.cases ++ pass.kept }

unfoldable pub global_counted_warnings :
    List (String × List String) → List (String × ℕ) → List String
global_counted_warnings endpoint_hits [] = []
global_counted_warnings endpoint_hits ((token, total) ∷ counts) =
    template (
      "config.case_generation: skip_globally token '"
      ∷ token
      ∷ "' skipped "
      ∷ decimal total
      ∷ " case(s) across "
      ∷ decimal (length (get_or (map_get token endpoint_hits) []))
      ∷ " endpoint(s)."
      ∷ [])
    ∷ global_counted_warnings endpoint_hits counts

unfoldable pub global_dead_weight_warning : String → String
global_dead_weight_warning token = template (
    "config.case_generation: skip_globally token '" ∷ token ∷ "' matched zero"
    ∷ " generated cases across the plan." ∷ [])

-- What `#emitGlobalSkipWarnings` adds to the warnings; nothing without global tokens.
unfoldable pub emit_global_skip_warnings : List String → Progress → List String
unfolding global_counted_warnings global_dead_weight_warning dead_weight validate_skip_tokens
emit_global_skip_warnings [] p = []
emit_global_skip_warnings (t ∷ ts) p =
    (validate_skip_tokens (t ∷ ts) (known_kinds p.kinds) "config.case_generation").warnings
    ++ (global_counted_warnings p.endpoint_hits p.counts
        ++ dead_weight global_dead_weight_warning (λ u. is_some (map_get u p.counts)) (t ∷ ts))
