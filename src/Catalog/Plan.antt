-- ===== src/Catalog/Plan.antt =====
-- src/test-catalog/test-plan-generator.ts: the loop over the endpoints and its collaborators. The
-- validator, the generators and the global skip tokens are given, as in the constructor's options.
pub mod Skipping
pub mod Pairs
pub mod Defaults
pub mod Reference
pub mod Keeps
pub mod Counts
pub mod Cases
pub mod Stamps
pub mod Paired
pub mod Generated
pub mod Tests
use apiwright.Prelude.{
  ℕ, zero, suc, ◌+◌, Bool, true, false, not, Option, none, some, List, [], ◌∷◌, ◌++◌, String,
  str_eq, template, join, decimal, get_or, if◌then◌else◌,
}
use apiwright.Catalog.Case.{
  TestCase, GeneratorResult, Attempt, returned, threw, TestCaseGenerator, kind_of, type_text,
}
use apiwright.Catalog.Endpoint.{CanonicalEndpoint}
use apiwright.Catalog.Generators.{no_cases}
use apiwright.Catalog.Plan.Pairs.{by_id, resolve_pairs}
use apiwright.Catalog.Plan.Skipping.{Progress, kinds_fired, apply_skips, emit_global_skip_warnings}
use apiwright.Catalog.Markers.{EndpointMarkers}

-- What `validateEndpoint` returns.
pub record Validation : Type 0 where
  pub valid : Bool
  pub errors : Option (List String)

pub record TestPlan : Type 0 where
  pub cases : List TestCase
  pub endpoints_planned : ℕ
  pub endpoints_skipped : ℕ
  pub warnings : List String

-- `(skip_cases?.length ?? 0) > 0`
abbrev pub declares_skips : Option (List String) → Bool
declares_skips none = false
declares_skips (some []) = false
declares_skips (some (t ∷ ts)) = true

unfoldable pub has_skip_cases : List CanonicalEndpoint → Bool
has_skip_cases [] = false
has_skip_cases (endpoint ∷ endpoints) =
    if declares_skips endpoint.skip_cases then true else has_skip_cases endpoints

unfoldable pub detect_skip_logic : List String → List CanonicalEndpoint → Bool
unfolding has_skip_cases
detect_skip_logic [] endpoints = has_skip_cases endpoints
detect_skip_logic (t ∷ ts) endpoints = true

unfoldable pub invalid_endpoint_warning : CanonicalEndpoint → ℕ → Option (List String) → String
invalid_endpoint_warning endpoint index errors =
    let id =
      if str_eq endpoint.id "" then template ("index " ∷ decimal index ∷ []) else endpoint.id in
    template ("Endpoint '" ∷ id ∷ "' skipped: " ∷ join "; " (get_or errors []) ∷ [])

unfoldable pub unexpected_error_warning : CanonicalEndpoint → String → String
unexpected_error_warning endpoint message =
    template ("Unexpected error in generator for endpoint '" ∷ endpoint.id ∷ "': " ∷ message ∷ [])

-- The body of the loop over the generators, with its `catch`.
unfoldable pub attempt_result : CanonicalEndpoint → Attempt GeneratorResult → GeneratorResult
unfolding unexpected_error_warning
attempt_result endpoint (returned result) = result
attempt_result endpoint (threw message) = record {
  cases = [];
  warnings = unexpected_error_warning endpoint message ∷ [];
}

unfoldable pub generate_raw_cases : List TestCaseGenerator → CanonicalEndpoint → GeneratorResult
unfolding attempt_result
generate_raw_cases [] endpoint = no_cases
generate_raw_cases (gen ∷ generators) endpoint =
    let here = attempt_result endpoint (gen endpoint) in
    let rest = generate_raw_cases generators endpoint in
    record { cases = here.cases ++ rest.cases; warnings = here.warnings ++ rest.warnings }

unfoldable pub happy_path_warnings : CanonicalEndpoint → String → List String → List String
happy_path_warnings endpoint expected_key [] = []
happy_path_warnings endpoint expected_key (key ∷ keys) =
    let rest = happy_path_warnings endpoint expected_key keys in
    if not (str_eq key expected_key)
    then rest
    else template (
        "Endpoint '" ∷ endpoint.id ∷ "': response_variants['" ∷ key ∷ "'] is the happy-path status;"
        ∷ " this variant is never consulted by the runner. Remove or change the key." ∷ [])
      ∷ rest

unfoldable pub response_variant_warnings : CanonicalEndpoint → List String
unfolding happy_path_warnings
response_variant_warnings endpoint = elim endpoint.response_variants [
  | none ↦ []
  | some [] ↦
      template (
        "Endpoint '" ∷ endpoint.id ∷ "': response_variants is empty;"
        ∷ " remove the key or add at least one variant." ∷ [])
      ∷ []
  | some (key ∷ keys) ↦
      happy_path_warnings endpoint (decimal endpoint.response.expected_status) (key ∷ keys)
]

module _ (validate_endpoint : CanonicalEndpoint → Validation) (generators : List TestCaseGenerator)
    (skip_globally : List String) where
  unfoldable pub plan_valid : Bool → CanonicalEndpoint → GeneratorResult → Progress → Progress
  unfolding apply_skips response_variant_warnings
  plan_valid has_skip_logic endpoint raw p =
      let warned = record p {
        planned = suc p.planned;
        warnings = p.warnings ++ (raw.warnings ++ response_variant_warnings endpoint);
      } in
      if not has_skip_logic
      then record warned { cases = p.cases ++ raw.cases }
      else apply_skips skip_globally endpoint raw.cases
          (record warned { kinds = p.kinds ++ kinds_fired raw.cases })

  -- One round of the loop of `generate`, on the endpoint at `i`.
  unfoldable pub plan_endpoint : Bool → ℕ → CanonicalEndpoint → Progress → Progress
  unfolding plan_valid generate_raw_cases invalid_endpoint_warning
  plan_endpoint has_skip_logic i endpoint p =
      let v = validate_endpoint endpoint in
      if not v.valid
      then record p {
        skipped = suc p.skipped;
        warnings = p.warnings ++ invalid_endpoint_warning endpoint i v.errors ∷ [];
      }
      else plan_valid has_skip_logic endpoint (generate_raw_cases generators endpoint) p

  unfoldable pub plan_endpoints : Bool → ℕ → List CanonicalEndpoint → Progress → Progress
  unfolding plan_endpoint
  plan_endpoints has_skip_logic i [] p = p
  plan_endpoints has_skip_logic i (endpoint ∷ endpoints) p =
      plan_endpoints has_skip_logic (suc i) endpoints (plan_endpoint has_skip_logic i endpoint p)

  abbrev pub initial_progress : Progress
  initial_progress = record {
    planned = 0;
    skipped = 0;
    cases = [];
    warnings = [];
    counts = [];
    endpoint_hits = [];
    kinds = [];
  }

  unfoldable pub generate : List CanonicalEndpoint → TestPlan
  unfolding detect_skip_logic plan_endpoints emit_global_skip_warnings resolve_pairs
  generate endpoints =
      let has_skip_logic = detect_skip_logic skip_globally endpoints in
      let p = plan_endpoints has_skip_logic 0 endpoints initial_progress in
      let skip_warnings =
        if has_skip_logic then emit_global_skip_warnings skip_globally p else [] in
      let resolved = resolve_pairs endpoints p.cases in
      record {
        cases = resolved.cases;
        endpoints_planned = p.planned;
        endpoints_skipped = p.skipped;
        warnings = p.warnings ++ (skip_warnings ++ resolved.warnings);
      }

-- The key of an endpoint without an identifier is not set; of two equal keys the later one stays.
unfoldable pub endpoint_markers_of : List CanonicalEndpoint → EndpointMarkers
unfolding by_id
endpoint_markers_of endpoints id = elim (by_id endpoints id) [
  | none ↦ none
  | some endpoint ↦ endpoint.markers
]
