-- ===== src/Catalog/Generators/Declared.antt =====
-- src/test-catalog/generators/cors-preflight-generator.ts, pagination-boundary-generator.ts,
-- db-verify-generator.ts and src/test-catalog/assertion-binder.ts: cases from what an endpoint
-- declares. A title cuts an assertion after eighty characters; the model counts code points.
use apiwright.Prelude.{
  ℕ, zero, suc, Bool, true, false, not, Option, none, some, List, [], ◌∷◌, ◌++◌, String, str_eq,
  template, decimal, ltb, get_or, ◌||◌, if◌then◌else◌,
}
use apiwright.Catalog.Case.{
  TestCase, GeneratorResult, PaginationProbe, size_zero, size_max, size_max_plus_one, page_negative,
  probe_text, cors_preflight_params, pagination_boundary_params, db_state_params, assertion_params,
}
use apiwright.Catalog.Endpoint.{
  CanonicalEndpoint, CorsConfig, PaginationStyle, PaginationConfig, DbVerification,
}
use apiwright.Catalog.Generators.{
  build_case, method_prod_safe, endpoint_prod_safe, title_for, no_cases,
}
use apiwright.Catalog.Markers.{
  HttpMethod, marker_for, cors_preflight, pagination_boundary, db_state_matches_expectation,
  assertion,
}

abbrev pub warned : String → GeneratorResult
warned warning = record { cases = []; warnings = warning ∷ [] }

unfoldable pub cors_warning : String → CanonicalEndpoint → String
cors_warning which endpoint =
    template (
      "Endpoint '" ∷ endpoint.id ∷ "': cors_preflight — " ∷ which ∷ " is empty; case dropped." ∷ [])

unfoldable pub cors_case : CanonicalEndpoint → CorsConfig → TestCase
unfolding build_case endpoint_prod_safe marker_for
cors_case endpoint cors =
    build_case endpoint cors_preflight (marker_for cors_preflight)
      (endpoint_prod_safe cors_preflight endpoint) 0 (title_for "CORS preflight" endpoint)
      (cors_preflight_params cors.allow_origins cors.allow_methods cors.allow_headers)

unfoldable pub cors_with :
    CanonicalEndpoint → CorsConfig → List String → List String → GeneratorResult
unfolding cors_warning cors_case
cors_with endpoint cors [] methods = warned (cors_warning "allow_origins" endpoint)
cors_with endpoint cors (o ∷ origins) [] = warned (cors_warning "allow_methods" endpoint)
cors_with endpoint cors (o ∷ origins) (m ∷ methods) = record {
  cases = cors_case endpoint cors ∷ [];
  warnings = [];
}

unfoldable pub cors_for : HttpMethod → Option CorsConfig → CanonicalEndpoint → GeneratorResult
unfolding cors_with
cors_for HttpMethod.options (some cors) endpoint =
    cors_with endpoint cors cors.allow_origins cors.allow_methods
cors_for _ _ endpoint = no_cases

unfoldable pub cors_preflight_generator : CanonicalEndpoint → GeneratorResult
unfolding cors_for
cors_preflight_generator endpoint = cors_for endpoint.method endpoint.cors endpoint

abbrev pub size_probes : List PaginationProbe
size_probes = size_zero ∷ size_max ∷ size_max_plus_one ∷ []

-- `#buildProbeList`: the probes, and whether the `page_param` is missing.
unfoldable pub probe_list : PaginationStyle → Option String → List PaginationProbe × Bool
probe_list PaginationStyle.cursor page_param = (size_zero ∷ size_max ∷ [], false)
probe_list PaginationStyle.offset page_param = (size_probes, false)
probe_list PaginationStyle.page none = (size_probes, true)
probe_list PaginationStyle.page (some p) =
    if str_eq p "" then (size_probes, true) else (size_probes ++ page_negative ∷ [], false)

unfoldable pub page_param_warning : CanonicalEndpoint → String
page_param_warning endpoint = template (
    "Endpoint '" ∷ endpoint.id ∷ "': pagination_boundary — style 'page' declared"
    ∷ " without page_param; page_negative probe omitted." ∷ [])

unfoldable pub sizes_warning : CanonicalEndpoint → PaginationConfig → String
sizes_warning endpoint pg = template (
    "Endpoint '"
    ∷ endpoint.id
    ∷ "': pagination_boundary — max_size ("
    ∷ decimal pg.max_size
    ∷ ")"
    ∷ " is less than default_size ("
    ∷ decimal pg.default_size
    ∷ "); all probes omitted."
    ∷ [])

unfoldable pub probe_status : CanonicalEndpoint → PaginationProbe → ℕ
probe_status endpoint size_max = endpoint.response.expected_status
probe_status endpoint _ = 400

unfoldable pub probe_cases :
    CanonicalEndpoint → PaginationConfig → ℕ → List PaginationProbe → List TestCase
unfolding build_case method_prod_safe marker_for probe_status
probe_cases endpoint pg ordinal [] = []
probe_cases endpoint pg ordinal (probe ∷ probes) =
    build_case endpoint pagination_boundary (marker_for pagination_boundary)
      (method_prod_safe pagination_boundary endpoint) ordinal
      (template ("Pagination boundary (" ∷ probe_text probe ∷ ") for " ∷ endpoint.name ∷ []))
      (pagination_boundary_params pg.style pg.size_param pg.page_param pg.default_size pg.max_size
        probe (probe_status endpoint probe))
    ∷ probe_cases endpoint pg (suc ordinal) probes

unfoldable pub pagination_for :
    HttpMethod → Option PaginationConfig → CanonicalEndpoint → GeneratorResult
unfolding probe_list page_param_warning sizes_warning probe_cases
pagination_for HttpMethod.get (some pg) endpoint =
    if ltb pg.max_size pg.default_size
    then warned (sizes_warning endpoint pg)
    else let probes = probe_list pg.style pg.page_param in
      record {
        cases = probe_cases endpoint pg 0 probes.0;
        warnings = if probes.1 then page_param_warning endpoint ∷ [] else [];
      }
pagination_for _ _ endpoint = no_cases

unfoldable pub pagination_boundary_generator : CanonicalEndpoint → GeneratorResult
unfolding pagination_for
pagination_boundary_generator endpoint = pagination_for endpoint.method endpoint.pagination endpoint

abbrev pub is_valid_expect : String → Bool
is_valid_expect mode =
    str_eq mode "exists" || str_eq mode "not_exists" || str_eq mode "match" || str_eq mode "exact"

-- The callback of `forEach` on the entry at `i`.
unfoldable pub db_entry : CanonicalEndpoint → ℕ → DbVerification → GeneratorResult
unfolding build_case method_prod_safe marker_for
db_entry endpoint i entry =
    if not (is_valid_expect entry.expect)
    then warned (
        template (
          "db_verify["
          ∷ decimal i
          ∷ "] has unrecognized expect '"
          ∷ entry.expect
          ∷ "'; skipped"
          ∷ []))
    else record {
      cases =
          build_case endpoint db_state_matches_expectation (marker_for db_state_matches_expectation)
            (method_prod_safe db_state_matches_expectation endpoint) i
            (template ("DB state verification [" ∷ decimal i ∷ "] for " ∷ endpoint.name ∷ []))
            (db_state_params entry.connection entry.query entry.expect entry.fields entry.query_id)
          ∷ [];
      warnings = [];
    }

unfoldable pub db_entries : CanonicalEndpoint → ℕ → List DbVerification → GeneratorResult
unfolding db_entry
db_entries endpoint i [] = no_cases
db_entries endpoint i (entry ∷ entries) =
    let here = db_entry endpoint i entry in
    let rest = db_entries endpoint (suc i) entries in
    record { cases = here.cases ++ rest.cases; warnings = here.warnings ++ rest.warnings }

-- An absent list and an empty one give nothing.
unfoldable pub db_verify_generator : CanonicalEndpoint → GeneratorResult
unfolding db_entries
db_verify_generator endpoint = db_entries endpoint 0 (get_or endpoint.db_verify [])

-- The text cut after `n` characters, with an ellipsis where something is cut.
abbrev pub truncated : ℕ → String → String
truncated n String.[] = ""
truncated zero (String.◌∷◌ c s) = "…"
truncated (suc n) (String.◌∷◌ c s) = String.◌∷◌ c (truncated n s)

unfoldable pub assertion_cases : CanonicalEndpoint → ℕ → List String → List TestCase
unfolding build_case method_prod_safe marker_for
assertion_cases endpoint i [] = []
assertion_cases endpoint i (text ∷ texts) =
    build_case endpoint assertion (marker_for assertion) (method_prod_safe assertion endpoint) i
      (template ("Assertion: " ∷ truncated 80 text ∷ [])) (assertion_params text)
    ∷ assertion_cases endpoint (suc i) texts

-- An absent list and an empty one give nothing.
unfoldable pub assertion_binder : CanonicalEndpoint → GeneratorResult
unfolding assertion_cases
assertion_binder endpoint = record {
  cases = assertion_cases endpoint 0 (get_or endpoint.assertions []);
  warnings = [];
}
