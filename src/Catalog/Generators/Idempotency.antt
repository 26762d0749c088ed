-- ===== src/Catalog/Generators/Idempotency.antt =====
-- src/test-catalog/generators/idempotency-generator.ts, put-idempotency-generator.ts,
-- head-get-parity-generator.ts and conditional-get-generator.ts.
use apiwright.Prelude.{
  ℕ, Bool, true, false, not, Option, none, some, List, [], ◌∷◌, ◌++◌, String, str_eq, template,
  is_some, ◌==◌, ◌&&◌, ◌||◌, if◌then◌else◌,
}
use apiwright.Catalog.Case.{
  GeneratorResult, PutCompare, body_equality, db_state, get_idempotency_params,
  delete_idempotency_params, put_idempotency_params, head_get_parity_params, conditional_get_params,
}
use apiwright.Catalog.Endpoint.{CanonicalEndpoint, DbVerification}
use apiwright.Catalog.Generators.{build_case, method_prod_safe, title_for, no_cases}
use apiwright.Catalog.Markers.{
  HttpMethod, GeneratedTestType, marker_for, get_idempotency, delete_idempotency, put_idempotency,
  head_get_parity, conditional_get_304,
}
use apiwright.Catalog.Case.{TestCaseParams}

-- The single case of a generator that emits one, its marker and its tag from its own type.
unfoldable pub single_case :
    CanonicalEndpoint → GeneratedTestType → String → TestCaseParams → List String → GeneratorResult
unfolding build_case method_prod_safe marker_for
single_case endpoint type what params warnings = record {
  cases =
      build_case endpoint type (marker_for type) (method_prod_safe type endpoint) 0
        (title_for what endpoint) params
      ∷ [];
  warnings = warnings;
}

-- 204 and 404 are kept; 404 stands for every other status.
unfoldable pub second_delete_status : ℕ → ℕ
second_delete_status raw_status = if raw_status == 204 || raw_status == 404 then raw_status else 404

unfoldable pub idempotency_for : HttpMethod → CanonicalEndpoint → GeneratorResult
unfolding single_case second_delete_status
idempotency_for HttpMethod.get endpoint =
    single_case endpoint get_idempotency "GET idempotency" get_idempotency_params []
idempotency_for HttpMethod.delete endpoint =
    single_case endpoint delete_idempotency "DELETE idempotency"
      (delete_idempotency_params (second_delete_status endpoint.response.expected_status)) []
idempotency_for _ endpoint = no_cases

unfoldable pub idempotency_generator : CanonicalEndpoint → GeneratorResult
unfolding idempotency_for
idempotency_generator endpoint = idempotency_for endpoint.method endpoint

-- `(db_verify?.length ?? 0) > 0`
unfoldable pub put_compare : Option (List DbVerification) → PutCompare
put_compare none = body_equality
put_compare (some []) = body_equality
put_compare (some (v ∷ vs)) = db_state

abbrev pub is_body_equality : PutCompare → Bool
is_body_equality body_equality = true
is_body_equality db_state = false

unfoldable pub no_content_warning : CanonicalEndpoint → String
no_content_warning endpoint = template (
    "Endpoint '" ∷ endpoint.id ∷ "': put_idempotency — response is 204 No Content; "
    ∷ "body_equality compare will be trivially satisfied. "
    ∷ "Add db_verify[] to assert resource state." ∷ [])

unfoldable pub no_body_warning : CanonicalEndpoint → String
no_body_warning endpoint = template (
    "Endpoint '" ∷ endpoint.id ∷ "': put_idempotency — no request.body_example declared; "
    ∷ "the runner will PUT an empty body which may not exercise true idempotency." ∷ [])

unfoldable pub put_warnings : CanonicalEndpoint → List String
unfolding put_compare no_content_warning no_body_warning
put_warnings endpoint =
    (if is_body_equality (put_compare endpoint.db_verify)
        && endpoint.response.expected_status == 204
      then no_content_warning endpoint ∷ []
      else [])
    ++ (if not (is_some endpoint.request.body_example) then no_body_warning endpoint ∷ [] else [])

unfoldable pub put_for : HttpMethod → CanonicalEndpoint → GeneratorResult
unfolding single_case put_compare put_warnings
put_for HttpMethod.put endpoint =
    single_case endpoint put_idempotency "PUT idempotency"
      (put_idempotency_params (put_compare endpoint.db_verify)) (put_warnings endpoint)
put_for _ endpoint = no_cases

unfoldable pub put_idempotency_generator : CanonicalEndpoint → GeneratorResult
unfolding put_for
put_idempotency_generator endpoint = put_for endpoint.method endpoint

-- The URL of the pair is left empty here; the plan generator fills it in.
unfoldable pub parity_for : HttpMethod → Option String → CanonicalEndpoint → GeneratorResult
unfolding single_case
parity_for HttpMethod.head (some pair_with) endpoint =
    if str_eq pair_with ""
    then no_cases
    else single_case endpoint head_get_parity "HEAD/GET parity"
        (head_get_parity_params pair_with "") []
parity_for _ _ endpoint = no_cases

unfoldable pub head_get_parity_generator : CanonicalEndpoint → GeneratorResult
unfolding parity_for
head_get_parity_generator endpoint = parity_for endpoint.method endpoint.pair_with endpoint

unfoldable pub conditional_for : HttpMethod → Option Bool → CanonicalEndpoint → GeneratorResult
unfolding single_case
conditional_for HttpMethod.get (some true) endpoint =
    single_case endpoint conditional_get_304 "Conditional GET (RFC 7232)" conditional_get_params []
conditional_for _ _ endpoint = no_cases

unfoldable pub conditional_get_generator : CanonicalEndpoint → GeneratorResult
unfolding conditional_for
conditional_get_generator endpoint =
    conditional_for endpoint.method endpoint.etag_supported endpoint
