-- ===== src/Catalog/Generators/Universal.antt =====
-- src/test-catalog/generators/universal-generator.ts
use apiwright.Prelude.{
  Bool, true, false, not, Option, none, some, List, [], ◌∷◌, ◌++◌, String, template, is_some,
  if◌then◌else◌,
}
use apiwright.Core.Json.{Json, JsonFields, json_property, boolean, end, field}
use apiwright.Catalog.Case.{
  TestCase, GeneratorResult, status_code_params, content_type_params, response_time_params,
  response_schema_params, auth_happy_path_params,
}
use apiwright.Catalog.Endpoint.{CanonicalEndpoint}
use apiwright.Catalog.Generators.{build_case, endpoint_prod_safe, title_for}
use apiwright.Catalog.Markers.{
  TestMarker, marker_for, status_code_conformance, content_type_alignment, response_time_sla,
  response_schema_validation, auth_happy_path,
}

-- `schema[PENDING_REVIEW_KEY] === true`
abbrev pub is_pending : Option Json → Bool
is_pending (some (boolean b)) = b
is_pending _ = false

unfoldable pub is_effectively_empty_schema : Option JsonFields → Bool
is_effectively_empty_schema none = true
is_effectively_empty_schema (some end) = true
is_effectively_empty_schema (some (field k x fs)) =
    is_pending (json_property "_pending_review" (field k x fs))

-- `#buildSchemaCase`, on the endpoint's `response.schema`.
unfoldable pub build_schema_case :
    CanonicalEndpoint → TestMarker → Bool → Option JsonFields → List TestCase
unfolding build_case is_effectively_empty_schema
build_schema_case endpoint marker prod_safe none = []
build_schema_case endpoint marker prod_safe (some schema) =
    if is_effectively_empty_schema (some schema)
    then []
    else build_case endpoint response_schema_validation marker prod_safe 0
        (title_for "Response schema validation" endpoint) (response_schema_params schema)
      ∷ []

unfoldable pub build_sla_case : CanonicalEndpoint → TestMarker → Bool → List TestCase
unfolding build_case
build_sla_case endpoint marker prod_safe =
    build_case endpoint response_time_sla marker prod_safe 0
      (title_for "Response time SLA" endpoint)
      (response_time_params endpoint.response.sla_ms (not (is_some endpoint.response.sla_ms)))
    ∷ []

unfoldable pub empty_schema_warning : CanonicalEndpoint → String
empty_schema_warning endpoint = template (
    "Endpoint '" ∷ endpoint.id ∷ "': response.schema is empty or pending review; "
    ∷ "response_schema_validation skipped to avoid false-positive PASSes against "
    ∷ "any 2xx body. Tighten the schema in the endpoint file to enable validation." ∷ [])

unfoldable pub universal_generator : CanonicalEndpoint → GeneratorResult
unfolding build_case endpoint_prod_safe marker_for build_schema_case build_sla_case
    is_effectively_empty_schema empty_schema_warning
universal_generator endpoint =
    let marker = marker_for status_code_conformance in
    let prod_safe = endpoint_prod_safe status_code_conformance endpoint in
    record {
      cases =
          build_case endpoint status_code_conformance marker prod_safe 0
            (title_for "Status code conformance" endpoint)
            (status_code_params endpoint.response.expected_status)
          ∷ build_case endpoint content_type_alignment marker prod_safe 0
              (title_for "Content-type alignment" endpoint) content_type_params
          ∷ (build_schema_case endpoint marker prod_safe endpoint.response.schema
              ++ (build_case endpoint auth_happy_path marker prod_safe 0
                    (title_for "Auth happy path" endpoint)
                    (auth_happy_path_params endpoint.auth_strategy
                      (not (is_some endpoint.auth_strategy)))
                  ∷ build_sla_case endpoint marker prod_safe));
      warnings =
          if is_effectively_empty_schema endpoint.response.schema
          then empty_schema_warning endpoint ∷ []
          else [];
    }
