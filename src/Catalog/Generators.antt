-- ===== src/Catalog/Generators.antt =====
-- src/test-catalog/generators/*.ts and assertion-binder.ts: what the generators share. Every object
-- literal of a case has the same first fields; `build_case` writes them once.
pub mod Universal
pub mod Negative
pub mod Boundary
pub mod Idempotency
pub mod Declared
use apiwright.Prelude.{ℕ, Bool, none, some, Option, List, [], String, template, ◌∷◌}
use apiwright.Catalog.Case.{TestCaseParams, TestCase, GeneratorResult, type_text}
use apiwright.Catalog.CaseId.{make_test_case_id}
use apiwright.Catalog.Endpoint.{CanonicalEndpoint}
use apiwright.Catalog.Markers.{TestMarker, GeneratedTestType, classify_prod_safe, marker_for}

unfoldable pub build_case :
    CanonicalEndpoint
    → GeneratedTestType
    → TestMarker
    → Bool
    → ℕ
    → String
    → TestCaseParams
    → TestCase
unfolding make_test_case_id
build_case endpoint type marker prod_safe ordinal title params = record {
  id = make_test_case_id endpoint.id (type_text type) ordinal;
  endpoint_id = endpoint.id;
  type = type;
  marker = marker;
  title = title;
  prod_safe = prod_safe;
  params = params;
}

-- `prodSafety.classifyProdSafe({ marker, method })`: the endpoint's flag is not handed on.
unfoldable pub method_prod_safe : GeneratedTestType → CanonicalEndpoint → Bool
unfolding classify_prod_safe marker_for
method_prod_safe type endpoint = classify_prod_safe (marker_for type) endpoint.method none

-- ... and here it is.
unfoldable pub endpoint_prod_safe : GeneratedTestType → CanonicalEndpoint → Bool
unfolding classify_prod_safe marker_for
endpoint_prod_safe type endpoint =
    classify_prod_safe (marker_for type) endpoint.method endpoint.prod_safe

abbrev pub no_cases : GeneratorResult
no_cases = record { cases = []; warnings = [] }

abbrev pub title_for : String → CanonicalEndpoint → String
title_for what endpoint = template (what ∷ " for " ∷ endpoint.name ∷ [])
