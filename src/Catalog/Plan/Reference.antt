-- ===== src/Catalog/Plan/Reference.antt =====
-- What a plan's cases are meant to be, beside the loop of src/test-catalog/test-plan-generator.ts.
use apiwright.Prelude.{not, List, [], ◌∷◌, ◌++◌, String, keep, if◌then◌else◌}
use apiwright.Catalog.Case.{TestCase, TestCaseGenerator}
use apiwright.Catalog.Endpoint.{CanonicalEndpoint}
use apiwright.Catalog.Plan.{Validation, generate_raw_cases}
use apiwright.Catalog.Plan.Skipping.{endpoint_skips_of}
use apiwright.Catalog.Skips.{should_skip}

-- The cases that no token skips, in order.
unfoldable pub unskipped : List String → List String → List TestCase → List TestCase
unfolding should_skip
unskipped endpoint_skips global_skips = keep (λ c. not (should_skip c endpoint_skips global_skips))

module _ (validate_endpoint : CanonicalEndpoint → Validation) (generators : List TestCaseGenerator)
    (skip_globally : List String) where
  unfoldable pub cases_of : CanonicalEndpoint → List TestCase
  unfolding unskipped generate_raw_cases
  cases_of endpoint =
      if (validate_endpoint endpoint).valid
      then unskipped (endpoint_skips_of endpoint) skip_globally
          (generate_raw_cases generators endpoint).cases
      else []

  unfoldable pub planned_cases : List CanonicalEndpoint → List TestCase
  unfolding cases_of
  planned_cases [] = []
  planned_cases (endpoint ∷ endpoints) = cases_of endpoint ++ planned_cases endpoints
