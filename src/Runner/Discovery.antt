-- ===== src/Runner/Discovery.antt =====
-- src/runner/discovery/plan-generator.ts: from the loaded endpoints to the planned cases of a run. The
-- loaded endpoints are the values of the map, in its order. A planner of the caller's own is a
-- function; without one the plan generator is built with the global skip tokens.
pub mod Safety
mod Tests
use apiwright.Prelude.{Bool, Option, none, some, List, [], ◌∷◌, String}
use apiwright.Catalog.Case.{TestCase, Attempt, returned, threw}
use apiwright.Catalog.Endpoint.{CanonicalEndpoint}
use apiwright.Catalog.Generators.Boundary.{DoubleOps}
use apiwright.Catalog.Plan.{Validation, TestPlan, generate}
use apiwright.Catalog.Plan.Defaults.{default_generator_order}
use apiwright.Runner.Filter.{PlannedTestCase}

pub record TestPlanReport : Type 0 where
  pub cases : List (PlannedTestCase TestCase)
  pub endpoints : List CanonicalEndpoint
  pub warnings : List String

-- `{ endpoint_id, case }`, with the fields of the case that the filters read.
abbrev pub planned : TestCase → PlannedTestCase TestCase
planned c = record {
  endpoint_id = c.endpoint_id;
  marker = c.marker;
  prod_safe = c.prod_safe;
  rest = c;
}

abbrev pub planned_all : List TestCase → List (PlannedTestCase TestCase)
planned_all [] = []
planned_all (c ∷ cases) = planned c ∷ planned_all cases

abbrev pub report_of : TestPlan → List CanonicalEndpoint → TestPlanReport
report_of plan endpoints = record {
  cases = planned_all plan.cases;
  endpoints = endpoints;
  warnings = plan.warnings;
}

abbrev pub two_planners_message : String
two_planners_message =
    "generateTestPlan: cannot pass both a custom 'planner' and a non-empty 'options.skipGlobally' — the custom planner's own skip config would be overridden silently. Configure skipGlobally on the planner instance, or drop the planner argument so this wrapper constructs one for you."

module _ (ops : DoubleOps) (validate_endpoint : CanonicalEndpoint → Validation) where
  unfoldable pub generate_test_plan :
      List CanonicalEndpoint
      → Option (List CanonicalEndpoint → TestPlan)
      → List String
      → Attempt TestPlanReport
  unfolding generate default_generator_order
  generate_test_plan endpoints (some planner) [] =
      returned (report_of (planner endpoints) endpoints)
  generate_test_plan endpoints (some planner) (t ∷ ts) = threw two_planners_message
  generate_test_plan endpoints none skip_globally = returned (
      report_of (generate validate_endpoint (default_generator_order ops) skip_globally endpoints)
        endpoints)
