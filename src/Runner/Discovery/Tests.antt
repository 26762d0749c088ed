-- ===== src/Runner/Discovery/Tests.antt =====
-- A plan of four endpoints, filtered against production.
use apiwright.Prelude.{◌≡◌, Option, none, some, true, [], ◌∷◌, String, All}
use apiwright.Catalog.Case.{returned}
use apiwright.Catalog.Plan.Tests.{small_ops, has_id, four}
use apiwright.Runner.Discovery.{TestPlanReport, generate_test_plan}
use apiwright.Runner.Discovery.Safety.{IsSafeCase, generate_test_plan-apply_filters-prod}
use apiwright.Runner.Filter.{EndpointLoadRecord, RunFilters, apply_filters}

abbrev every_record : String → Option EndpointLoadRecord
every_record id = some (record { path = "api"; tags = none })

abbrev all_markers : RunFilters
all_markers = record {
  markers = some ("all" ∷ []);
  path = none;
  tag = none;
  endpoint = none;
  exclude_tags = none;
}

generate_test_plan-apply_filters-prod_example :
    (report : TestPlanReport) × (generate_test_plan small_ops has_id four none [] ≡ returned report)
    × All (IsSafeCase has_id four) (apply_filters every_record all_markers true report.cases)
generate_test_plan-apply_filters-prod_example =
    generate_test_plan-apply_filters-prod small_ops has_id four [] every_record all_markers
