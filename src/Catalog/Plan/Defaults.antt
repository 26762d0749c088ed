-- ===== src/Catalog/Plan/Defaults.antt =====
-- src/test-catalog/test-plan-generator.ts: DEFAULT_GENERATOR_ORDER.
use apiwright.Prelude.{List, [], ◌∷◌}
use apiwright.Catalog.Case.{GeneratorResult, TestCaseGenerator, returned}
use apiwright.Catalog.Endpoint.{CanonicalEndpoint}
use apiwright.Catalog.Generators.Boundary.{DoubleOps, boundary_battery_generator}
use apiwright.Catalog.Generators.Declared.{
  cors_preflight_generator, pagination_boundary_generator, db_verify_generator, assertion_binder,
}
use apiwright.Catalog.Generators.Idempotency.{
  idempotency_generator, put_idempotency_generator, head_get_parity_generator,
  conditional_get_generator,
}
use apiwright.Catalog.Generators.Negative.{auth_negative_generator, body_negative_generator}
use apiwright.Catalog.Generators.Universal.{universal_generator}

-- A generator that never throws.
abbrev pub total : (CanonicalEndpoint → GeneratorResult) → TestCaseGenerator
total gen endpoint = returned (gen endpoint)

unfoldable pub default_generator_order : DoubleOps → List TestCaseGenerator
unfolding universal_generator auth_negative_generator body_negative_generator
    boundary_battery_generator idempotency_generator put_idempotency_generator
    head_get_parity_generator conditional_get_generator cors_preflight_generator
    pagination_boundary_generator db_verify_generator assertion_binder
default_generator_order ops =
    total universal_generator
    ∷ total auth_negative_generator
    ∷ total body_negative_generator
    ∷ boundary_battery_generator ops
    ∷ total idempotency_generator
    ∷ total put_idempotency_generator
    ∷ total head_get_parity_generator
    ∷ total conditional_get_generator
    ∷ total cors_preflight_generator
    ∷ total pagination_boundary_generator
    ∷ total db_verify_generator
    ∷ total assertion_binder
    ∷ []
