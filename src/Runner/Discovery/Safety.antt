-- ===== src/Runner/Discovery/Safety.antt =====
-- src/runner/discovery/plan-generator.ts and src/runner/filter/filter.ts together: the cases that are
-- generated and then filtered against production.
use apiwright.Prelude.{
  ◌≡◌, refl, true, Option, none, some, List, [], ◌∷◌, String, inl, inr, ◌⊎◌, ◌∙◌, sym, All, Some,
  All-map, arith,
}
use mathlib.Core.Path.{subst}
use mathlib.Core.Bool.{false≢true}
use apiwright.Catalog.Case.{TestCase, returned}
use apiwright.Catalog.Endpoint.{CanonicalEndpoint}
use apiwright.Catalog.Generators.Boundary.{DoubleOps}
use apiwright.Catalog.Markers.{smoke, is_read_method}
use apiwright.Catalog.Plan.{Validation, generate}
use apiwright.Catalog.Plan.Defaults.{default_generator_order}
use apiwright.Catalog.Plan.Generated.{IsPlanned, generate-IsPlanned}
use apiwright.Runner.Discovery.{planned, planned_all, report_of, TestPlanReport, generate_test_plan}
use apiwright.Runner.Filter.{PlannedTestCase, EndpointLoadRecord, RunFilters, apply_filters}
use apiwright.Runner.Filter.Included.{apply_filters-IsIncluded, All-keep_passed}

-- The case is of a valid endpoint of the list, which only reads or is declared safe, and is a smoke
-- case.
abbrev pub IsSafeCase :
    (CanonicalEndpoint → Validation) → List CanonicalEndpoint → PlannedTestCase TestCase → Type 0
IsSafeCase validate_endpoint endpoints c =
    (c.marker ≡ smoke)
    × Some
        (λ e.
          ((validate_endpoint e).valid ≡ true)
          × (c.endpoint_id ≡ e.id)
          × ((is_read_method e.method ≡ true) ⊎ (e.prod_safe ≡ some true)))
        endpoints

IsPlanned-safe :
    (validate_endpoint : CanonicalEndpoint → Validation) (endpoints : List CanonicalEndpoint)
    (c : TestCase)
    → c.prod_safe ≡ true
    → IsPlanned validate_endpoint endpoints c
    → IsSafeCase validate_endpoint endpoints (planned c)
IsPlanned-safe validate_endpoint [] c t h = elim h [ ]
IsPlanned-safe validate_endpoint (e ∷ es) c t (inl (v, (i, m, k, inl f))) =
    absurd (false≢true (sym f ∙ t))
IsPlanned-safe validate_endpoint (e ∷ es) c t (inl (v, (i, m, k, inr (s, r)))) = (s, inl (v, i, r))
IsPlanned-safe validate_endpoint (e ∷ es) c t (inr h) =
    let (s, r) = IsPlanned-safe validate_endpoint es c t h in (s, inr r)

All-planned_all :
    (P : PlannedTestCase TestCase → Type 0) (cases : List TestCase)
    → All (λ c. P (planned c)) cases
    → All P (planned_all cases)
All-planned_all P [] h = tt
All-planned_all P (c ∷ cases) (p, h) = (p, All-planned_all P cases h)

module _ (ops : DoubleOps) (validate_endpoint : CanonicalEndpoint → Validation)
    (endpoints : List CanonicalEndpoint) (skip_globally : List String) where
  abbrev WasPlanned : PlannedTestCase TestCase → Type 0
  WasPlanned c =
      (c.rest.prod_safe ≡ c.prod_safe)
      × (c ≡ planned c.rest)
      × IsPlanned validate_endpoint endpoints c.rest

  -- A run plans its cases, without a planner of the caller's own, and filters them. Against production,
  -- whatever the filters, the loaded records and the skip tokens are, every case that is left is a smoke
  -- case of a valid endpoint of the list which only reads or declares `prod_safe: true`.
  pub generate_test_plan-apply_filters-prod :
      (records : String → Option EndpointLoadRecord) (filters : RunFilters)
      → (report : TestPlanReport) × (generate_test_plan ops validate_endpoint endpoints none
            skip_globally
          ≡ returned report)
        × All
            (IsSafeCase validate_endpoint endpoints)
            (apply_filters records filters true report.cases)
  unfolding generate_test_plan
  generate_test_plan-apply_filters-prod records filters =
      let plan = generate validate_endpoint (default_generator_order ops) skip_globally endpoints in
      let (p, same, p_iff) = apply_filters-IsIncluded records filters true in
      let cases = planned_all plan.cases in
      (
        report_of plan endpoints,
        refl,
        rw (same cases) (
            All-keep_passed (IsSafeCase validate_endpoint endpoints) WasPlanned p cases
              (λ c e (t, q, h).
                let safe : c.prod_safe ≡ true = ground (arith, ((p_iff c).0 e).2.safe) in
                subst (IsSafeCase validate_endpoint endpoints) (sym q)
                  (IsPlanned-safe validate_endpoint endpoints c.rest (t ∙ safe) h))
              (All-planned_all WasPlanned plan.cases (
                All-map (IsPlanned validate_endpoint endpoints) (λ c. WasPlanned (planned c))
                  plan.cases (λ c h. (refl, refl, h))
                  (generate-IsPlanned ops validate_endpoint skip_globally endpoints)))),
      )
