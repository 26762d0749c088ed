-- ===== src/Catalog/Plan/Counts.antt =====
-- src/test-catalog/test-plan-generator.ts: the two counters of a plan.
use apiwright.Prelude.{
  ℕ, suc, ◌+◌, ◌≡◌, refl, Bool, true, false, List, [], ◌∷◌, String, arith, keep, length, Bool-cases,
  inl, inr,
}
use apiwright.Catalog.Case.{TestCaseGenerator, GeneratorResult}
use apiwright.Catalog.Endpoint.{CanonicalEndpoint}
use apiwright.Catalog.Plan.{
  Validation, detect_skip_logic, initial_progress, plan_valid, plan_endpoint, plan_endpoints,
  generate, generate_raw_cases,
}
use apiwright.Catalog.Plan.Skipping.{Progress}
use apiwright.Catalog.Plan.Keeps.{apply_skips_keeps, plan_endpoint_valid, plan_endpoint_invalid}

module _ (validate_endpoint : CanonicalEndpoint → Validation) (generators : List TestCaseGenerator)
    (skip_globally : List String) where
  plan_valid_lem :
      (flag : Bool) (endpoint : CanonicalEndpoint) (raw : GeneratorResult) (p : Progress)
      → ((plan_valid validate_endpoint generators skip_globally flag endpoint raw p).planned
          ≡ suc p.planned)
        × ((plan_valid validate_endpoint generators skip_globally flag endpoint raw p).skipped
            ≡ p.skipped)
  unfolding plan_valid
  plan_valid_lem false endpoint raw p = (refl, refl)
  plan_valid_lem true endpoint raw p =
      let kept = apply_skips_keeps skip_globally endpoint raw.cases _ in (kept.0, kept.1)

  abbrev is_valid : CanonicalEndpoint → Bool
  is_valid endpoint = (validate_endpoint endpoint).valid

  plan_endpoint_lem :
      (flag : Bool) (i : ℕ) (endpoint : CanonicalEndpoint) (p : Progress)
      → ((plan_endpoint validate_endpoint generators skip_globally flag i endpoint p).planned
          ≡ p.planned + length (keep is_valid (endpoint ∷ [])))
        × ((plan_endpoint validate_endpoint generators skip_globally flag i endpoint p).planned
              + (plan_endpoint validate_endpoint generators skip_globally flag i endpoint p).skipped
            ≡ p.planned + p.skipped + 1)
  plan_endpoint_lem flag i endpoint p = elim (Bool-cases (is_valid endpoint)) [
    | inl e ↦
        let (a, b) = plan_valid_lem flag endpoint (generate_raw_cases generators endpoint) p in
        rw (plan_endpoint_valid validate_endpoint generators skip_globally flag i endpoint p e, e)
          (omega (arith, a), omega (arith, a, b))
    | inr e ↦
        rw (plan_endpoint_invalid validate_endpoint generators skip_globally flag i endpoint p e, e)
          (omega arith, omega arith)
  ]

  keep_cons :
      (endpoint : CanonicalEndpoint) (endpoints : List CanonicalEndpoint)
      → length (keep is_valid (endpoint ∷ endpoints))
        ≡ length (keep is_valid (endpoint ∷ [])) + length (keep is_valid endpoints)
  keep_cons endpoint endpoints = elim (Bool-cases (is_valid endpoint)) [
    | inl e ↦ rw e (omega arith)
    | inr e ↦ rw e (omega arith)
  ]

  plan_endpoints_lem :
      (flag : Bool) (i : ℕ) (endpoints : List CanonicalEndpoint) (p : Progress)
      → ((plan_endpoints validate_endpoint generators skip_globally flag i endpoints p).planned
          ≡ p.planned + length (keep is_valid endpoints))
        × ((plan_endpoints validate_endpoint generators skip_globally flag i endpoints p).planned
              + (plan_endpoints validate_endpoint generators skip_globally flag i endpoints
                  p).skipped
            ≡ p.planned + p.skipped + length endpoints)
  unfolding plan_endpoints
  plan_endpoints_lem flag i [] p = (omega arith, omega arith)
  plan_endpoints_lem flag i (endpoint ∷ endpoints) p =
      let round = plan_endpoint validate_endpoint generators skip_globally flag i endpoint p in
      let (a, b) = plan_endpoint_lem flag i endpoint p in
      let (c, d) = plan_endpoints_lem flag (suc i) endpoints round in
      (omega (arith, a, c, keep_cons endpoint endpoints), omega (arith, b, d))

  -- The plan counts the valid endpoints as planned, and planned and skipped ones add up to all.
  pub generate-counts :
      (endpoints : List CanonicalEndpoint)
      → ((generate validate_endpoint generators skip_globally endpoints).endpoints_planned
          ≡ length (keep is_valid endpoints))
        × ((generate validate_endpoint generators skip_globally endpoints).endpoints_planned
              + (generate validate_endpoint generators skip_globally endpoints).endpoints_skipped
            ≡ length endpoints)
  unfolding generate
  generate-counts endpoints =
      let flag = detect_skip_logic skip_globally endpoints in
      let (a, b) =
        plan_endpoints_lem flag 0 endpoints
          (initial_progress validate_endpoint generators skip_globally) in
      (omega (arith, a), omega (arith, b))
