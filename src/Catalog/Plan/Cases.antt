-- ===== src/Catalog/Plan/Cases.antt =====
-- src/test-catalog/test-plan-generator.ts: the loop against the reference list of cases.
use apiwright.Prelude.{
  ℕ, suc, ◌≡◌, refl, Bool, true, false, Option, none, some, List, [], ◌∷◌, ◌++◌, String, Bool-cases,
  inl, inr, ◌⊎◌, ◌∙◌, sym, ap, get_or,
}
use mathlib.Core.Bool.{false≢true}
use mathlib.Core.List.{append-nil, append_assoc}
use apiwright.Catalog.Case.{TestCase, TestCaseGenerator, GeneratorResult}
use apiwright.Catalog.Endpoint.{CanonicalEndpoint}
use apiwright.Catalog.Plan.{
  Validation, plan_valid, plan_endpoint, plan_endpoints, generate, generate_raw_cases,
  detect_skip_logic, has_skip_cases, declares_skips,
}
use apiwright.Catalog.Plan.Keeps.{apply_skips_keeps, plan_endpoint_valid, plan_endpoint_invalid}
use apiwright.Catalog.Plan.Pairs.{resolve_pairs}
use apiwright.Catalog.Plan.Reference.{unskipped, cases_of, planned_cases}
use apiwright.Catalog.Plan.Skipping.{Progress, endpoint_skips_of}
use apiwright.Catalog.Skips.{should_skip, match_skip, first_match}

-- Without tokens nothing is skipped.
unskipped_nil : (cases : List TestCase) → unskipped [] [] cases ≡ cases
unfolding unskipped should_skip match_skip first_match
unskipped_nil [] = refl
unskipped_nil (c ∷ cases) = ap (λ r. c ∷ r) (unskipped_nil cases)

-- There is no token at all.
abbrev NoTokens : List String → List CanonicalEndpoint → Type 0
NoTokens skip_globally endpoints = (skip_globally ≡ []) × (has_skip_cases endpoints ≡ false)

no_skips : (o : Option (List String)) → declares_skips o ≡ false → get_or o [] ≡ []
no_skips none h = refl
no_skips (some []) h = refl
no_skips (some (t ∷ ts)) h = absurd (false≢true (sym h))

NoTokens-head :
    (skip_globally : List String) (endpoint : CanonicalEndpoint)
    (endpoints : List CanonicalEndpoint)
    → NoTokens skip_globally (endpoint ∷ endpoints)
    → (endpoint_skips_of endpoint ≡ []) × NoTokens skip_globally endpoints
unfolding has_skip_cases
NoTokens-head skip_globally endpoint endpoints (g, h) =
    elim (Bool-cases (declares_skips endpoint.skip_cases)) [
      | inl e ↦ absurd (false≢true (sym (rw (e, has_skip_cases) at h)))
      | inr e ↦ (no_skips endpoint.skip_cases e, (g, rw (e, has_skip_cases) at h))
    ]

detect_skip_logic_iff :
    (skip_globally : List String) (endpoints : List CanonicalEndpoint)
    → (detect_skip_logic skip_globally endpoints ≡ true) ⊎ NoTokens skip_globally endpoints
unfolding detect_skip_logic
detect_skip_logic_iff [] endpoints = elim (Bool-cases (has_skip_cases endpoints)) [
  | inl e ↦ inl e
  | inr e ↦ inr (refl, e)
]
detect_skip_logic_iff (t ∷ ts) endpoints = inl refl

module _ (validate_endpoint : CanonicalEndpoint → Validation) (generators : List TestCaseGenerator)
    (skip_globally : List String) where
  plan_valid-cases :
      (flag : Bool) (endpoint : CanonicalEndpoint) (raw : GeneratorResult) (p : Progress)
      → (flag ≡ true) ⊎ ((skip_globally ≡ []) × (endpoint_skips_of endpoint ≡ []))
      → (plan_valid validate_endpoint generators skip_globally flag endpoint raw p).cases
        ≡ p.cases ++ unskipped (endpoint_skips_of endpoint) skip_globally raw.cases
  unfolding plan_valid
  plan_valid-cases true endpoint raw p h = (apply_skips_keeps skip_globally endpoint raw.cases _).2
  plan_valid-cases false endpoint raw p (inl e) = absurd (false≢true e)
  plan_valid-cases false endpoint raw p (inr (g, e)) = rw (g, e, unskipped_nil raw.cases)

  plan_endpoint-cases :
      (flag : Bool) (i : ℕ) (endpoint : CanonicalEndpoint) (p : Progress)
      → (flag ≡ true) ⊎ ((skip_globally ≡ []) × (endpoint_skips_of endpoint ≡ []))
      → (plan_endpoint validate_endpoint generators skip_globally flag i endpoint p).cases
        ≡ p.cases ++ cases_of validate_endpoint generators skip_globally endpoint
  unfolding cases_of
  plan_endpoint-cases flag i endpoint p h = elim (Bool-cases (validate_endpoint endpoint).valid) [
    | inl e ↦
        rw (plan_endpoint_valid validate_endpoint generators skip_globally flag i endpoint p e, e)
          (plan_valid-cases flag endpoint (generate_raw_cases generators endpoint) p h)
    | inr e ↦
        rw (plan_endpoint_invalid validate_endpoint generators skip_globally flag i endpoint p e, e)
          (sym (append-nil p.cases))
  ]

  tokens_head :
      (flag : Bool) (endpoint : CanonicalEndpoint) (endpoints : List CanonicalEndpoint)
      → (flag ≡ true) ⊎ NoTokens skip_globally (endpoint ∷ endpoints)
      → ((flag ≡ true) ⊎ ((skip_globally ≡ []) × (endpoint_skips_of endpoint ≡ [])))
        × ((flag ≡ true) ⊎ NoTokens skip_globally endpoints)
  tokens_head flag endpoint endpoints (inl e) = (inl e, inl e)
  tokens_head flag endpoint endpoints (inr h) =
      let (skips, rest) = NoTokens-head skip_globally endpoint endpoints h in
      (inr (h.0, skips), inr rest)

  plan_endpoints-cases :
      (flag : Bool) (i : ℕ) (endpoints : List CanonicalEndpoint) (p : Progress)
      → (flag ≡ true) ⊎ NoTokens skip_globally endpoints
      → (plan_endpoints validate_endpoint generators skip_globally flag i endpoints p).cases
        ≡ p.cases ++ planned_cases validate_endpoint generators skip_globally endpoints
  unfolding plan_endpoints planned_cases
  plan_endpoints-cases flag i [] p h = sym (append-nil p.cases)
  plan_endpoints-cases flag i (endpoint ∷ endpoints) p h =
      let (here, rest) = tokens_head flag endpoint endpoints h in
      plan_endpoints-cases flag (suc i) endpoints _ rest
      ∙ ap (λ k. k ++ planned_cases validate_endpoint generators skip_globally endpoints)
          (plan_endpoint-cases flag i endpoint p here)
      ∙ append_assoc p.cases _ _

  -- The cases of a plan are those of the valid endpoints in order, each endpoint's without the
  -- skipped ones, after the pairs are resolved; also where no token stands and the skips are left out.
  pub generate-cases :
      (endpoints : List CanonicalEndpoint)
      → (generate validate_endpoint generators skip_globally endpoints).cases
        ≡ (resolve_pairs endpoints
            (planned_cases validate_endpoint generators skip_globally endpoints)).cases
  unfolding generate
  generate-cases endpoints =
      ap (λ cs. (resolve_pairs endpoints cs).cases)
        (plan_endpoints-cases _ 0 endpoints _ (detect_skip_logic_iff skip_globally endpoints))
