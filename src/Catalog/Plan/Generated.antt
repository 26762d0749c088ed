-- ===== src/Catalog/Plan/Generated.antt =====
-- src/test-catalog/test-plan-generator.ts with its default generators: what holds of every case.
use apiwright.Prelude.{
  ◌≡◌, refl, true, not, Option, none, some, List, [], ◌∷◌, String, Bool-cases, Option-cases, inl,
  inr, All, Some, All-append, All-keep, All-map, Some-map, sym, ◌∙◌, str_eq, ap,
}
use apiwright.Catalog.Case.{
  TestCase, TestCaseParams, TestCaseGenerator, Attempt, returned, threw, GeneratorResult, kind_of,
  method_text, head_get_parity_params,
}
use apiwright.Catalog.Endpoint.{CanonicalEndpoint}
use apiwright.Catalog.Generators.Boundary.{DoubleOps}
use apiwright.Catalog.Plan.{Validation, attempt_result, generate_raw_cases, generate}
use apiwright.Catalog.Plan.Cases.{generate-cases}
use apiwright.Catalog.Plan.Defaults.{default_generator_order}
use apiwright.Catalog.Plan.Pairs.{by_id, resolve_found, resolve_parity, resolve_case, with_url}
use apiwright.Catalog.Plan.Paired.{Keeps, resolve_pairs-All}
use apiwright.Catalog.Plan.Reference.{unskipped, cases_of, planned_cases}
use apiwright.Catalog.Plan.Skipping.{endpoint_skips_of}
use apiwright.Catalog.Plan.Stamps.{IsCaseOf}
use apiwright.Catalog.Plan.Stamps.Boundary.{Returns, boundary_battery_generator-Returns}
use apiwright.Catalog.Plan.Stamps.Declared.{declared-AreCasesOf}
use apiwright.Catalog.Plan.Stamps.Generators.{
  AreCasesOf, universal_generator-AreCasesOf, auth_negative_generator-AreCasesOf,
  body_negative_generator-AreCasesOf,
}
use apiwright.Catalog.Skips.{should_skip}

attempt_result-AreCasesOf :
    (endpoint : CanonicalEndpoint) (m : Attempt GeneratorResult)
    → Returns (AreCasesOf endpoint) m
    → AreCasesOf endpoint (attempt_result endpoint m)
unfolding attempt_result
attempt_result-AreCasesOf endpoint (returned result) h = h
attempt_result-AreCasesOf endpoint (threw message) h = tt

generate_raw_cases-AreCasesOf :
    (endpoint : CanonicalEndpoint) (generators : List TestCaseGenerator)
    → All (λ gen. Returns (AreCasesOf endpoint) (gen endpoint)) generators
    → AreCasesOf endpoint (generate_raw_cases generators endpoint)
unfolding generate_raw_cases
generate_raw_cases-AreCasesOf endpoint [] h = tt
generate_raw_cases-AreCasesOf endpoint (gen ∷ generators) (g, h) =
    All-append (IsCaseOf endpoint) (attempt_result endpoint (gen endpoint)).cases
      (generate_raw_cases generators endpoint).cases
      (attempt_result-AreCasesOf endpoint (gen endpoint) g)
      (generate_raw_cases-AreCasesOf endpoint generators h)

defaults-AreCasesOf :
    (ops : DoubleOps) (endpoint : CanonicalEndpoint)
    → AreCasesOf endpoint (generate_raw_cases (default_generator_order ops) endpoint)
unfolding default_generator_order
defaults-AreCasesOf ops endpoint =
    let (idem, put, parity, conditional, cors, pages, db, asserted) =
      declared-AreCasesOf endpoint in
    generate_raw_cases-AreCasesOf endpoint (default_generator_order ops) (
      universal_generator-AreCasesOf endpoint,
      (
        auth_negative_generator-AreCasesOf endpoint,
        (
          body_negative_generator-AreCasesOf endpoint,
          (
            boundary_battery_generator-Returns ops endpoint,
            (idem, (put, (parity, (conditional, (cors, (pages, (db, (asserted, tt)))))))),
          ),
        ),
      ),
    )

-- The case belongs to a valid endpoint of the list.
abbrev pub IsPlanned : (CanonicalEndpoint → Validation) → List CanonicalEndpoint → TestCase → Type 0
IsPlanned validate_endpoint endpoints c =
    Some (λ e. ((validate_endpoint e).valid ≡ true) × IsCaseOf e c) endpoints

-- A predicate that the new URL of a parity case leaves alone is kept by the resolution.
module _ (P : TestCase → Type 0) (endpoints : List CanonicalEndpoint) (c : TestCase) (id : String)
    (h : (url : String) → P (record c { params = head_get_parity_params id url })) where
  resolve_found-Keeps :
      (paired : CanonicalEndpoint) (head_endpoint : Option CanonicalEndpoint)
      → Keeps P (resolve_found c id paired head_endpoint)
  unfolding resolve_found with_url
  resolve_found-Keeps paired none = elim (Bool-cases (str_eq (method_text paired.method) "GET")) [
    | inr m ↦ rw (m, resolve_found) tt
    | inl m ↦ rw (m, resolve_found) (h paired.url)
  ]
  resolve_found-Keeps paired (some head) =
      elim (Bool-cases (str_eq (method_text paired.method) "GET")) [
        | inr m ↦ rw (m, resolve_found) tt
        | inl m ↦ elim (Bool-cases (str_eq paired.url head.url)) [
          | inr u ↦ rw (m, u, resolve_found) tt
          | inl u ↦ rw (m, u, resolve_found) (h paired.url)
        ]
      ]

  resolve_parity-Keeps : Keeps P (resolve_parity endpoints c id)
  unfolding resolve_parity
  resolve_parity-Keeps = elim (Option-cases (by_id endpoints id)) [
    | inl e ↦ rw (e, resolve_parity) tt
    | inr (paired, e) ↦
        rw (e, resolve_parity) (resolve_found-Keeps paired (by_id endpoints c.endpoint_id))
  ]

module _ (ops : DoubleOps) (validate_endpoint : CanonicalEndpoint → Validation)
    (skip_globally : List String) where
  cases_of-AreCasesOf :
      (endpoint : CanonicalEndpoint)
      → All
          (λ c. ((validate_endpoint endpoint).valid ≡ true) × IsCaseOf endpoint c)
          (cases_of validate_endpoint (default_generator_order ops) skip_globally endpoint)
  unfolding cases_of unskipped
  cases_of-AreCasesOf endpoint = elim (Bool-cases (validate_endpoint endpoint).valid) [
    | inr e ↦ rw (e, cases_of) tt
    | inl e ↦
        let raw = (generate_raw_cases (default_generator_order ops) endpoint).cases in
        rw (e, cases_of)
          (All-map (IsCaseOf endpoint) (λ c. (true ≡ true) × IsCaseOf endpoint c)
            (unskipped (endpoint_skips_of endpoint) skip_globally raw) (λ c h. (refl, h))
            (All-keep (IsCaseOf endpoint)
              (λ c. not (should_skip c (endpoint_skips_of endpoint) skip_globally)) raw
              (defaults-AreCasesOf ops endpoint)))
  ]

  planned_cases-IsPlanned :
      (endpoints : List CanonicalEndpoint)
      → All
          (IsPlanned validate_endpoint endpoints)
          (planned_cases validate_endpoint (default_generator_order ops) skip_globally endpoints)
  unfolding planned_cases
  planned_cases-IsPlanned [] = tt
  planned_cases-IsPlanned (endpoint ∷ endpoints) =
      let here = cases_of validate_endpoint (default_generator_order ops) skip_globally endpoint in
      let rest =
        planned_cases validate_endpoint (default_generator_order ops) skip_globally endpoints in
      let P = IsPlanned validate_endpoint (endpoint ∷ endpoints) in
      All-append P here rest
        (All-map (λ c. ((validate_endpoint endpoint).valid ≡ true) × IsCaseOf endpoint c) P here
          (λ c h. inl h) (cases_of-AreCasesOf endpoint))
        (All-map (IsPlanned validate_endpoint endpoints) P rest (λ c h. inr h)
          (planned_cases-IsPlanned endpoints))

  with_url-IsPlanned :
      (endpoints : List CanonicalEndpoint) (c : TestCase) (id url new_url : String)
      → c.params ≡ head_get_parity_params id url
      → IsPlanned validate_endpoint endpoints c
      → IsPlanned validate_endpoint endpoints
          (record c { params = head_get_parity_params id new_url })
  with_url-IsPlanned endpoints c id url new_url e h =
      Some-map (λ p. ((validate_endpoint p).valid ≡ true) × IsCaseOf p c)
        (λ p.
          ((validate_endpoint p).valid ≡ true)
          × IsCaseOf p (record c { params = head_get_parity_params id new_url }))
        endpoints (λ p (v, (i, m, k, t)). (v, (i, m, ap kind_of (sym e) ∙ k, t))) h

  resolve_case-IsPlanned :
      (endpoints : List CanonicalEndpoint) (c : TestCase) (params : TestCaseParams)
      → c.params ≡ params
      → IsPlanned validate_endpoint endpoints c
      → Keeps (IsPlanned validate_endpoint endpoints) (resolve_case endpoints c params)
  unfolding resolve_case
  resolve_case-IsPlanned endpoints c (head_get_parity_params id url) e h =
      resolve_parity-Keeps (IsPlanned validate_endpoint endpoints) endpoints c id
        (λ new_url. with_url-IsPlanned endpoints c id url new_url e h)
  resolve_case-IsPlanned endpoints c _ e h = h

  -- With the default generators, every case of a plan belongs to a valid endpoint of the list: it has
  -- that endpoint's identifier, the marker of its type, parameters of the kind of its type, and a
  -- prod-safety tag that is set only on a smoke case of an endpoint that reads or is declared safe.
  pub generate-IsPlanned :
      (endpoints : List CanonicalEndpoint)
      → All
          (IsPlanned validate_endpoint endpoints)
          (generate validate_endpoint (default_generator_order ops) skip_globally endpoints).cases
  generate-IsPlanned endpoints =
      let generators = default_generator_order ops in
      let P = IsPlanned validate_endpoint endpoints in
      rw (generate-cases validate_endpoint generators skip_globally endpoints) (
        resolve_pairs-All P P endpoints
          (planned_cases validate_endpoint generators skip_globally endpoints)
          (λ c h. resolve_case-IsPlanned endpoints c c.params refl h)
          (planned_cases-IsPlanned endpoints))
