-- ===== src/Catalog/Plan/Paired.antt =====
-- src/test-catalog/test-plan-generator.ts: what the resolution of pairs keeps.
use apiwright.Prelude.{
  ◌≡◌, refl, true, Option, none, some, List, [], ◌∷◌, String, Bool-cases, Option-cases, inl, inr,
  All, sym, str_eq, eq_iff,
}
use mathlib.Core.Bool.{false≢true}
use mathlib.Core.Path.{subst}
use apiwright.Catalog.Case.{
  TestCase, TestCaseParams, TestCaseGenerator, method_text, head_get_parity_params,
}
use apiwright.Catalog.Endpoint.{CanonicalEndpoint}
use apiwright.Catalog.Markers.{HttpMethod}
use apiwright.Catalog.Plan.{Validation, generate}
use apiwright.Catalog.Plan.Cases.{generate-cases}
use apiwright.Catalog.Plan.Pairs.{
  by_id, Resolution, Resolved, kept, dropped, resolve_found, resolve_parity, resolve_case,
  add_resolution, resolve_pairs, with_url,
}
use apiwright.Catalog.Plan.Reference.{planned_cases}

-- What a resolution keeps has the predicate.
abbrev pub Keeps : (TestCase → Type 0) → Resolution → Type 0
Keeps P (kept c) = P c
Keeps P (dropped warning) = Unit

add :
    (Q : TestCase → Type 0) (r : Resolution) (rest : Resolved)
    → Keeps Q r
    → All Q rest.cases
    → All Q (add_resolution r rest).cases
unfolding add_resolution
add Q (kept c) rest k h = (k, h)
add Q (dropped warning) rest k h = h

pub resolve_pairs-All :
    (P Q : TestCase → Type 0) (endpoints : List CanonicalEndpoint) (cases : List TestCase)
    → ((c : TestCase) → P c → Keeps Q (resolve_case endpoints c c.params))
    → All P cases
    → All Q (resolve_pairs endpoints cases).cases
unfolding resolve_pairs
resolve_pairs-All P Q endpoints [] f h = tt
resolve_pairs-All P Q endpoints (c ∷ cases) f (p, h) =
    add Q (resolve_case endpoints c c.params) (resolve_pairs endpoints cases) (f c p)
      (resolve_pairs-All P Q endpoints cases f h)

module _ (endpoints : List CanonicalEndpoint) where
  -- The endpoint of the case, where it is found, has this URL.
  abbrev pub HasUrl : Option CanonicalEndpoint → String → Type 0
  HasUrl none url = Unit
  HasUrl (some endpoint) url = endpoint.url ≡ url

  abbrev pub ArePaired : TestCase → TestCaseParams → Type 0
  ArePaired c (head_get_parity_params paired_id url) =
      (paired : CanonicalEndpoint) × (by_id endpoints paired_id ≡ some paired)
      × (paired.method ≡ HttpMethod.get)
      × (paired.url ≡ url)
      × HasUrl (by_id endpoints c.endpoint_id) url
  ArePaired c _ = Unit

  abbrev pub IsPaired : TestCase → Type 0
  IsPaired c = ArePaired c c.params

  is_get : (m : HttpMethod) → str_eq (method_text m) "GET" ≡ true → m ≡ HttpMethod.get
  is_get HttpMethod.get h = refl
  is_get HttpMethod.post h = absurd (false≢true h)
  is_get HttpMethod.put h = absurd (false≢true h)
  is_get HttpMethod.patch h = absurd (false≢true h)
  is_get HttpMethod.delete h = absurd (false≢true h)
  is_get HttpMethod.head h = absurd (false≢true h)
  is_get HttpMethod.options h = absurd (false≢true h)

  resolve_found-IsPaired :
      (c : TestCase) (paired_id : String) (paired : CanonicalEndpoint)
      (head_endpoint : Option CanonicalEndpoint)
      → by_id endpoints paired_id ≡ some paired
      → by_id endpoints c.endpoint_id ≡ head_endpoint
      → Keeps IsPaired (resolve_found c paired_id paired head_endpoint)
  unfolding resolve_found with_url
  resolve_found-IsPaired c paired_id paired none e n =
      elim (Bool-cases (str_eq (method_text paired.method) "GET")) [
        | inr m ↦ rw (m, resolve_found) tt
        | inl m ↦ rw (m, resolve_found) (paired, e, is_get paired.method m, refl, rw n tt)
      ]
  resolve_found-IsPaired c paired_id paired (some h) e n =
      elim (Bool-cases (str_eq (method_text paired.method) "GET")) [
        | inr m ↦ rw (m, resolve_found) tt
        | inl m ↦ elim (Bool-cases (str_eq paired.url h.url)) [
          | inr u ↦ rw (m, u, resolve_found) tt
          | inl u ↦
              rw (m, u, resolve_found)
                (
                  paired,
                  e,
                  is_get paired.method m,
                  refl,
                  rw n (sym ((eq_iff paired.url h.url).0 u)),
                )
        ]
      ]

  resolve_parity-IsPaired :
      (c : TestCase) (paired_id : String) → Keeps IsPaired (resolve_parity endpoints c paired_id)
  unfolding resolve_parity
  resolve_parity-IsPaired c paired_id = elim (Option-cases (by_id endpoints paired_id)) [
    | inl e ↦ rw (e, resolve_parity) tt
    | inr (paired, e) ↦
        rw (e, resolve_parity)
          (resolve_found-IsPaired c paired_id paired (by_id endpoints c.endpoint_id) e refl)
  ]

  resolve_case-IsPaired :
      (c : TestCase) (params : TestCaseParams)
      → c.params ≡ params
      → Keeps IsPaired (resolve_case endpoints c params)
  unfolding resolve_case
  resolve_case-IsPaired c (head_get_parity_params paired_id url) e =
      resolve_parity-IsPaired c paired_id
  resolve_case-IsPaired c _ e = subst (λ q. ArePaired c q) (sym e) tt

All_unit : (cases : List TestCase) → All (λ c. Unit {0}) cases
All_unit [] = tt
All_unit (c ∷ cases) = (tt, All_unit cases)

module _ (validate_endpoint : CanonicalEndpoint → Validation) (generators : List TestCaseGenerator)
    (skip_globally : List String) where
  -- Every HEAD/GET parity case of a plan is paired with the endpoint of its paired identifier: a GET
  -- endpoint whose URL is the one in the case, which is the URL of the case's own endpoint too, where
  -- that is found.
  pub generate-IsPaired :
      (endpoints : List CanonicalEndpoint)
      → All
          (IsPaired endpoints)
          (generate validate_endpoint generators skip_globally endpoints).cases
  generate-IsPaired endpoints =
      let cases = planned_cases validate_endpoint generators skip_globally endpoints in
      rw (generate-cases validate_endpoint generators skip_globally endpoints) (
        resolve_pairs-All (λ c. Unit {0}) (IsPaired endpoints) endpoints cases
          (λ c h. resolve_case-IsPaired endpoints c c.params refl) (All_unit cases))
