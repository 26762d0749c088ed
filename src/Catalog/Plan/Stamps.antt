-- ===== src/Catalog/Plan/Stamps.antt =====
-- src/test-catalog/generators: the marker, the kind and the prod-safety tag that a case gets.
pub mod Generators
pub mod Declared
pub mod Boundary
use apiwright.Prelude.{
  ℕ, zero, suc, ◌≡◌, refl, Bool, true, false, not, Option, none, some, List, [], ◌∷◌, ◌++◌, String,
  Bool-cases, Option-cases, inl, inr, ◌⊎◌, ◌∙◌, sym, ap, All, ltb, str_eq, ◌||◌, is_some, get_or,
  arith,
}
use apiwright.Catalog.Case.{
  TestCase, TestCaseParams, kind_of, GeneratorResult, Attempt, returned, threw, ◌>>=◌,
}
use apiwright.Catalog.Endpoint.{CanonicalEndpoint}
use apiwright.Catalog.Generators.{build_case, method_prod_safe, endpoint_prod_safe}
use apiwright.Catalog.Markers.{
  TestMarker, smoke, HttpMethod, GeneratedTestType, marker_for, is_read_method, classify_prod_safe,
  same_marker,
}

-- The tag of a case: it is not safe, or the case is a smoke case and its endpoint reads or is declared
-- safe.
abbrev pub IsTagged : Bool → TestMarker → CanonicalEndpoint → Type 0
IsTagged prod_safe marker endpoint =
    (prod_safe ≡ false)
    ⊎ ((marker ≡ smoke)
        × ((is_read_method endpoint.method ≡ true) ⊎ (endpoint.prod_safe ≡ some true)))

abbrev pub IsCaseOf : CanonicalEndpoint → TestCase → Type 0
IsCaseOf endpoint c =
    (c.endpoint_id ≡ endpoint.id)
    × (c.marker ≡ marker_for c.type)
    × (kind_of c.params ≡ c.type)
    × IsTagged c.prod_safe c.marker endpoint

same_marker-smoke : (m : TestMarker) → same_marker m smoke ≡ true → m ≡ smoke
same_marker-smoke m h = ground arith

classify_lem :
    (marker : TestMarker) (endpoint : CanonicalEndpoint)
    → IsTagged (classify_prod_safe marker endpoint.method endpoint.prod_safe) marker endpoint
unfolding classify_prod_safe
classify_lem marker endpoint = ground arith

classify_none_lem :
    (marker : TestMarker) (endpoint : CanonicalEndpoint)
    → IsTagged (classify_prod_safe marker endpoint.method none) marker endpoint
unfolding classify_prod_safe
classify_none_lem marker endpoint = ground arith

-- What `IsCaseOf` says of a case built with the marker and the tag of `base`.
pub method_stamp :
    (endpoint : CanonicalEndpoint) (base type : GeneratedTestType)
    → marker_for type ≡ marker_for base
    → (endpoint.id ≡ endpoint.id)
      × (marker_for base ≡ marker_for type)
      × (type ≡ type)
      × IsTagged (method_prod_safe base endpoint) (marker_for base) endpoint
unfolding method_prod_safe
method_stamp endpoint base type m =
    (refl, sym m, refl, classify_none_lem (marker_for base) endpoint)

pub endpoint_stamp :
    (endpoint : CanonicalEndpoint) (base type : GeneratedTestType)
    → marker_for type ≡ marker_for base
    → (endpoint.id ≡ endpoint.id)
      × (marker_for base ≡ marker_for type)
      × (type ≡ type)
      × IsTagged (endpoint_prod_safe base endpoint) (marker_for base) endpoint
unfolding endpoint_prod_safe
endpoint_stamp endpoint base type m = (refl, sym m, refl, classify_lem (marker_for base) endpoint)
