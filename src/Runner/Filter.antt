-- ===== src/Runner/Filter.antt =====
-- src/runner/filter/filter.ts: which planned cases a run executes. A case's fields that no filter
-- reads are carried. An absent option is `none`.
pub mod Included
mod Tests
use text.Mathlib.Text.{starts_with}
use apiwright.Prelude.{
  Bool, true, false, not, Option, none, some, List, [], ◌∷◌, String, str_eq, keep, any, get_or,
  ◌||◌, if◌then◌else◌,
}
use apiwright.Catalog.Markers.{TestMarker, expand_marker_selection, has_marker}

pub record PlannedTestCase (C : Type 0) : Type 0 where
  pub endpoint_id : String
  pub marker : TestMarker
  pub prod_safe : Bool
  pub rest : C

-- The path of the endpoint's file, and the endpoint's tags.
pub record EndpointLoadRecord : Type 0 where
  pub path : String
  pub tags : Option (List String)

pub record RunFilters : Type 0 where
  pub markers : Option (List String)
  pub path : Option String
  pub tag : Option String
  pub endpoint : Option String
  pub exclude_tags : Option (List String)

-- `tags.includes(tag)`
abbrev pub includes : List String → String → Bool
includes tags tag = any (λ t. str_eq t tag) tags

unfoldable pub passes_prod_safety : {C : Type 0} → PlannedTestCase C → Bool → Bool
passes_prod_safety c prod_env = if not prod_env then true else c.prod_safe

unfoldable pub matches_path : String → Option String → Bool
matches_path record_path none = true
matches_path record_path (some prefix) =
    if str_eq prefix "" then true else starts_with record_path prefix

unfoldable pub matches_tag : Option (List String) → Option String → Bool
matches_tag tags none = true
matches_tag none (some tag) = str_eq tag ""
matches_tag (some tags) (some tag) = if str_eq tag "" then true else includes tags tag

unfoldable pub matches_endpoint : String → Option String → Bool
matches_endpoint endpoint_id none = true
matches_endpoint endpoint_id (some wanted) =
    if str_eq wanted "" then true else str_eq endpoint_id wanted

-- The loop over the excluded tags.
unfoldable pub none_included : List String → List String → Bool
none_included tags [] = true
none_included tags (ex ∷ exclude) = if includes tags ex then false else none_included tags exclude

-- An empty list of tags or of exclusions returns `true` before the loop, as the loop would.
unfoldable pub passes_exclude_tags : Option (List String) → Option (List String) → Bool
unfolding none_included
passes_exclude_tags tags none = true
passes_exclude_tags tags (some []) = true
passes_exclude_tags none (some (ex ∷ exclude)) = true
passes_exclude_tags (some []) (some (ex ∷ exclude)) = true
passes_exclude_tags (some (t ∷ tags)) (some (ex ∷ exclude)) =
    none_included (t ∷ tags) (ex ∷ exclude)

module _ {C : Type 0} (endpoints : String → Option EndpointLoadRecord) (filters : RunFilters)
    (prod_env : Bool) where
  -- The chain of early returns in the callback of `filter`, once the endpoint is found.
  unfoldable pub passes_found : List TestMarker → PlannedTestCase C → EndpointLoadRecord → Bool
  unfolding passes_prod_safety matches_path matches_tag matches_endpoint passes_exclude_tags
  passes_found marker_set c found =
      if not (has_marker marker_set c.marker)
      then false
      else if not (passes_prod_safety c prod_env)
      then false
      else if not (matches_path found.path filters.path)
      then false
      else if not (matches_tag found.tags filters.tag)
      then false
      else if not (matches_endpoint c.endpoint_id filters.endpoint)
      then false
      else passes_exclude_tags found.tags filters.exclude_tags

  unfoldable pub passes : List TestMarker → PlannedTestCase C → Bool
  unfolding passes_found
  passes marker_set c = elim (endpoints c.endpoint_id) [
    | none ↦ false
    | some found ↦ passes_found marker_set c found
  ]

  unfoldable pub apply_filters : List (PlannedTestCase C) → List (PlannedTestCase C)
  unfolding passes expand_marker_selection
  apply_filters cases =
      let marker_set = expand_marker_selection (get_or filters.markers ("smoke" ∷ [])) in
      keep (passes marker_set) cases
