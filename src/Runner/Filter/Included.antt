-- ===== src/Runner/Filter/Included.antt =====
-- Which cases a run includes, and what production lets through.
use text.Mathlib.Text.{starts_with}
use mathlib.Core.Bool.{false≢true}
use apiwright.Prelude.{
  ◌≡◌, refl, sym, ◌∙◌, ◌⊎◌, ◌↔◌, inl, inr, Bool, true, false, Bool-cases, Option-cases, Option,
  keep, All, none, some, List, [], ◌∷◌, String, eq_iff, arith, get_or,
}
use apiwright.Catalog.Markers.{
  TestMarker, smoke, HttpMethod, is_read_method, classify_prod_safe, expand_marker_selection,
}
use apiwright.Catalog.Selection.{selected, expand_marker_selection-selected, classify_prod_safe_iff}
use apiwright.Runner.Filter.{
  PlannedTestCase, EndpointLoadRecord, RunFilters, includes, matches_path, matches_tag,
  matches_endpoint, none_included, passes_exclude_tags, passes_found, passes, apply_filters,
}

-- An option that is absent or empty filters nothing; any other has to hold.
abbrev pub Wanted : Option String → (String → Type 0) → Type 0
Wanted none P = Unit {0}
Wanted (some s) P = (s ≡ "") ⊎ P s

abbrev pub tag_list : Option (List String) → List String
tag_list o = get_or o []

-- What the documentation asks of an included case.
pub record IsIncluded {C : Type 0} (filters : RunFilters) (prod_env : Bool) (c : PlannedTestCase C)
    (found : EndpointLoadRecord) : Type 0 where
  pub marked : selected (get_or filters.markers ("smoke" ∷ [])) c.marker ≡ true
  pub safe : (prod_env ≡ false) ⊎ (c.prod_safe ≡ true)
  pub path : Wanted filters.path (λ prefix. starts_with found.path prefix ≡ true)
  pub tag : Wanted filters.tag (λ tag. includes (tag_list found.tags) tag ≡ true)
  pub endpoint : Wanted filters.endpoint (λ wanted. c.endpoint_id ≡ wanted)
  pub kept : All (λ ex. includes (tag_list found.tags) ex ≡ false) (tag_list filters.exclude_tags)

matches_path_iff :
    (path : String) (o : Option String)
    → (matches_path path o ≡ true) ↔ Wanted o (λ prefix. starts_with path prefix ≡ true)
unfolding matches_path
matches_path_iff path none = (λ _. tt, λ _. refl)
matches_path_iff path (some s) =
    (λ e. ground (arith, eq_iff s ""), λ h. ground (arith, eq_iff s ""))

matches_tag_iff :
    (tags : Option (List String)) (o : Option String)
    → (matches_tag tags o ≡ true) ↔ Wanted o (λ tag. includes (tag_list tags) tag ≡ true)
unfolding matches_tag
matches_tag_iff tags none = (λ _. tt, λ _. refl)
matches_tag_iff none (some s) = (λ e. ground (arith, eq_iff s ""), λ h. ground (arith, eq_iff s ""))
matches_tag_iff (some tags) (some s) =
    (λ e. ground (arith, eq_iff s ""), λ h. ground (arith, eq_iff s ""))

matches_endpoint_iff :
    (id : String) (o : Option String)
    → (matches_endpoint id o ≡ true) ↔ Wanted o (λ wanted. id ≡ wanted)
unfolding matches_endpoint
matches_endpoint_iff id none = (λ _. tt, λ _. refl)
matches_endpoint_iff id (some s) =
    (λ e. ground (arith, eq_iff s "", eq_iff id s), λ h. ground (arith, eq_iff s "", eq_iff id s))

none_included_iff :
    (tags exclude : List String)
    → (none_included tags exclude ≡ true) ↔ All (λ ex. includes tags ex ≡ false) exclude
unfolding none_included
none_included_iff tags [] = (λ _. tt, λ _. refl)
none_included_iff tags (ex ∷ exclude) =
    let (to, from) = none_included_iff tags exclude in
    (λ e. (ground arith, to (ground arith)), λ (h, hs). rw h (from hs))

no_tags : (exclude : List String) → All (λ ex. includes [] ex ≡ false) exclude
no_tags [] = tt
no_tags (ex ∷ exclude) = (refl, no_tags exclude)

passes_exclude_tags_iff :
    (tags o : Option (List String))
    → (passes_exclude_tags tags o ≡ true)
      ↔ All (λ ex. includes (tag_list tags) ex ≡ false) (tag_list o)
unfolding passes_exclude_tags
passes_exclude_tags_iff tags none = (λ _. tt, λ _. refl)
passes_exclude_tags_iff tags (some []) = (λ _. tt, λ _. refl)
passes_exclude_tags_iff none (some (ex ∷ exclude)) = (λ _. no_tags (ex ∷ exclude), λ _. refl)
passes_exclude_tags_iff (some []) (some (ex ∷ exclude)) = (λ _. no_tags (ex ∷ exclude), λ _. refl)
passes_exclude_tags_iff (some (t ∷ tags)) (some (ex ∷ exclude)) =
    none_included_iff (t ∷ tags) (ex ∷ exclude)

-- The expanded selection of a run.
abbrev markers_of : RunFilters → List TestMarker
markers_of filters = expand_marker_selection (get_or filters.markers ("smoke" ∷ []))

module _ {C : Type 0} (endpoints : String → Option EndpointLoadRecord) (filters : RunFilters)
    (prod_env : Bool) where
  passes_found_sound :
      (c : PlannedTestCase C) (found : EndpointLoadRecord)
      → passes_found endpoints filters prod_env (markers_of filters) c found ≡ true
      → IsIncluded filters prod_env c found
  unfolding passes_found
  passes_found_sound c found e = record {
    marked = sym (expand_marker_selection-selected _ c.marker) ∙ ground arith;
    safe = ground arith;
    path = (matches_path_iff found.path filters.path).0 (ground arith);
    tag = (matches_tag_iff found.tags filters.tag).0 (ground arith);
    endpoint = (matches_endpoint_iff c.endpoint_id filters.endpoint).0 (ground arith);
    kept = (passes_exclude_tags_iff found.tags filters.exclude_tags).0 (ground arith);
  }

  passes_found_complete :
      (c : PlannedTestCase C) (found : EndpointLoadRecord)
      → IsIncluded filters prod_env c found
      → passes_found endpoints filters prod_env (markers_of filters) c found ≡ true
  unfolding passes_found
  passes_found_complete c found h = ground (
    arith,
    expand_marker_selection-selected (get_or filters.markers ("smoke" ∷ [])) c.marker,
    h.marked,
    h.safe,
    (matches_path_iff found.path filters.path).1 h.path,
    (matches_tag_iff found.tags filters.tag).1 h.tag,
    (matches_endpoint_iff c.endpoint_id filters.endpoint).1 h.endpoint,
    (passes_exclude_tags_iff found.tags filters.exclude_tags).1 h.kept,
  )

  passes_iff :
      (c : PlannedTestCase C)
      → (passes endpoints filters prod_env (markers_of filters) c ≡ true) ↔ (
          (found : EndpointLoadRecord) × (endpoints c.endpoint_id ≡ some found)
          × IsIncluded filters prod_env c found)
  unfolding passes
  passes_iff c = elim (Option-cases (endpoints c.endpoint_id)) [
    | inl missing ↦ (λ e. absurd (false≢true (rw (missing, passes) at e)), λ (found, e, h). cc)
    | inr (found, e) ↦ (
      λ p. (found, e, passes_found_sound c found (ground arith)),
      λ (other, e', h).
          let same : other ≡ found = cc in
          rw (e, passes) (passes_found_complete c found (rw same at h)),
    )
  ]

  pub apply_filters-IsIncluded :
      (p : PlannedTestCase C → Bool) × ((cases : List (PlannedTestCase C))
        → apply_filters endpoints filters prod_env cases ≡ keep p cases)
      × ((c : PlannedTestCase C)
          → (p c ≡ true) ↔ (
              (found : EndpointLoadRecord) × (endpoints c.endpoint_id ≡ some found)
              × IsIncluded filters prod_env c found))
  unfolding apply_filters
  apply_filters-IsIncluded =
      (passes endpoints filters prod_env (markers_of filters), λ cases. refl, passes_iff)

module _ {C : Type 0} where
  pub All-keep_passed :
      (P Q : PlannedTestCase C → Type 0) (p : PlannedTestCase C → Bool)
      (cases : List (PlannedTestCase C))
      → ((c : PlannedTestCase C) → p c ≡ true → Q c → P c)
      → All Q cases
      → All P (keep p cases)
  All-keep_passed P Q p [] h _ = tt
  All-keep_passed P Q p (c ∷ cases) h (q, qs) = elim (Bool-cases (p c)) [
    | inl e ↦ rw e (h c e q, All-keep_passed P Q p cases h qs)
    | inr e ↦ rw e (All-keep_passed P Q p cases h qs)
  ]

  -- Against production, whatever the filters and the selected markers are, every case that runs is a
  -- smoke case, and its method only reads or its endpoint declares `prod_safe: true`, if the cases
  -- carry the tag of `classifyProdSafe`. So no regression case ever runs there.
  pub apply_filters-prod :
      (endpoints : String → Option EndpointLoadRecord) (filters : RunFilters)
      (method : PlannedTestCase C → HttpMethod) (flag : PlannedTestCase C → Option Bool)
      (cases : List (PlannedTestCase C))
      → All (λ c. c.prod_safe ≡ classify_prod_safe c.marker (method c) (flag c)) cases
      → All
          (λ c. (c.marker ≡ smoke) × ((is_read_method (method c) ≡ true) ⊎ (flag c ≡ some true)))
          (apply_filters endpoints filters true cases)
  apply_filters-prod endpoints filters method flag cases stamped =
      let (p, same, p_iff) = apply_filters-IsIncluded endpoints filters true in
      rw (same cases) (
        All-keep_passed _ _ p cases
          (λ c e tagged.
            (classify_prod_safe_iff c.marker (method c) (flag c)).0
              (sym tagged ∙ ground (arith, ((p_iff c).0 e).2.safe)))
          stamped)
