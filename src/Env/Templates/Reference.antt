-- ===== src/Env/Templates/Reference.antt =====
-- What a resolved config is, told without the set of paths and without the map of
-- src/env/template-resolver.ts: each token asks the environment itself.
use apiwright.Core.Json.{Json}
use apiwright.Env.Sets.{Member, Tokens}
use apiwright.Env.Templates.Direct.{map_tree-agree}
use apiwright.Env.Templates.Lookups.{resolve_paths-Right}
use apiwright.Env.Templates.{
  Runtime, Piece, plain, token, pieces, lookup_path, stringify, match_token, interpolate,
  resolve_string, resolve_paths, referenced, resolve_templates, resolved_to, missing_error,
  TemplateResolutionResult,
}
use apiwright.Env.Tree.{map_tree}
use apiwright.Prelude.{
  zero, ◌≡◌, refl, ◌∙◌, ap, Option, none, some, List, [], ◌∷◌, String, str_eq, Bool-cases,
  Option-cases, inl, inr, if◌then◌else◌, template, List-cases, eq_iff, none_ne_some,
}
use apiwright.Prelude.Maps.{map_get}

module _ (run : Runtime) (env : Json) where
  unfoldable direct_text : List Piece → String
  direct_text [] = ""
  direct_text (plain c ∷ ps) = String.◌∷◌ c (direct_text ps)
  direct_text (token path ∷ ps) =
      template (stringify run (lookup_path run env path) ∷ direct_text ps ∷ [])

  unfoldable direct : String → Option Json
  unfolding direct_text
  direct input =
      let text = some (Json.string (direct_text (pieces zero input))) in
      elim (match_token input) [
        | none ↦ text
        | some found ↦ if str_eq found.1 "" then lookup_path run env found.0 else text
      ]

  unfoldable missing : List String → List String
  missing [] = []
  missing (path ∷ rest) = elim (lookup_path run env path) [
    | none ↦ template ("env." ∷ path ∷ []) ∷ missing rest
    | some v ↦ missing rest
  ]

  unfoldable pub direct_result : Json → TemplateResolutionResult
  unfolding direct missing
  direct_result config = elim (missing (referenced config)) [
    | [] ↦ resolved_to (map_tree direct config)
    | m ∷ ms ↦ missing_error (run.sort (m ∷ ms))
  ]

  resolve_paths-missing :
      (refs : List String) (m : List (String × Json))
      → (resolve_paths run env refs m).1 ≡ missing refs
  unfolding resolve_paths missing
  resolve_paths-missing [] m = refl
  resolve_paths-missing (p ∷ refs) m = elim (Option-cases (lookup_path run env p)) [
    | inl e ↦
        rw (e, resolve_paths, missing)
          (ap (λ ms. template ("env." ∷ p ∷ []) ∷ ms) (resolve_paths-missing refs m))
    | inr (v, e) ↦ rw (e, resolve_paths, missing) (resolve_paths-missing refs _)
  ]

  module _ (m : List (String × Json)) (final : List String)
      (right : (p : String) → Member p final → map_get p m ≡ lookup_path run env p) where
    interpolate-direct : (ps : List Piece) → Tokens ps final → interpolate run ps m ≡ direct_text ps
    unfolding interpolate direct_text
    interpolate-direct [] h = refl
    interpolate-direct (plain c ∷ ps) h = ap (String.◌∷◌ c) (interpolate-direct ps h)
    interpolate-direct (token p ∷ ps) (a, h) = rw (right p a, interpolate-direct ps h) refl

    whole_Member :
        (input path : String)
        → match_token input ≡ some (path, "")
        → Tokens (pieces zero input) final
        → Member path final
    unfolding pieces match_token
    whole_Member String.[] path e h = absurd (none_ne_some e)
    whole_Member (String.◌∷◌ c s) path e h = (rw (e, pieces) at h).0

    resolve_string-direct :
        (text : String) → Tokens (pieces zero text) final → resolve_string run m text ≡ direct text
    unfolding resolve_string direct
    resolve_string-direct text h = elim (Option-cases (match_token text)) [
      | inl e ↦ rw (e, resolve_string, direct, interpolate-direct (pieces zero text) h) refl
      | inr ((path, rest), e) ↦ elim (Bool-cases (str_eq rest "")) [
        | inl d ↦
            let whole =
              whole_Member text path (e ∙ ap (λ r. some (path, r)) ((eq_iff rest "").0 d)) h in
            rw (e, d, resolve_string, direct) (right path whole)
        | inr d ↦ rw (e, d, resolve_string, direct, interpolate-direct (pieces zero text) h) refl
      ]
    ]

  -- Resolving the references of a config first collects all paths, looks each of them up once and then
  -- rebuilds the tree from the map. The result is the one in which each token asks the environment
  -- itself: an error with all the missing paths, or the tree with a value for each token.
  pub resolve_templates-direct_result :
      (config : Json) → resolve_templates run config env ≡ direct_result config
  unfolding resolve_templates direct_result
  resolve_templates-direct_result config =
      let refs = referenced config in
      let same = resolve_paths-missing refs [] in
      elim (List-cases (missing refs)) [
        | inl e ↦
            let right = λ (p : String) (h : Member p refs).
              resolve_paths-Right run env p refs [] h (same ∙ e) in
            rw (same, e, resolve_templates, direct_result)
              (ap resolved_to (
                map_tree-agree (resolve_string run (resolve_paths run env refs []).0) direct refs
                  (resolve_string-direct (resolve_paths run env refs []).0 refs right) config []
                  (λ p h. h)))
        | inr (p, ps, e) ↦ rw (same, e, resolve_templates, direct_result) refl
      ]
