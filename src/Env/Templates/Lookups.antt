-- ===== src/Env/Templates/Lookups.antt =====
-- src/env/template-resolver.ts: the map of the resolved paths.
use mathlib.Core.Bool.{false≢true}
use apiwright.Core.Json.{Json}
use apiwright.Env.Sets.{Member, str_eq_refl}
use apiwright.Env.Templates.{Runtime, lookup_path, resolve_paths}
use apiwright.Prelude.{
  ◌≡◌, refl, sym, ◌∙◌, false, some, List, [], ◌∷◌, String, str_eq, eq_iff, Bool-cases, Option-cases,
  inl, inr, cons_ne_nil,
}
use apiwright.Prelude.Maps.{map_get, map_set}

pub map_get-map_set :
    {V : Type 0} (p : String) (v : V) (m : List (String × V)) → map_get p (map_set p v m) ≡ some v
map_get-map_set p v [] = rw (str_eq_refl p) refl
map_get-map_set p v ((j, w) ∷ m) = elim (Bool-cases (str_eq j p)) [
  | inl e ↦ rw (e, e) refl
  | inr e ↦ rw (e, e) (map_get-map_set p v m)
]

pub map_get-map_set_other :
    {V : Type 0} (p q : String) (v : V) (m : List (String × V))
    → str_eq q p ≡ false
    → map_get p (map_set q v m) ≡ map_get p m
map_get-map_set_other p q v [] h = rw h refl
map_get-map_set_other p q v ((j, w) ∷ m) h = elim (Bool-cases (str_eq j q)) [
  | inl e ↦ rw (e, (eq_iff j q).0 e, h) refl
  | inr e ↦ elim (Bool-cases (str_eq j p)) [
    | inl d ↦ rw (e, d) refl
    | inr d ↦ rw (e, d) (map_get-map_set_other p q v m h)
  ]
]

module _ (run : Runtime) (env : Json) where
  abbrev Right : List (String × Json) → String → Type 0
  Right m p = map_get p m ≡ lookup_path run env p

  map_set-Right :
      (p q : String) (v : Json) (m : List (String × Json))
      → lookup_path run env q ≡ some v
      → Right m p
      → Right (map_set q v m) p
  map_set-Right p q v m e h = elim (Bool-cases (str_eq q p)) [
    | inl d ↦ let same = (eq_iff q p).0 d in rw (sym same) (map_get-map_set q v m ∙ sym e)
    | inr d ↦ map_get-map_set_other p q v m d ∙ h
  ]

  resolve_paths_keep :
      (p : String) (refs : List String) (m : List (String × Json))
      → Right m p
      → map_get p (resolve_paths run env refs m).0 ≡ lookup_path run env p
  unfolding resolve_paths
  resolve_paths_keep p [] m h = h
  resolve_paths_keep p (q ∷ refs) m h = elim (Option-cases (lookup_path run env q)) [
    | inl e ↦ rw (e, resolve_paths) (resolve_paths_keep p refs m h)
    | inr (v, e) ↦
        rw (e, resolve_paths)
          (resolve_paths_keep p refs (map_set q v m) (map_set-Right p q v m e h))
  ]

  -- Where no path is missing, the map holds for each path what the environment does.
  pub resolve_paths-Right :
      (p : String) (refs : List String) (m : List (String × Json))
      → Member p refs
      → (resolve_paths run env refs m).1 ≡ []
      → map_get p (resolve_paths run env refs m).0 ≡ lookup_path run env p
  unfolding resolve_paths
  resolve_paths-Right p [] m h none_left = absurd (false≢true h)
  resolve_paths-Right p (q ∷ refs) m h none_left = elim (Option-cases (lookup_path run env q)) [
    | inl e ↦ absurd (cons_ne_nil (rw (e, resolve_paths) at none_left))
    | inr (v, e) ↦ elim (Bool-cases (str_eq p q)) [
      | inl d ↦
          let same = (eq_iff p q).0 d in
          rw (e, resolve_paths)
            (resolve_paths_keep p refs (map_set q v m) (rw same (map_get-map_set q v m ∙ sym e)))
      | inr d ↦
          rw (e, resolve_paths)
            (resolve_paths-Right p refs (map_set q v m) (rw d at h)
              (rw (e, resolve_paths) at none_left))
    ]
  ]
