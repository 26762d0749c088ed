-- ===== src/Env/Secrets/Registered.antt =====
-- src/env/secrets.ts: the registry that the redaction reads.
use mathlib.Core.Bool.{false≢true}
use apiwright.Core.Json.{Json}
use apiwright.Env.Secrets.{
  present, resolve_names, resolve_secrets, register, secret_names, SecretResolutionResult,
  resolved_to, unresolved,
}
use apiwright.Env.Secrets.Collected.{IsReferred, secret_names-Member, secret_names_from}
use apiwright.Env.Sets.{Member, str_eq_refl, add-Member, add_Member_new}
use apiwright.Env.Templates.Lookups.{map_get-map_set, map_get-map_set_other}
use apiwright.Env.Templates.{add}
use apiwright.Prelude.{
  ◌≡◌, refl, none, ◌⊎◌, ◌≢◌, sym, ◌∙◌, ap, Option, some, List, [], ◌∷◌, String, str_eq, eq_iff,
  Bool-cases, Option-cases, List-cases, cons_ne_nil, none_ne_some, some-injective, inl, inr,
}
use apiwright.Prelude.Maps.{map_get, map_set}

abbrev pub IsResolved : SecretResolutionResult → Type 0
IsResolved (resolved_to t) = Unit
IsResolved (unresolved missing error) = ⊥

register-Member :
    (v : String) (m : List (String × String)) (registry : List String)
    → Member v registry
    → Member v (register m registry)
unfolding register
register-Member v [] registry h = h
register-Member v ((n, w) ∷ m) registry h =
    register-Member v m (add w registry) (add-Member v w registry h)

register_value :
    (name v : String) (m : List (String × String)) (registry : List String)
    → map_get name m ≡ some v
    → Member v (register m registry)
unfolding register
register_value name v [] registry h = absurd (none_ne_some h)
register_value name v ((n, w) ∷ m) registry h = elim (Bool-cases (str_eq n name)) [
  | inl e ↦
      let same = some-injective (rw e at h) in
      register-Member v m (add w registry) (rw same (add_Member_new v registry))
  | inr e ↦ register_value name v m (add w registry) (rw e at h)
]

Member_later : (p q : String) (set : List String) → Member p set → Member p (q ∷ set)
Member_later p q set m = elim (Bool-cases (str_eq p q)) [ inl e ↦ rw e refl | inr e ↦ rw e m ]

cons-head : {x y : String} {xs ys : List String} → x ∷ xs ≡ y ∷ ys → x ≡ y
cons-head e = cc

module _ (env : String → Option String) where
  resolve_names_keep :
      (name v : String) (refs : List String) (m : List (String × String))
      → present env name ≡ some v
      → map_get name m ≡ some v
      → map_get name (resolve_names env refs m).0 ≡ some v
  unfolding resolve_names
  resolve_names_keep name v [] m e h = h
  resolve_names_keep name v (n ∷ refs) m e h = elim (Option-cases (present env n)) [
    | inl d ↦ rw (d, resolve_names) (resolve_names_keep name v refs m e h)
    | inr (w, d) ↦ elim (Bool-cases (str_eq n name)) [
      | inl same ↦
          let at_name = ap (present env) ((eq_iff n name).0 same) in
          let w_v = some-injective (sym d ∙ at_name ∙ e) in
          rw (d, resolve_names)
            (resolve_names_keep name v refs (map_set n w m) e (
              ap (λ k. map_get k (map_set n w m)) (sym ((eq_iff n name).0 same))
              ∙ map_get-map_set n w m
              ∙ ap some w_v))
      | inr other ↦
          rw (d, resolve_names)
            (resolve_names_keep name v refs (map_set n w m) e
              (map_get-map_set_other name n w m other ∙ h))
    ]
  ]

  resolve_names_found :
      (name : String) (refs : List String) (m : List (String × String))
      → Member name refs
      → (resolve_names env refs m).1 ≡ []
      → (v : String) × (present env name ≡ some v)
        × (map_get name (resolve_names env refs m).0 ≡ some v)
  unfolding resolve_names
  resolve_names_found name [] m h e = absurd (false≢true h)
  resolve_names_found name (n ∷ refs) m h e = elim (Option-cases (present env n)) [
    | inl d ↦ absurd (cons_ne_nil (rw (d, resolve_names) at e))
    | inr (w, d) ↦ elim (Bool-cases (str_eq name n)) [
      | inl same ↦
          let eq = (eq_iff name n).0 same in
          let found = ap (present env) eq ∙ d in
          (
            w,
            found,
            rw (d, resolve_names)
                (resolve_names_keep name w refs (map_set n w m) found
                  (ap (λ k. map_get k (map_set n w m)) eq ∙ map_get-map_set n w m)),
          )
      | inr other ↦
          rw (d, resolve_names)
            (resolve_names_found name refs (map_set n w m) (rw other at h)
              (rw (d, resolve_names) at e))
    ]
  ]

  present_value : (name v : String) → present env name ≡ some v → (env name ≡ some v) × (v ≢ "")
  unfolding present
  present_value name v h = elim (Option-cases (env name)) [
    | inl e ↦ absurd (none_ne_some (rw (e, present) at h))
    | inr (w, e) ↦ elim (Bool-cases (str_eq w "")) [
      | inl d ↦ absurd (none_ne_some (rw (e, d, present) at h))
      | inr d ↦
          let same = some-injective (rw (e, d, present) at h) in
          (e ∙ ap some same, λ empty. absurd (false≢true (sym d ∙ (eq_iff w "").1 (same ∙ empty))))
    ]
  ]

  missing_name :
      (refs : List String) (m : List (String × String)) (name : String) (names : List String)
      → (resolve_names env refs m).1 ≡ name ∷ names
      → Member name refs × (present env name ≡ none)
  unfolding resolve_names
  missing_name [] m name names e = absurd (cons_ne_nil (sym e))
  missing_name (n ∷ refs) m name names e = elim (Option-cases (present env n)) [
    | inl d ↦
        let same = cons-head (rw (d, resolve_names) at e) in
        (rw (same, str_eq_refl name) refl, ap (present env) (sym same) ∙ d)
    | inr (w, d) ↦
        let later = missing_name refs (map_set n w m) name names (rw (d, resolve_names) at e) in
        (Member_later name n refs later.0, later.1)
  ]

  -- A name without a value: not set, or set to the empty text.
  abbrev pub IsUnset : String → Type 0
  IsUnset name = (env name ≡ none) ⊎ (env name ≡ some "")

  present-IsUnset : (name : String) → present env name ≡ none → IsUnset name
  unfolding present
  present-IsUnset name h = elim (Option-cases (env name)) [
    | inl e ↦ inl e
    | inr (w, e) ↦ elim (Bool-cases (str_eq w "")) [
      | inl d ↦ inr (e ∙ ap some ((eq_iff w "").0 d))
      | inr d ↦ absurd (none_ne_some (sym (rw (e, d, present) at h)))
    ]
  ]

  -- For each name that a text of a config refers to by `${secret.NAME}`, anywhere in the text and however
  -- deep the text lies in the config: either the secrets are resolved, the name has a value in the
  -- environment that is not empty, and this value is in the registry after the call; or they are not
  -- resolved, the registry is what it was, and some name that a text of the config refers to is not
  -- set in the environment or set to the empty text.
  pub resolve_secrets-Member :
      (sort : List String → List String) (config : Json) (registry : List String) (name : String)
      → IsReferred config name
      → let result = resolve_secrets env sort config registry in
        (IsResolved result.0 × ((v : String) × (env name ≡ some v) × (v ≢ "") × Member v result.1))
        ⊎ (¬ IsResolved result.0
            × (result.1 ≡ registry)
            × ((other : String) × IsReferred config other × IsUnset other))
  unfolding resolve_secrets present
  resolve_secrets-Member sort config registry name (text, has, refers) =
      let names = secret_names config in
      elim (List-cases (resolve_names env names []).1) [
        | inl e ↦
            let collected = secret_names-Member config text name has refers in
            let (v, p, got) = resolve_names_found name names [] collected e in
            let (q, r) = present_value name v p in
            rw (e, resolve_secrets) (inl (tt, (v, q, r, register_value name v _ registry got)))
        | inr (n, ns, e) ↦
            let (m, p) = missing_name names [] n ns e in
            rw (e, resolve_secrets)
              (inr (λ h. h, refl, (n, secret_names_from config n m, present-IsUnset n p)))
      ]
