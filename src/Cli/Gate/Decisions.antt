-- ===== src/Cli/Gate/Decisions.antt =====
-- When the gate lets a run start, and when it asks.
use apiwright.Prelude.{
  ◌≡◌, ◌↔◌, ◌⊎◌, refl, ap, inl, inr, Bool, true, false, not, Bool-cases, Option, none, some, List,
  [], ◌∷◌, String, eq_iff, any, All, arith,
}
use apiwright.Catalog.Markers.{TestMarker, smoke, regression, e2e, same_marker}
use apiwright.Cli.Gate.{allowed, Env, evaluate, allow_env_var, prod_prompt, is_value}

is_value_iff : (o : Option String) (v : String) → (is_value o v ≡ true) ↔ (o ≡ some v)
is_value_iff none v = (λ e. cc, λ e. cc)
is_value_iff (some s) v = (λ e. ap some ((eq_iff s v).0 e), λ e. (eq_iff s v).1 (cc))

any_non_smoke :
    (markers : List TestMarker)
    → (any (λ m. not (same_marker m smoke)) markers ≡ false) ↔ All (λ m. m ≡ smoke) markers
any_non_smoke [] = (λ _. tt, λ _. refl)
any_non_smoke (smoke ∷ ms) =
    let (to, from) = any_non_smoke ms in (λ e. (refl, to e), λ (h, hs). from hs)
any_non_smoke (regression ∷ ms) = (λ e. cc, λ (h, hs). cc)
any_non_smoke (e2e ∷ ms) = (λ e. cc, λ (h, hs). cc)

module _ (is_ci : Env → Bool) (env : Env) (answer : String) (prod : Bool)
    (markers : List TestMarker) (allow_flag : Bool) where
  -- What has to hold for the run to start.
  abbrev pub MayStart : Type 0
  MayStart =
      (prod ≡ false)
      ⊎ All (λ m. m ≡ smoke) markers
      ⊎ ((is_ci env ≡ true) × (allow_flag ≡ true) × (env allow_env_var ≡ some "true"))
      ⊎ ((is_ci env ≡ false) × (answer ≡ "CONFIRM"))

  -- The run may start exactly when the environment is not production, or every marker is smoke, or
  -- in CI both the flag is given and ALLOW_PROD_DESTRUCTIVE is exactly "true", or outside CI the
  -- user typed exactly CONFIRM.
  pub evaluate-allowed_iff :
      ((evaluate is_ci env answer prod markers allow_flag).0 ≡ allowed) ↔ MayStart
  unfolding evaluate
  evaluate-allowed_iff = (
    λ e. ground (
      arith,
      any_non_smoke markers,
      is_value_iff (env allow_env_var) "true",
      eq_iff answer "CONFIRM",
    ),
    λ h. ground (
      arith,
      any_non_smoke markers,
      is_value_iff (env allow_env_var) "true",
      eq_iff answer "CONFIRM",
    ),
  )

  -- The user is asked, and with this question, exactly when the environment is production, some
  -- marker is not smoke and the run is not in CI; so the prompt never blocks a CI job.
  pub evaluate-asked_iff :
      ((evaluate is_ci env answer prod markers allow_flag).1 ≡ some prod_prompt)
      ↔ ((prod ≡ true) × (¬ (All (λ m. m ≡ smoke) markers)) × (is_ci env ≡ false))
  unfolding evaluate
  evaluate-asked_iff = (
    λ e. (ground arith, λ h. ground (arith, (any_non_smoke markers).1 h), ground arith),
    λ (p, n, c). elim (Bool-cases (any (λ m. not (same_marker m smoke)) markers)) [
      | inl some_other ↦ ground arith
      | inr all_smoke ↦ absurd (n ((any_non_smoke markers).0 all_smoke))
    ],
  )
