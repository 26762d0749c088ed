-- ===== src/Runner/Retry/Policy.antt =====
-- Which setting wins, and how long the delays of a run are together.
use apiwright.Prelude.{ℕ, ◌+◌, ◌*◌, ◌^◌, ◌≡◌, refl, Option, none, some, get_or}
use apiwright.Runner.Retry.{
  BackoffStrategy, no_backoff, linear, exponential, PartialPolicy, default_retry_policy,
  resolve_retry_policy,
}

-- The first setting that is given, from the strongest to the default.
abbrev pub first_of_three {ℓ} : {A : Type ℓ} → Option A → Option A → A → A
first_of_three a b d = get_or a (get_or b d)

abbrev pub field_of {ℓ} :
    {A : Type ℓ} → (PartialPolicy → Option A) → Option PartialPolicy → Option A
field_of f none = none
field_of f (some p) = f p

-- The CLI's count wins over the endpoint's, an endpoint's field over the global one, and the default
-- fills in what neither block sets; the CLI changes no other field.
pub resolve_retry_policy_precedence :
    (global endpoint : Option PartialPolicy) (cli : Option ℕ)
    → ((resolve_retry_policy global endpoint cli).count
        ≡ get_or cli
            (first_of_three (field_of (λ p. p.count) endpoint) (field_of (λ p. p.count) global) 2))
      × ((resolve_retry_policy global endpoint cli).delay_ms
          ≡ first_of_three
              (field_of (λ p. p.delay_ms) endpoint)
              (field_of (λ p. p.delay_ms) global)
              1000)
      × ((resolve_retry_policy global endpoint cli).backoff
          ≡ first_of_three
              (field_of (λ p. p.backoff) endpoint)
              (field_of (λ p. p.backoff) global)
              linear)
      × ((resolve_retry_policy global endpoint cli).strict
          ≡ first_of_three
              (field_of (λ p. p.strict) endpoint)
              (field_of (λ p. p.strict) global)
              default_retry_policy.strict)
unfolding resolve_retry_policy
resolve_retry_policy_precedence none none cli = (refl, refl, refl, refl)
resolve_retry_policy_precedence none (some e) cli = (refl, refl, refl, refl)
resolve_retry_policy_precedence (some g) none cli = (refl, refl, refl, refl)
resolve_retry_policy_precedence (some g) (some e) cli = (refl, refl, refl, refl)

-- The closed form of the whole time slept before `k` retries.
abbrev pub IsTotal : BackoffStrategy → ℕ → ℕ → ℕ → Type 0
IsTotal no_backoff delay_ms k total = total ≡ 0
IsTotal linear delay_ms k total = 2 * total ≡ delay_ms * (k * (k + 1))
IsTotal exponential delay_ms k total = total + delay_ms ≡ delay_ms * 2 ^ k
