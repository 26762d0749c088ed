-- ===== src/Runner/Retry.antt =====
-- src/runner/execute/retry-policy.ts: attempts of one case, their delays and the final status.
-- Times are whole milliseconds. An attempt's result is its verdict and a trace of any type, which
-- is carried and not looked into. `attempt_fn n` is what the n-th attempt answers, `none` when its
-- promise rejects, and the delays that were slept are returned beside the outcome.
pub mod Outcome
pub mod Reject
pub mod Policy
mod Tests
use apiwright.Prelude.{
  ℕ, zero, suc, ◌+◌, ◌-◌, ◌*◌, ◌^◌, Bool, true, false, Option, none, some, List, [], ◌∷◌, ◌++◌, ltb,
  any, get_or, if◌then◌else◌, not, is_some,
}

-- `no_backoff` is "none".
pub data BackoffStrategy : Type 0 where
  no_backoff linear exponential : BackoffStrategy

pub data Verdict : Type 0 where
  pass fail : Verdict

pub data FinalStatus : Type 0 where
  passed failed flaky : FinalStatus

pub record AttemptResult (T : Type 0) : Type 0 where
  pub verdict : Verdict
  pub trace : T

pub record ResolvedRetryPolicy : Type 0 where
  pub count : ℕ
  pub delay_ms : ℕ
  pub backoff : BackoffStrategy
  pub strict : Bool

pub record RetryOutcome (T : Type 0) : Type 0 where
  pub attempts : List (AttemptResult T)
  pub status : FinalStatus
  pub is_flaky : Bool

abbrev pub default_retry_policy : ResolvedRetryPolicy
default_retry_policy = record { count = 2; delay_ms = 1000; backoff = linear; strict = false }

unfoldable pub compute_delay : ResolvedRetryPolicy → ℕ → ℕ
compute_delay policy attempt = elim policy.backoff [
  | no_backoff ↦ 0
  | exponential ↦ policy.delay_ms * 2 ^ (attempt - 2)
  | linear ↦ policy.delay_ms * (attempt - 1)
]

abbrev pub is_pass : Verdict → Bool
is_pass pass = true
is_pass fail = false

module _ {T : Type 0} where
  abbrev pub first_attempt_verdict : List (AttemptResult T) → Verdict
  first_attempt_verdict [] = fail
  first_attempt_verdict (a ∷ _) = a.verdict

  unfoldable pub finish : List (AttemptResult T) → ResolvedRetryPolicy → RetryOutcome T
  finish attempts policy =
      if not (any (λ a. is_pass a.verdict) attempts)
      then record { attempts = attempts; status = failed; is_flaky = false }
      else if is_pass (first_attempt_verdict attempts)
      then record { attempts = attempts; status = passed; is_flaky = false }
      else if policy.strict
      then record { attempts = attempts; status = failed; is_flaky = false }
      else record { attempts = attempts; status = flaky; is_flaky = true }

  module _ (attempt_fn : ℕ → Option (AttemptResult T)) (policy : ResolvedRetryPolicy) where
    -- `if (n > 1) await sleep(…)`
    abbrev pub slept : ℕ → List ℕ → List ℕ
    slept n sleeps = if ltb 1 n then sleeps ++ compute_delay policy n ∷ [] else sleeps

    -- The rounds of the `for` loop that are left, from attempt `n` on.
    pub attempt_loop : ℕ → ℕ → List (AttemptResult T) → List ℕ → Option (RetryOutcome T) × List ℕ
    attempt_loop zero n attempts sleeps = (some (finish attempts policy), sleeps)
    attempt_loop (suc left) n attempts sleeps = elim (attempt_fn n) [
      | none ↦ (none, slept n sleeps)
      | some trace ↦ elim trace.verdict [
        | pass ↦ (some (finish (attempts ++ trace ∷ []) policy), slept n sleeps)
        | fail ↦ attempt_loop left (n + 1) (attempts ++ trace ∷ []) (slept n sleeps)
      ]
    ]

    unfoldable pub execute_with_retry : Option (RetryOutcome T) × List ℕ
    unfolding attempt_loop
    execute_with_retry = attempt_loop (policy.count + 1) 1 [] []

-- A policy with every field optional, `Partial<ResolvedRetryPolicy>`: `none` is an absent key or
-- one that holds `undefined`, which `strip_undefined` leaves out.
pub record PartialPolicy : Type 0 where
  pub count : Option ℕ
  pub delay_ms : Option ℕ
  pub backoff : Option BackoffStrategy
  pub strict : Option Bool

-- `Object.assign(base, stripUndefined(o))`
unfoldable pub assign : ResolvedRetryPolicy → PartialPolicy → ResolvedRetryPolicy
assign base o = record {
  count = get_or o.count base.count;
  delay_ms = get_or o.delay_ms base.delay_ms;
  backoff = get_or o.backoff base.backoff;
  strict = get_or o.strict base.strict;
}

abbrev assign_if : ResolvedRetryPolicy → Option PartialPolicy → ResolvedRetryPolicy
assign_if base none = base
assign_if base (some o) = assign base o

unfoldable pub resolve_retry_policy :
    Option PartialPolicy → Option PartialPolicy → Option ℕ → ResolvedRetryPolicy
unfolding assign
resolve_retry_policy global endpoint_override cli_override =
    let base = assign_if (assign_if default_retry_policy global) endpoint_override in
    record base { count = get_or cli_override base.count }
