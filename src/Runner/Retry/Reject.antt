-- ===== src/Runner/Retry/Reject.antt =====
-- What a retried case answers when an attempt's promise rejects.
use native.Mathlib.Numerals.{add-one}
use mathlib.Core.Path.{subst}
use mathlib.Core.List.{append_assoc}
use apiwright.Prelude.{
  ℕ, zero, suc, ◌+◌, ◌≤◌, ◌<◌, ◌≡◌, ◌∙◌, Option, none, some, List, [], ◌∷◌, ◌++◌, arith,
}
use apiwright.Runner.Retry.{
  AttemptResult, ResolvedRetryPolicy, compute_delay, attempt_loop, execute_with_retry,
}
use apiwright.Runner.Retry.Outcome.{AllFail, delays, step_fail, first_fail}

module _ {T : Type 0} (attempt_fn : ℕ → Option (AttemptResult T)) (policy : ResolvedRetryPolicy)
    (g : ℕ → AttemptResult T) where
  step_reject :
      (left n : ℕ) (attempts : List (AttemptResult T)) (sleeps : List ℕ)
      → 1 < n
      → attempt_fn n ≡ none
      → attempt_loop attempt_fn policy (suc left) n attempts sleeps
        ≡ (none, sleeps ++ compute_delay policy n ∷ [])
  unfolding attempt_loop
  step_reject left n attempts sleeps later e = ground (arith, e, later)

  first_reject : attempt_fn 1 ≡ none → execute_with_retry attempt_fn policy ≡ (none, [])
  unfolding execute_with_retry attempt_loop
  first_reject e = rw add-one (ground (arith, e))

  -- Past the first attempt: `k` failures and then a rejection.
  loop_reject_after :
      (k left n : ℕ) (attempts : List (AttemptResult T)) (sleeps : List ℕ)
      → 1 < n
      → k < left
      → ((m : ℕ) → m < n + k → attempt_fn m ≡ some (g m))
      → AllFail g n k
      → ((m : ℕ) → m ≡ n + k → attempt_fn m ≡ none)
      → attempt_loop attempt_fn policy left n attempts sleeps
        ≡ (none, sleeps ++ delays policy n (suc k))
  loop_reject_after k zero n attempts sleeps later room answers f r = absurd (omega arith)
  loop_reject_after zero (suc left) n attempts sleeps later room answers f r =
      step_reject left n attempts sleeps later (r n (omega arith))
  loop_reject_after (suc k) (suc left) n attempts sleeps later room answers f r =
      step_fail attempt_fn policy g left n attempts sleeps later (answers n (omega arith)) f.0
      ∙ loop_reject_after k left (n + 1) (attempts ++ g n ∷ [])
          (sleeps ++ compute_delay policy n ∷ []) (omega arith) (omega arith)
          (λ m e. answers m (omega arith)) f.1 (λ m e. r m (omega arith))
      ∙ simp append_assoc

  -- When an attempt within the allowed retries rejects after `k` attempts that fail, the whole run
  -- rejects: there is no outcome, the attempts that were made are lost, and the delays slept are
  -- those before each attempt but the first.
  pub execute_with_retry-reject :
      (k : ℕ)
      → k ≤ policy.count
      → ((m : ℕ) → m ≤ k → attempt_fn m ≡ some (g m))
      → AllFail g 1 k
      → attempt_fn (1 + k) ≡ none
      → execute_with_retry attempt_fn policy ≡ (none, delays policy 2 k)
  execute_with_retry-reject zero room answers f r = first_reject r
  execute_with_retry-reject (suc k) room answers (f, fs) r =
      first_fail attempt_fn policy g (answers 1 (omega arith)) f
      ∙ loop_reject_after k policy.count 2 (g 1 ∷ []) [] (omega arith) (omega arith)
          (λ m e. answers m (omega arith)) fs
          (λ m e. subst (λ n. attempt_fn n ≡ none) (omega arith) r)
