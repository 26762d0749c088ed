-- ===== src/Runner/Retry/Outcome.antt =====
-- What a retried case answers, attempt by attempt.
use native.Mathlib.Numerals.{add-one}
use mathlib.Core.Path.{subst}
use mathlib.Core.List.{append_assoc, append-nil}
use apiwright.Prelude.{
  ℕ, zero, suc, ◌+◌, ◌≤◌, ◌<◌, ◌≡◌, refl, sym, ap, ◌∙◌, Bool, true, false, Option, some, List, [],
  ◌∷◌, ◌++◌, any, if◌then◌else◌, not, arith,
}
use apiwright.Runner.Retry.{
  pass, fail, FinalStatus, passed, failed, flaky, AttemptResult, ResolvedRetryPolicy, compute_delay,
  is_pass, finish, attempt_loop, execute_with_retry,
}

module _ {T : Type 0} (g : ℕ → AttemptResult T) where
  -- The traces of the `k` attempts from attempt `n` on.
  abbrev pub traces : ℕ → ℕ → List (AttemptResult T)
  traces n zero = []
  traces n (suc k) = g n ∷ traces (n + 1) k

  abbrev pub AllFail : ℕ → ℕ → Type 0
  AllFail n zero = Unit
  AllFail n (suc k) = ((g n).verdict ≡ fail) × AllFail (n + 1) k

-- The delays before the `k` attempts from attempt `n` on.
abbrev pub delays : ResolvedRetryPolicy → ℕ → ℕ → List ℕ
delays policy n zero = []
delays policy n (suc k) = compute_delay policy n ∷ delays policy (n + 1) k

module _ {T : Type 0} (attempt_fn : ℕ → Option (AttemptResult T)) (policy : ResolvedRetryPolicy)
    (g : ℕ → AttemptResult T) where
  pub step_fail :
      (left n : ℕ) (attempts : List (AttemptResult T)) (sleeps : List ℕ)
      → 1 < n
      → attempt_fn n ≡ some (g n)
      → (g n).verdict ≡ fail
      → attempt_loop attempt_fn policy (suc left) n attempts sleeps
        ≡ attempt_loop attempt_fn policy left
            (n + 1)
            (attempts ++ g n ∷ [])
            (sleeps ++ compute_delay policy n ∷ [])
  unfolding attempt_loop
  step_fail left n attempts sleeps later e f = ground (arith, e, f, later)

  step_pass :
      (left n : ℕ) (attempts : List (AttemptResult T)) (sleeps : List ℕ)
      → 1 < n
      → attempt_fn n ≡ some (g n)
      → (g n).verdict ≡ pass
      → attempt_loop attempt_fn policy (suc left) n attempts sleeps
        ≡ (some (finish (attempts ++ g n ∷ []) policy), sleeps ++ compute_delay policy n ∷ [])
  unfolding attempt_loop
  step_pass left n attempts sleeps later e f = ground (arith, e, f, later)

  pub first_fail :
      attempt_fn 1 ≡ some (g 1)
      → (g 1).verdict ≡ fail
      → execute_with_retry attempt_fn policy
        ≡ attempt_loop attempt_fn policy policy.count 2 (g 1 ∷ []) []
  unfolding execute_with_retry
  first_fail e f = rw add-one (ground (arith, e, f))

  first_pass :
      attempt_fn 1 ≡ some (g 1)
      → (g 1).verdict ≡ pass
      → execute_with_retry attempt_fn policy ≡ (some (finish (g 1 ∷ []) policy), [])
  unfolding execute_with_retry
  first_pass e f = rw add-one (ground (arith, e, f))

  module _ (answers : (m : ℕ) → attempt_fn m ≡ some (g m)) where
    -- Past the first attempt: `k` failures and then a pass.
    loop_pass_after :
        (k left n : ℕ) (attempts : List (AttemptResult T)) (sleeps : List ℕ)
        → 1 < n
        → k < left
        → AllFail g n k
        → ((m : ℕ) → m ≡ n + k → (g m).verdict ≡ pass)
        → attempt_loop attempt_fn policy left n attempts sleeps ≡ (
          some (finish (attempts ++ traces g n (suc k)) policy),
          sleeps ++ delays policy n (suc k),
        )
    loop_pass_after k zero n attempts sleeps later room f p = absurd (omega arith)
    loop_pass_after zero (suc left) n attempts sleeps later room f p =
        step_pass left n attempts sleeps later (answers n) (p n (omega arith))
    loop_pass_after (suc k) (suc left) n attempts sleeps later room f p =
        step_fail left n attempts sleeps later (answers n) f.0
        ∙ loop_pass_after k left (n + 1) (attempts ++ g n ∷ [])
            (sleeps ++ compute_delay policy n ∷ []) (omega arith) (omega arith) f.1
            (λ m e. p m (omega arith))
        ∙ simp append_assoc

    -- Past the first attempt: every round that is left fails.
    loop-AllFail :
        (left n : ℕ) (attempts : List (AttemptResult T)) (sleeps : List ℕ)
        → 1 < n
        → AllFail g n left
        → attempt_loop attempt_fn policy left n attempts sleeps
          ≡ (some (finish (attempts ++ traces g n left) policy), sleeps ++ delays policy n left)
    unfolding attempt_loop
    loop-AllFail zero n attempts sleeps later f = simp append-nil
    loop-AllFail (suc left) n attempts sleeps later f =
        step_fail left n attempts sleeps later (answers n) f.0
        ∙ loop-AllFail left (n + 1) (attempts ++ g n ∷ []) (sleeps ++ compute_delay policy n ∷ [])
            (omega arith) f.1
        ∙ simp append_assoc

-- The status after `k` failures and a pass.
abbrev pub status_after : Bool → ℕ → FinalStatus
status_after strict zero = passed
status_after strict (suc k) = if strict then failed else flaky

abbrev pub flaky_after : Bool → ℕ → Bool
flaky_after strict zero = false
flaky_after strict (suc k) = not strict

module _ {T : Type 0} (g : ℕ → AttemptResult T) where
  any_pass :
      (k n : ℕ)
      → ((m : ℕ) → m ≡ n + k → (g m).verdict ≡ pass)
      → any (λ a. is_pass a.verdict) (traces g n (suc k)) ≡ true
  any_pass zero n p = rw (p n (omega arith))
  any_pass (suc k) n p = rw (any_pass k (n + 1) (λ m e. p m (omega arith))) (ground arith)

  no_pass : (k n : ℕ) → AllFail g n k → any (λ a. is_pass a.verdict) (traces g n k) ≡ false
  no_pass zero n f = refl
  no_pass (suc k) n (f, fs) = rw f (no_pass k (n + 1) fs)

  finish_pass :
      (k : ℕ) (policy : ResolvedRetryPolicy)
      → AllFail g 1 k
      → ((m : ℕ) → m ≡ 1 + k → (g m).verdict ≡ pass)
      → finish (traces g 1 (suc k)) policy ≡ record {
        attempts = traces g 1 (suc k);
        status = status_after policy.strict k;
        is_flaky = flaky_after policy.strict k;
      }
  unfolding finish
  finish_pass zero policy f p = rw (p 1 (omega arith))
  finish_pass (suc k) policy (f, fs) p = rw (any_pass (suc k) 1 p) (rw f (ground arith))

  finish_fail :
      (k : ℕ) (policy : ResolvedRetryPolicy)
      → AllFail g 1 k
      → finish (traces g 1 k) policy
        ≡ record { attempts = traces g 1 k; status = failed; is_flaky = false }
  unfolding finish
  finish_fail k policy f = rw (no_pass k 1 f)

module _ {T : Type 0} (attempt_fn : ℕ → Option (AttemptResult T)) (policy : ResolvedRetryPolicy)
    (g : ℕ → AttemptResult T) (answers : (m : ℕ) → attempt_fn m ≡ some (g m)) where
  -- With no rejecting attempt, the first pass within the allowed retries ends the run: the attempts
  -- are those up to the pass and no more, the delays are those before each attempt but the first,
  -- and the status is `pass` for a pass at once, else `flaky`, or `fail` in strict mode.
  pub execute_with_retry-pass :
      (k : ℕ)
      → k ≤ policy.count
      → AllFail g 1 k
      → (g (1 + k)).verdict ≡ pass
      → execute_with_retry attempt_fn policy ≡ (
        some (record {
          attempts = traces g 1 (suc k);
          status = status_after policy.strict k;
          is_flaky = flaky_after policy.strict k;
        }),
        delays policy 2 k,
      )
  execute_with_retry-pass zero room f p =
      first_pass attempt_fn policy g (answers 1) p
      ∙ ap (λ o. (some o, [])) (finish_pass g zero policy f (λ m e. rw e p))
  execute_with_retry-pass (suc k) room (f, fs) p =
      first_fail attempt_fn policy g (answers 1) f
      ∙ loop_pass_after attempt_fn policy g answers k policy.count 2 (g 1 ∷ []) [] (omega arith)
          (omega arith) fs (λ m e. subst (λ n. (g n).verdict ≡ pass) (omega arith) p)
      ∙ ap (λ o. (some o, delays policy 2 (suc k)))
          (finish_pass g (suc k) policy (f, fs)
            (λ m e. subst (λ n. (g n).verdict ≡ pass) (sym e) p))

  -- With no rejecting attempt and no pass, the status is `fail` after one attempt more than the
  -- policy's count of retries.
  pub execute_with_retry-fail :
      AllFail g 1 (suc policy.count)
      → execute_with_retry attempt_fn policy ≡ (
        some (record {
          attempts = traces g 1 (suc policy.count);
          status = failed;
          is_flaky = false;
        }),
        delays policy 2 policy.count,
      )
  execute_with_retry-fail (f, fs) =
      first_fail attempt_fn policy g (answers 1) f
      ∙ loop-AllFail attempt_fn policy g answers policy.count 2 (g 1 ∷ []) [] (omega arith) fs
      ∙ ap (λ o. (some o, delays policy 2 policy.count))
          (finish_fail g (suc policy.count) policy (f, fs))
