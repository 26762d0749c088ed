-- ===== src/Runner/Retry/Tests.antt =====
-- Runs of the retry loop.
use apiwright.Prelude.{
  Option, ◌≤◌, ℕ, ◌+◌, ◌≡◌, refl, true, false, none, some, [], ◌∷◌, arith, leb, if◌then◌else◌, sum,
}
use apiwright.Runner.Retry.{
  exponential, Verdict, AttemptResult, ResolvedRetryPolicy, PartialPolicy, failed, flaky,
  default_retry_policy, execute_with_retry, attempt_loop, finish, compute_delay,
}
use apiwright.Runner.Retry.Outcome.{
  traces, delays, status_after, flaky_after, execute_with_retry-pass, execute_with_retry-fail,
}
use apiwright.Runner.Retry.Reject.{execute_with_retry-reject}

-- The attempts before the second one fail.
abbrev second_passes : ℕ → AttemptResult ℕ
second_passes n = record {
  verdict = if leb 2 n then Verdict.pass else Verdict.fail;
  trace = 100 + n;
}

abbrev never_passes : ℕ → AttemptResult ℕ
never_passes n = record { verdict = Verdict.fail; trace = 100 + n }

execute_with_retry_flaky : execute_with_retry (λ n. some (second_passes n)) default_retry_policy ≡ (
  some (record {
    attempts = second_passes 1 ∷ second_passes 2 ∷ [];
    status = flaky;
    is_flaky = true;
  }),
  1000 ∷ [],
)
unfolding execute_with_retry attempt_loop finish compute_delay
execute_with_retry_flaky = refl

execute_with_retry-pass_example :
    execute_with_retry (λ n. some (second_passes n)) default_retry_policy ≡ (
      some (record {
        attempts = traces second_passes 1 2;
        status = status_after false 1;
        is_flaky = flaky_after false 1;
      }),
      delays default_retry_policy 2 1,
    )
execute_with_retry-pass_example =
    execute_with_retry-pass (λ n. some (second_passes n)) default_retry_policy second_passes
      (λ m. refl) 1 (omega arith) (refl, tt) refl

execute_with_retry-fail_example :
    execute_with_retry (λ n. some (never_passes n)) default_retry_policy ≡ (
      some (record { attempts = traces never_passes 1 3; status = failed; is_flaky = false }),
      delays default_retry_policy 2 2,
    )
execute_with_retry-fail_example =
    execute_with_retry-fail (λ n. some (never_passes n)) default_retry_policy never_passes
      (λ m. refl) (refl, (refl, (refl, tt)))

abbrev doubling : ResolvedRetryPolicy
doubling = record { count = 3; delay_ms = 1000; backoff = exponential; strict = false }

-- 1000, 2000 and 4000 milliseconds.
delays-doubling : sum (delays doubling 2 3) ≡ 7000
unfolding compute_delay
delays-doubling = refl

abbrev slow : PartialPolicy
slow = record { count = some 4; delay_ms = some 9000; backoff = none; strict = none }

abbrev strict_once : PartialPolicy
strict_once = record { count = some 1; delay_ms = none; backoff = none; strict = some true }

-- The first attempt fails, and the second rejects.
abbrev second_rejects : ℕ → Option (AttemptResult ℕ)
second_rejects n = if leb n 1 then some (never_passes n) else none

first_answers : (m : ℕ) → m ≤ 1 → second_rejects m ≡ some (never_passes m)
first_answers m h = ground (arith, h)

execute_with_retry-reject_example :
    execute_with_retry second_rejects default_retry_policy ≡ (none, delays default_retry_policy 2 1)
execute_with_retry-reject_example =
    execute_with_retry-reject second_rejects default_retry_policy never_passes 1 (omega arith)
      first_answers (refl, tt) refl
