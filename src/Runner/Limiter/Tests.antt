-- ===== src/Runner/Limiter/Tests.antt =====
-- Runs of the limiter.
use apiwright.Prelude.{◌<◌, ◌⊎◌, ◌≡◌, refl, none, [], ◌∷◌}
use apiwright.Runner.Limiter.{
  Limiter, fresh, create_limit, acquire, resolve, release, start_next, remove, Reach, Settles,
  none_more, one_more, here, there, start, next, call,
}
use apiwright.Runner.Limiter.Cap.{IsSound, Reach-IsSound}
use apiwright.Runner.Limiter.Progress.{pending, IsBusy, IsAtRest, Settles-IsAtRest}

create_limit_zero : create_limit 0 ≡ none
unfolding create_limit
create_limit_zero = refl

-- With two slots, the third task waits.
abbrev three_calls : Limiter
three_calls = acquire 2 9 (acquire 2 8 (acquire 2 7 fresh))

three_calls_running : three_calls.running ≡ 7 ∷ 8 ∷ []
unfolding acquire resolve
three_calls_running = refl

three_calls_queue : three_calls.queue ≡ 9 ∷ []
unfolding acquire resolve
three_calls_queue = refl

-- The second task settles, and the third one starts.
after_release : (release 8 three_calls).running ≡ 7 ∷ 9 ∷ []
unfolding acquire resolve release start_next remove
after_release = refl

abbrev three_calls_Reach : Reach 2 three_calls
unfolding create_limit
three_calls_Reach = next (next (next (start refl) (call _ 7)) (call _ 8)) (call _ 9)

Reach-IsSound_example : IsSound 2 three_calls
Reach-IsSound_example = Reach-IsSound 2 three_calls_Reach

-- The second task settles, then the first, then the third, which waited.
abbrev all_settled : Limiter
all_settled = release 9 (release 7 (release 8 three_calls))

all_settle : Settles 3 three_calls all_settled
unfolding acquire resolve release start_next remove
all_settle = one_more 8 (there here) (one_more 7 here (one_more 9 here (none_more _)))

Settles-IsAtRest_example :
    ((3 < pending three_calls) × IsBusy all_settled)
    ⊎ ((3 ≡ pending three_calls) × IsAtRest all_settled)
Settles-IsAtRest_example = Settles-IsAtRest 2 three_calls_Reach all_settle
