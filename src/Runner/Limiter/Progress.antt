-- ===== src/Runner/Limiter/Progress.antt =====
-- src/runner/execute/concurrency-limiter.ts: how the limiter goes on when the tasks in flight settle.
use mathlib.Core.List.{append-nil}
use apiwright.Prelude.{
  List-cases, ◌⊎◌, ℕ, ◌+◌, ◌-◌, ◌<◌, ◌≡◌, refl, sym, ap, ◌∙◌, inl, inr, List, [], ◌∷◌, ◌++◌, arith,
  length, length-append,
}
use apiwright.Runner.Limiter.{
  Limiter, create_limit, start_next, remove, release, Holds, here, settle, Reach, start, next,
  Settles, none_more, one_more,
}
use apiwright.Runner.Limiter.Cap.{Reach-IsSound, length-remove, length-pos}

-- The tasks that hold a slot or wait for one.
abbrev pub pending : Limiter → ℕ
pending s = length s.running + length s.queue

abbrev pub IsAtRest : Limiter → Type 0
IsAtRest s = (s.running ≡ []) × (s.queue ≡ []) × (s.started ≡ s.submitted)

pending-start_next :
    (q : List ℕ) (s : Limiter) → pending (start_next q s) ≡ length s.running + length q
unfolding start_next
pending-start_next [] s = refl
pending-start_next (x ∷ q) s = omega (arith, length-append {0} s.running (x ∷ []))

-- A settled task leaves one task less, and a waiting task takes its slot at once.
pending-release : (t : ℕ) (s : Limiter) → Holds t s.running → pending (release t s) + 1 ≡ pending s
unfolding release
pending-release t s held = omega (
  arith,
  pending-start_next s.queue (record s { active = s.active - 1; running = remove t s.running }),
  length-remove held,
)

pending-Settles : {n : ℕ} {s s' : Limiter} → Settles n s s' → pending s' + n ≡ pending s
pending-Settles (none_more s) = omega arith
pending-Settles {s = s} (one_more t held rest) =
    omega (arith, pending-Settles rest, pending-release t s held)

-- A task that holds a slot.
abbrev pub IsBusy : Limiter → Type 0
IsBusy s = (t : ℕ) × Holds t s.running

running-IsBusy : (s : Limiter) → (s.running ≡ []) ⊎ IsBusy s
running-IsBusy s = elim (List-cases s.running) [
  | inl e ↦ inl e
  | inr (t, ts, e) ↦ inr (t, rw e here)
]

module _ (max_concurrent : ℕ) where
  cap-pos : {s : Limiter} → Reach max_concurrent s → 0 < max_concurrent
  unfolding create_limit
  cap-pos (start e) = ground arith
  cap-pos (next r step) = cap-pos r

  idle-IsAtRest : {s : Limiter} → Reach max_concurrent s → s.running ≡ [] → IsAtRest s
  idle-IsAtRest {s} r e =
      let h = Reach-IsSound max_concurrent r in
      let empty : s.queue ≡ [] = ground (arith, h.busy, h.counted, cap-pos r) in
      (e, empty, sym (append-nil s.started) ∙ ap (λ q. s.started ++ q) (sym empty) ∙ h.ordered)

  Settles-Reach :
      {n : ℕ} {s s' : Limiter} → Reach max_concurrent s → Settles n s s' → Reach max_concurrent s'
  Settles-Reach r (none_more s) = r
  Settles-Reach {s = s} r (one_more t held rest) = Settles-Reach (next r (settle s t held)) rest

  -- From every state that can be reached, whichever tasks with a slot settle in whatever order while no
  -- task is submitted: before as many have settled as ran or waited at first, a task with a slot is
  -- left that can settle next; after that many the limiter is at rest, where nothing runs, nothing
  -- waits, and every submitted task got a slot, in the order of submission.
  pub Settles-IsAtRest :
      {n : ℕ} {s s' : Limiter}
      → Reach max_concurrent s
      → Settles n s s'
      → ((n < pending s) × IsBusy s') ⊎ ((n ≡ pending s) × IsAtRest s')
  Settles-IsAtRest {s' = s'} r steps = elim (running-IsBusy s') [
    | inl e ↦
        let rest = idle-IsAtRest (Settles-Reach r steps) e in
        inr (omega (arith, pending-Settles steps, ap length e, ap length rest.1), rest)
    | inr (t, held) ↦ inl (omega (arith, pending-Settles steps, length-pos held), (t, held))
  ]
