-- ===== src/Runner/Limiter/Cap.antt =====
-- The cap of the limiter and the order of its slots.
use mathlib.Core.List.{append_assoc, append-nil}
use apiwright.Prelude.{
  ℕ, ◌+◌, ◌≤◌, ◌<◌, ◌≡◌, refl, sym, ap, ◌∙◌, ◌⊎◌, inl, inr, some, List, [], ◌∷◌, ◌++◌, arith,
  Bool-cases, ltb, length, length-append,
}
use apiwright.Runner.Limiter.{
  Limiter, fresh, create_limit, acquire, start_next, remove, release, Holds, here, there, call,
  settle, Reach, start, next,
}

-- At most `max_concurrent` slots, each held by one task; no slot is idle while a task waits; and slots are given
-- in the order in which they were asked for.
pub record IsSound (max_concurrent : ℕ) (s : Limiter) : Type 0 where
  pub capped : s.active ≤ max_concurrent
  pub counted : s.active ≡ length s.running
  pub busy : (s.queue ≡ []) ⊎ (s.active ≡ max_concurrent)
  pub ordered : s.started ++ s.queue ≡ s.submitted

pub length-remove : {t : ℕ} {xs : List ℕ} → Holds t xs → length (remove t xs) + 1 ≡ length xs
unfolding remove
length-remove here = ground arith
length-remove (there {x} {xs} h) = ground (arith, length-remove h)

pub length-pos : {t : ℕ} {xs : List ℕ} → Holds t xs → 0 < length xs
length-pos here = omega arith
length-pos (there h) = omega arith

-- The two ways in which an order of starts grows.
snoc_empty :
    (t : ℕ) (xs qs ys : List ℕ) → qs ≡ [] → xs ++ qs ≡ ys → (xs ++ t ∷ []) ++ qs ≡ ys ++ t ∷ []
snoc_empty t xs qs ys e h = rw e (rw (← h) (rw e (simp (append-nil))))

module _ (max_concurrent : ℕ) where
  acquire-IsSound :
      (t : ℕ) (s : Limiter)
      → IsSound max_concurrent s
      → IsSound max_concurrent (acquire max_concurrent t s)
  unfolding acquire
  acquire-IsSound t s h = elim (Bool-cases (ltb s.active max_concurrent)) [
    | inl free ↦
        let empty : s.queue ≡ [] = ground arith in
        rw free (record {
          capped = ground arith;
          counted = omega (arith, length-append {0} s.running (t ∷ []));
          busy = inl empty;
          ordered = snoc_empty t s.started s.queue s.submitted empty h.ordered;
        })
    | inr full ↦ rw full (record {
      capped = h.capped;
      counted = h.counted;
      busy = inr (ground arith);
      ordered = sym (append_assoc s.started s.queue (t ∷ [])) ∙ ap (λ l. l ++ t ∷ []) h.ordered;
    })
  ]

  -- `h` is about the state before the release: `q` is its queue.
  start_next-IsSound :
      (q : List ℕ) (s : Limiter)
      → s.active < max_concurrent
      → s.active ≡ length s.running
      → (q ≡ []) ⊎ (s.active + 1 ≡ max_concurrent)
      → s.started ++ q ≡ s.submitted
      → IsSound max_concurrent (start_next q s)
  unfolding start_next
  start_next-IsSound [] s room counted busy ordered = record {
    capped = omega arith;
    counted = counted;
    busy = inl refl;
    ordered = ordered;
  }
  start_next-IsSound (x ∷ q) s room counted busy ordered = record {
    capped = omega arith;
    counted = omega (arith, length-append {0} s.running (x ∷ []));
    busy = ground arith;
    ordered = append_assoc s.started (x ∷ []) q ∙ ordered;
  }

  release-IsSound :
      (t : ℕ) (s : Limiter)
      → Holds t s.running
      → IsSound max_concurrent s
      → IsSound max_concurrent (release t s)
  unfolding release
  release-IsSound t s held h =
      start_next-IsSound s.queue _ (omega (arith, length-pos held, h.counted, h.capped))
        (omega (arith, length-remove held, h.counted))
        (ground (arith, length-pos held, h.counted, h.busy)) h.ordered

  fresh-IsSound : IsSound max_concurrent fresh
  fresh-IsSound = record { capped = omega arith; counted = refl; busy = inl refl; ordered = refl }

  start_IsSound : {s : Limiter} → create_limit max_concurrent ≡ some s → IsSound max_concurrent s
  unfolding create_limit
  start_IsSound {s} e = let same : fresh ≡ s = ground arith in rw (← same) fresh-IsSound

  -- Whatever the callers and the tasks do, with a positive cap: the limiter has at most
  -- `max_concurrent` tasks in flight, counts them right, leaves no slot idle while a task waits, and
  -- gives the slots in the order in which the tasks were submitted.
  pub Reach-IsSound : {s : Limiter} → Reach max_concurrent s → IsSound max_concurrent s
  Reach-IsSound (start e) = start_IsSound e
  Reach-IsSound (next r (call s t)) = acquire-IsSound t s (Reach-IsSound r)
  Reach-IsSound (next r (settle s t held)) = release-IsSound t s held (Reach-IsSound r)
