-- ===== src/Runner/Limiter.antt =====
-- src/runner/execute/concurrency-limiter.ts: the bounded limiter of the runner's promise pool.
-- A task is a number. `running`, `started` and `submitted` are not variables of the code: they
-- record which tasks hold a slot, and in which order slots were given and asked for.
pub mod Cap
pub mod Progress
mod Tests
use apiwright.Prelude.{
  ℕ, zero, suc, ◌+◌, ◌-◌, ◌≡◌, Bool, Option, none, some, List, [], ◌∷◌, ◌++◌, ltb, ◌==◌,
  if◌then◌else◌,
}

pub record Limiter : Type 0 where
  pub active : ℕ
  pub queue : List ℕ
  pub running : List ℕ
  pub started : List ℕ
  pub submitted : List ℕ

abbrev pub fresh : Limiter
fresh = record { active = 0; queue = []; running = []; started = []; submitted = [] }

-- `none` is the RangeError for a cap that is not positive.
unfoldable pub create_limit : ℕ → Option Limiter
create_limit max_concurrent = if ltb max_concurrent 1 then none else some fresh

-- The slot goes to `t`: `active++` and the promise of `acquire` resolves.
unfoldable pub resolve : ℕ → Limiter → Limiter
resolve t s = record s {
  active = s.active + 1;
  running = s.running ++ t ∷ [];
  started = s.started ++ t ∷ [];
}

unfoldable pub acquire : ℕ → ℕ → Limiter → Limiter
unfolding resolve
acquire max_concurrent t s =
    let s' = record s { submitted = s.submitted ++ t ∷ [] } in
    if ltb s'.active max_concurrent then resolve t s' else record s' { queue = s'.queue ++ t ∷ [] }

-- `queue.shift()`, and the call of what it returns.
unfoldable pub start_next : List ℕ → Limiter → Limiter
unfolding resolve
start_next [] s = record s { queue = [] }
start_next (next ∷ rest) s = resolve next (record s { queue = rest })

-- A task's slot is named once, so the first entry is the one that goes.
unfoldable pub remove : ℕ → List ℕ → List ℕ
remove t [] = []
remove t (x ∷ xs) = if x == t then xs else x ∷ remove t xs

-- The `finally` of `limit`, whether the task resolved or rejected.
unfoldable pub release : ℕ → Limiter → Limiter
unfolding start_next remove
release t s = start_next s.queue (record s { active = s.active - 1; running = remove t s.running })

pub data Holds (t : ℕ) : List ℕ → Type 0 where
  here : {xs : List ℕ} → Holds t (t ∷ xs)
  there : {x : ℕ} {xs : List ℕ} → Holds t xs → Holds t (x ∷ xs)

-- What the event loop may do: a caller submits a task, or a task that holds a slot settles.
pub data Step (max_concurrent : ℕ) : Limiter → Limiter → Type 0 where
  call : (s : Limiter) (t : ℕ) → Step max_concurrent s (acquire max_concurrent t s)
  settle : (s : Limiter) (t : ℕ) → Holds t s.running → Step max_concurrent s (release t s)

pub data Reach (max_concurrent : ℕ) : Limiter → Type 0 where
  start : {s : Limiter} → create_limit max_concurrent ≡ some s → Reach max_concurrent s
  next :
      {s s' : Limiter} → Reach max_concurrent s → Step max_concurrent s s' → Reach max_concurrent s'

-- `n` tasks that hold a slot settle, one after the other, in any order; no task is submitted meanwhile.
pub data Settles : ℕ → Limiter → Limiter → Type 0 where
  none_more : (s : Limiter) → Settles 0 s s
  one_more :
      {n : ℕ} {s s' : Limiter} (t : ℕ)
      → Holds t s.running
      → Settles n (release t s) s'
      → Settles (suc n) s s'
