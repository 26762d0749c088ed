-- ===== src/Db/Registry.antt =====
-- src/db/pool/connection-registry.ts: one connector for each connection name. The promises of the
-- connects are numbered in the order in which they are made, and `promises` is what the event loop
-- knows of each; a connector is known by the number of its promise. `cleared_at` is not a variable
-- of the code: it records how many promises there were at the last `disposeAll`.
pub mod Live
pub mod SingleFlight
pub mod Acquire
mod Tests
use apiwright.Prelude.{
  ℕ, ◌+◌, Bool, true, false, Option, none, some, List, [], ◌∷◌, ◌++◌, String, str_eq, ◌==◌,
  if◌then◌else◌, template, ◌&&◌, ◌≡◌,
}

pub data DbEngine : Type 0 where
  postgres mysql mongodb neo4j : DbEngine

pub data DbErrorCode : Type 0 where
  db_connection_failed db_query_failed db_param_not_bindable db_disconnect_failed : DbErrorCode

pub data DbPhase : Type 0 where
  connect execute bind disconnect : DbPhase

pub record DbConnectorError : Type 0 where
  pub code : DbErrorCode
  pub phase : DbPhase
  pub engine : DbEngine
  pub message : String

-- What a connector rejects with: an error of the program's own, or anything else.
pub data Rejection : Type 0 where
  typed : DbConnectorError → Rejection
  other : Rejection

pub data Promise : Type 0 where
  not_made : Promise
  connecting connected : (name : String) → DbEngine → Promise
  rejected : DbConnectorError → Promise

pub record AcquiredEntry : Type 0 where
  pub name : String
  pub engine : DbEngine
  pub connector : ℕ

pub record Registry : Type 0 where
  pub entries : String → Option ℕ
  pub acquired : List AcquiredEntry
  pub promises : ℕ → Promise
  pub made : ℕ
  pub cleared_at : ℕ

abbrev pub empty_registry : Registry
empty_registry = record {
  entries = λ _. none;
  acquired = [];
  promises = λ _. not_made;
  made = 0;
  cleared_at = 0;
}

-- `Map.set` and `Map.delete`
abbrev pub set_entry : (String → Option ℕ) → String → Option ℕ → String → Option ℕ
set_entry entries name entry k = if str_eq k name then entry else entries k

abbrev pub set_promise : (ℕ → Promise) → ℕ → Promise → ℕ → Promise
set_promise promises p state q = if q == p then state else promises q

-- What `acquire` returns: a promise of the registry, or one that is rejected at once.
pub data Answer : Type 0 where
  shared opened : ℕ → Answer
  refused : DbConnectorError → Answer

abbrev pub unknown_name : String → DbConnectorError
unknown_name name = record {
  code = db_connection_failed;
  phase = DbPhase.connect;
  engine = postgres;
  message = template ("No database connection named \"" ∷ name ∷ "\" is configured." ∷ []);
}

-- `connector.connect(config)`, whose promise is cached.
unfoldable pub open_connection : String → DbEngine → Registry → Registry
open_connection name engine s = record s {
  entries = set_entry s.entries name (some s.made);
  promises = set_promise s.promises s.made (connecting name engine);
  made = s.made + 1;
}

-- `databases` gives the engine of each configured name.
unfoldable pub acquire : (String → Option DbEngine) → String → Registry → Answer × Registry
unfolding open_connection
acquire databases name s = elim (s.entries name) [
  | some existing ↦ (shared existing, s)
  | none ↦ elim (databases name) [
    | none ↦ (refused (unknown_name name), s)
    | some engine ↦ (opened s.made, open_connection name engine s)
  ]
]

-- The handler of `then`, when the connect of promise `p` succeeds.
unfoldable pub on_connected : ℕ → String → DbEngine → Registry → Registry
on_connected p name engine s = record s {
  acquired = s.acquired ++ record { name = name; engine = engine; connector = p } ∷ [];
  promises = set_promise s.promises p (connected name engine);
}

abbrev pub connect_error : String → DbEngine → Rejection → DbConnectorError
connect_error name engine (typed e) = e
connect_error name engine other = record {
  code = db_connection_failed;
  phase = DbPhase.connect;
  engine = engine;
  message = template ("Failed to connect database \"" ∷ name ∷ "\"." ∷ []);
}

-- `this.#entries.get(name) === connectPromise`
abbrev pub is_entry : Option ℕ → ℕ → Bool
is_entry none p = false
is_entry (some q) p = q == p

-- The handler of `catch`.
unfoldable pub on_rejected : ℕ → String → DbEngine → Rejection → Registry → Registry
on_rejected p name engine err s = record s {
  entries = if is_entry (s.entries name) p then set_entry s.entries name none else s.entries;
  promises = set_promise s.promises p (rejected (connect_error name engine err));
}

pub record ConnectionDisposeResult : Type 0 where
  pub name : String
  pub engine : DbEngine
  pub ok : Bool
  pub error : Option DbConnectorError

pub record DisposeAllOutcome : Type 0 where
  pub ok : Bool
  pub results : List ConnectionDisposeResult

abbrev pub disconnect_error : AcquiredEntry → Rejection → DbConnectorError
disconnect_error entry (typed e) = e
disconnect_error entry other = record {
  code = db_disconnect_failed;
  phase = DbPhase.disconnect;
  engine = entry.engine;
  message = template ("Failed to disconnect database \"" ∷ entry.name ∷ "\"." ∷ []);
}

-- `results.every((r) => r.ok)`
abbrev pub every_ok : List ConnectionDisposeResult → Bool
every_ok [] = true
every_ok (r ∷ results) = r.ok && every_ok results

-- What `disconnect` of each connector answers, `none` where it resolves.
module _ (disconnect : ℕ → Option Rejection) where
  unfoldable pub dispose_one : AcquiredEntry → ConnectionDisposeResult
  dispose_one entry = elim (disconnect entry.connector) [
    | none ↦ record { name = entry.name; engine = entry.engine; ok = true; error = none }
    | some err ↦ record {
      name = entry.name;
      engine = entry.engine;
      ok = false;
      error = some (disconnect_error entry err);
    }
  ]

  unfoldable pub dispose_each : List AcquiredEntry → List ConnectionDisposeResult
  unfolding dispose_one
  dispose_each [] = []
  dispose_each (entry ∷ entries) = dispose_one entry ∷ dispose_each entries

  -- The early return for an empty list answers what the general case does.
  unfoldable pub dispose_all : Registry → DisposeAllOutcome × Registry
  unfolding dispose_each
  dispose_all s =
      let results = dispose_each s.acquired in
      (
        record { ok = every_ok results; results = results },
        record s { acquired = []; entries = λ _. none; cleared_at = s.made },
      )

-- What may happen to a registry, in any order: a call of `acquire`, the end of a connect that is in
-- flight, a call of `disposeAll`.
pub data Step (databases : String → Option DbEngine) : Registry → Registry → Type 0 where
  acquires : (s : Registry) (name : String) → Step databases s (acquire databases name s).1
  connects :
      (s : Registry) (p : ℕ) (name : String) (engine : DbEngine)
      → s.promises p ≡ connecting name engine
      → Step databases s (on_connected p name engine s)
  rejects :
      (s : Registry) (p : ℕ) (name : String) (engine : DbEngine) (err : Rejection)
      → s.promises p ≡ connecting name engine
      → Step databases s (on_rejected p name engine err s)
  disposes :
      (s : Registry) (disconnect : ℕ → Option Rejection)
      → Step databases s (dispose_all disconnect s).1

pub data Reach (databases : String → Option DbEngine) : Registry → Type 0 where
  start : Reach databases empty_registry
  next : {s s' : Registry} → Reach databases s → Step databases s s' → Reach databases s'
