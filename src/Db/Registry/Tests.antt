-- ===== src/Db/Registry/Tests.antt =====
-- Runs of the registry.
use apiwright.Prelude.{
  ℕ, ◌≡◌, ◌↔◌, ◌⊎◌, refl, true, Option, none, some, [], ◌∷◌, String, str_eq, All, arith,
  if◌then◌else◌,
}
use apiwright.Db.Registry.{
  DbEngine, mysql, other, AcquiredEntry, Registry, empty_registry, shared, opened, acquire,
  open_connection, on_connected, on_rejected, dispose_all, Reach, start, next, acquires,
}
use apiwright.Db.Registry.Live.{IsLive}
use apiwright.Db.Registry.Acquire.{
  single_flight, acquire-IsLive, acquire-on_rejected, dispose_all-ok_iff,
}

abbrev databases : String → Option DbEngine
databases name = if str_eq name "main" then some mysql else none

abbrev asked : Registry
asked = (acquire databases "main" empty_registry).1

-- Two callers share the connect that is in flight.
asked_twice : (acquire databases "main" asked).0 ≡ shared 0
unfolding acquire open_connection
asked_twice = refl

abbrev asked_Reach : Reach databases asked
asked_Reach = next start (acquires empty_registry "main")

abbrev only_promise : ℕ
only_promise = 0

single_flight_example : only_promise ≡ only_promise
unfolding acquire open_connection
single_flight_example =
    single_flight databases asked_Reach "main" only_promise only_promise (omega arith) (omega arith)
      refl refl

acquire-IsLive_example :
    (p : ℕ) × (((acquire databases "main" asked) ≡ (shared p, asked))
      ⊎ (((acquire databases "main" asked).0 ≡ opened p) × (p ≡ asked.made)))
    × IsLive ((acquire databases "main" asked).1.promises p) "main"
    × ((acquire databases "main" asked).1.entries "main" ≡ some p)
acquire-IsLive_example = acquire-IsLive databases asked_Reach "main" mysql refl

acquire-on_rejected_example :
    (acquire databases "main" (on_rejected 0 "main" mysql other asked)).0 ≡ opened asked.made
unfolding acquire open_connection
acquire-on_rejected_example =
    acquire-on_rejected databases asked_Reach "main" 0 mysql mysql other (omega arith) refl refl

-- A `disposeAll` while a connect is in flight forgets it: the late connector is kept for the next
-- `disposeAll`, and the next `acquire` opens a second connection of the same name.
abbrev late : Registry
late = on_connected 0 "main" mysql ((dispose_all (λ _. none) asked).1)

late_acquired : late.acquired ≡ record { name = "main"; engine = mysql; connector = 0 } ∷ []
unfolding acquire open_connection dispose_all on_connected
late_acquired = refl

late_second : (acquire databases "main" late).0 ≡ opened 1
unfolding acquire open_connection dispose_all on_connected
late_second = refl

dispose_all-ok_iff_example :
    (((dispose_all (λ _. some other) late).0.ok ≡ true)
      ↔ All (λ (e : AcquiredEntry). Option.some other ≡ none) late.acquired)
    × ((dispose_all (λ _. some other) (dispose_all (λ _. some other) late).1).0
        ≡ record { ok = true; results = [] })
dispose_all-ok_iff_example = dispose_all-ok_iff (λ _. some other) late
