-- ===== src/Db/Registry/Acquire.antt =====
-- What `acquire` and `disposeAll` promise their callers.
use mathlib.Core.Bool.{false≢true}
use apiwright.Prelude.{
  ℕ, ◌≤◌, ◌≡◌, ◌↔◌, ◌⊎◌, inl, inr, refl, sym, ◌∙◌, true, Option-cases, Option, none, some, List, [],
  ◌∷◌, String, arith, none_ne_some, some-injective, All,
}
use apiwright.Db.Registry.{
  DbEngine, Rejection, AcquiredEntry, connecting, Registry, shared, opened, acquire,
  open_connection, on_rejected, dispose_one, dispose_each, every_ok, dispose_all, Reach,
}
use apiwright.Db.Registry.Live.{IsLive, set_entry_self, set_promise_self}
use apiwright.Db.Registry.SingleFlight.{Reach-IsConsistent, is_entry_iff, flying_IsLive}

module _ (databases : String → Option DbEngine) {s : Registry} (r : Reach databases s) where
  entry_of_live :
      (name : String) (p : ℕ)
      → s.cleared_at ≤ p
      → IsLive (s.promises p) name
      → s.entries name ≡ some p
  entry_of_live name p since live = elim ((Reach-IsConsistent databases r).current name p live) [
    | inl old ↦ absurd (omega (arith, old, since))
    | inr e ↦ e
  ]

  -- Whatever order the calls and the ends of connects come in: two connects of one name that were
  -- both started since the last `disposeAll`, and are in flight or have succeeded, are the same.
  pub single_flight :
      (name : String) (p q : ℕ)
      → s.cleared_at ≤ p
      → s.cleared_at ≤ q
      → IsLive (s.promises p) name
      → IsLive (s.promises q) name
      → p ≡ q
  single_flight name p q since_p since_q live_p live_q =
      some-injective
        (sym (entry_of_live name p since_p live_p) ∙ entry_of_live name q since_q live_q)

  -- `acquire` of a configured name caches and answers a promise of that name that is in flight or
  -- has succeeded, never one that has failed: the promise that is there, where nothing changes, or
  -- a new one.
  pub acquire-IsLive :
      (name : String) (engine : DbEngine)
      → databases name ≡ some engine
      → (p : ℕ) × (((acquire databases name s) ≡ (shared p, s))
          ⊎ (((acquire databases name s).0 ≡ opened p) × (p ≡ s.made)))
        × IsLive ((acquire databases name s).1.promises p) name
        × ((acquire databases name s).1.entries name ≡ some p)
  unfolding acquire open_connection
  acquire-IsLive name engine configured = elim (Option-cases (s.entries name)) [
    | inr (p, e) ↦
        let live : IsLive (s.promises p) name = (Reach-IsConsistent databases r).cached name p e in
        rw (e, acquire) (p, inl refl, live, e)
    | inl free ↦
        rw (free, configured, acquire)
          (
            s.made,
            inr (refl, refl),
            flying_IsLive (set_promise_self s.promises s.made _),
            set_entry_self s.entries name _,
          )
  ]

  -- When a connect fails that was started since the last `disposeAll`, the next `acquire` of its
  -- name, if configured, makes a new connection.
  pub acquire-on_rejected :
      (name : String) (p : ℕ) (engine configured : DbEngine) (err : Rejection)
      → s.cleared_at ≤ p
      → s.promises p ≡ connecting name engine
      → databases name ≡ some configured
      → (acquire databases name (on_rejected p name engine err s)).0 ≡ opened s.made
  unfolding acquire on_rejected
  acquire-on_rejected name p engine configured err since flying found =
      let e = entry_of_live name p since (flying_IsLive flying) in
      let evicted = (is_entry_iff (s.entries name) p).1 e in
      let gone : (on_rejected p name engine err s).entries name ≡ none =
        rw (evicted, on_rejected) (set_entry_self s.entries name none) in
      rw (gone, found, acquire) refl

module _ (disconnect : ℕ → Option Rejection) where
  every_ok_iff :
      (entries : List AcquiredEntry)
      → (every_ok (dispose_each disconnect entries) ≡ true)
        ↔ All (λ e. disconnect e.connector ≡ none) entries
  unfolding dispose_each dispose_one
  every_ok_iff [] = (λ _. tt, λ _. refl)
  every_ok_iff (entry ∷ entries) =
      let (to, from) = every_ok_iff entries in
      elim (Option-cases (disconnect entry.connector)) [
        | inl e ↦
            (λ h. (e, to (rw (e, dispose_one) at h)), λ (_, hs). rw (e, dispose_one) (from hs))
        | inr (err, e) ↦ (
          λ h. absurd (false≢true (rw (e, dispose_one) at h)),
          λ (none_, _). absurd (none_ne_some (sym none_ ∙ e)),
        )
      ]

  -- `disposeAll` reports success exactly when every connector that was acquired disconnects; and
  -- called again at once, it disconnects nothing and reports success.
  pub dispose_all-ok_iff :
      (s : Registry)
      → (((dispose_all disconnect s).0.ok ≡ true)
          ↔ All (λ (e : AcquiredEntry). disconnect e.connector ≡ none) s.acquired)
        × ((dispose_all disconnect (dispose_all disconnect s).1).0
            ≡ record { ok = true; results = [] })
  unfolding dispose_all dispose_each
  dispose_all-ok_iff s = (every_ok_iff s.acquired, refl)
