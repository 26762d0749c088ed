-- ===== src/Db/Registry/SingleFlight.antt =====
-- The ends of a connect, `disposeAll` and `acquire` against what a registry keeps true.
use mathlib.Core.Bool.{false≢true}
use mathlib.Core.Path.{subst}
use apiwright.Prelude.{
  ℕ, ◌≤◌, ◌≡◌, ◌≢◌, ◌↔◌, ◌⊎◌, inl, inr, refl, sym, ap, ◌∙◌, true, Bool-cases, Option-cases, Option,
  none, some, String, str_eq, eq_iff, ==_iff, ◌==◌, arith, none_ne_some, some-injective,
}
use apiwright.Db.Registry.{
  DbEngine, Rejection, Promise, not_made, connecting, connected, rejected, Registry, set_promise,
  acquire, on_connected, on_rejected, is_entry, connect_error, dispose_all, Step, acquires,
  connects, rejects, disposes, Reach, start, next,
}
use apiwright.Db.Registry.Live.{
  IsLive, IsConsistent, empty_IsConsistent, live_made, open_connection-IsConsistent, IsLive-changed,
  IsLive-cases, set_entry_other, set_promise_self, set_promise_other,
}

-- What is known of a connect that is in flight.
pub flying_IsLive :
    {state : Promise} {name : String} {engine : DbEngine}
    → state ≡ connecting name engine
    → IsLive state name
flying_IsLive {state} {name} flying = subst (λ st. IsLive st name) (sym flying) refl

flying_name :
    {state : Promise} {name : String} {engine : DbEngine} (k : String)
    → state ≡ connecting name engine
    → IsLive state k
    → name ≡ k
flying_name k flying live = subst (λ st. IsLive st k) flying live

pub is_entry_iff : (o : Option ℕ) (p : ℕ) → (is_entry o p ≡ true) ↔ (o ≡ some p)
is_entry_iff none p = (λ e. absurd (false≢true e), λ e. absurd (none_ne_some e))
is_entry_iff (some r) p = (λ e. ap some ((==_iff r p).0 e), λ e. (==_iff r p).1 (some-injective e))

module _ (s : Registry) (q : ℕ) (name : String) (engine : DbEngine)
    (flying : s.promises q ≡ connecting name engine) (h : IsConsistent s) where
  settled_counted :
      (state : Promise) (p : ℕ) → s.made ≤ p → set_promise s.promises q state p ≡ not_made
  settled_counted state p above =
      set_promise_other s.promises q state p
        (λ e. absurd (omega (arith, e, above, live_made h q name (flying_IsLive flying))))
      ∙ h.counted p above

  on_connected-IsConsistent : IsConsistent (on_connected q name engine s)
  unfolding on_connected
  on_connected-IsConsistent = record {
    counted = settled_counted (connected name engine);
    cached = λ k p e.
        let live : IsLive (s.promises p) k = h.cached k p e in
        elim (Bool-cases (p == q)) [
          | inl same ↦
              let here : p ≡ q = (==_iff p q).0 same in
              subst (λ r. IsLive (set_promise s.promises q (connected name engine) r) k) (sym here)
                (subst (λ st. IsLive st k) (sym (set_promise_self s.promises q _))
                  (flying_name k (ap s.promises here ∙ flying) live))
          | inr other ↦
              IsLive-changed s.promises q _ k p
                (λ same. absurd (false≢true (sym other ∙ (==_iff p q).1 same))) live
        ];
    current = λ k p live. elim (IsLive-cases s.promises q _ k p live) [
      | inl (here, same) ↦
          h.current k p (subst (λ st. IsLive st k) (sym (ap s.promises here ∙ flying)) same)
      | inr (other, was_live) ↦ h.current k p was_live
    ];
  }

  module _ (err : Rejection) where
    rejected_entry :
        (k : String) (p : ℕ)
        → (on_rejected q name engine err s).entries k ≡ some p
        → (s.entries k ≡ some p) × ((k ≢ name) ⊎ (p ≢ q))
    unfolding on_rejected
    rejected_entry k p e = elim (Bool-cases (is_entry (s.entries name) q)) [
      | inl evicted ↦ elim (Bool-cases (str_eq k name)) [
        | inl same ↦ absurd (none_ne_some (rw (evicted, same, on_rejected) at e))
        | inr other ↦ (
          rw (evicted, other, on_rejected) at e,
          inl (λ same. absurd (false≢true (sym other ∙ (eq_iff k name).1 same))),
        )
      ]
      | inr kept ↦
          let was : s.entries k ≡ some p = rw (kept, on_rejected) at e in
          elim (Bool-cases (str_eq k name)) [
            | inl same ↦ (
              was,
              inr (λ here. absurd (
                  false≢true (
                    sym kept
                    ∙ (is_entry_iff (s.entries name) q).1
                        (ap s.entries (sym ((eq_iff k name).0 same)) ∙ was ∙ ap some here)))),
            )
            | inr other ↦
                (was, inl (λ same. absurd (false≢true (sym other ∙ (eq_iff k name).1 same))))
          ]
    ]

    kept_entry :
        (k : String) (p : ℕ)
        → s.entries k ≡ some p
        → p ≢ q
        → (on_rejected q name engine err s).entries k ≡ some p
    unfolding on_rejected
    kept_entry k p e other = elim (Bool-cases (is_entry (s.entries name) q)) [
      | inl evicted ↦
          let mine : s.entries name ≡ some q = (is_entry_iff (s.entries name) q).0 evicted in
          rw (evicted, on_rejected)
            (set_entry_other s.entries name none k
                (λ same. other (some-injective (sym e ∙ ap s.entries same ∙ mine)))
              ∙ e)
      | inr kept ↦ rw (kept, on_rejected) e
    ]

    on_rejected-IsConsistent : IsConsistent (on_rejected q name engine err s)
    unfolding on_rejected
    on_rejected-IsConsistent = record {
      counted = settled_counted (rejected (connect_error name engine err));
      cached = λ k p e.
          let (was, apart) = rejected_entry k p e in
          let live : IsLive (s.promises p) k = h.cached k p was in
          IsLive-changed s.promises q _ k p
            (λ here. elim apart [
              | inl n ↦ n (sym (flying_name k (ap s.promises here ∙ flying) live))
              | inr n ↦ n here
            ])
            live;
      current = λ k p live. elim (IsLive-cases s.promises q _ k p live) [
        | inl (here, never) ↦ absurd never
        | inr (other, was_live) ↦ elim (h.current k p was_live) [
          | inl old ↦ inl old
          | inr e ↦ inr (kept_entry k p e other)
        ]
      ];
    }

dispose_all-IsConsistent :
    (disconnect : ℕ → Option Rejection) (s : Registry)
    → IsConsistent s
    → IsConsistent ((dispose_all disconnect s).1)
unfolding dispose_all
dispose_all-IsConsistent disconnect s h = record {
  counted = h.counted;
  cached = λ k p e. absurd (none_ne_some e);
  current = λ k p live. inl (live_made h p k live);
}

module _ (databases : String → Option DbEngine) where
  acquire-IsConsistent :
      (s : Registry) (name : String) → IsConsistent s → IsConsistent ((acquire databases name s).1)
  unfolding acquire
  acquire-IsConsistent s name h = elim (Option-cases (s.entries name)) [
    | inr (p, e) ↦ rw (e, acquire) h
    | inl free ↦ elim (Option-cases (databases name)) [
      | inl unknown ↦ rw (free, unknown, acquire) h
      | inr (engine, e) ↦ rw (free, e, acquire) (open_connection-IsConsistent s name engine free h)
    ]
  ]

  Step-IsConsistent : {s s' : Registry} → Step databases s s' → IsConsistent s → IsConsistent s'
  Step-IsConsistent (acquires s name) h = acquire-IsConsistent s name h
  Step-IsConsistent (connects s p name engine flying) h =
      on_connected-IsConsistent s p name engine flying h
  Step-IsConsistent (rejects s p name engine err flying) h =
      on_rejected-IsConsistent s p name engine flying h err
  Step-IsConsistent (disposes s disconnect) h = dispose_all-IsConsistent disconnect s h

  pub Reach-IsConsistent : {s : Registry} → Reach databases s → IsConsistent s
  Reach-IsConsistent start = empty_IsConsistent
  Reach-IsConsistent (next r step) = Step-IsConsistent step (Reach-IsConsistent r)
