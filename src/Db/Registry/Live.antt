-- ===== src/Db/Registry/Live.antt =====
-- What a registry keeps true of its promises, and a new connect.
use mathlib.Core.Bool.{false≢true}
use mathlib.Core.Path.{subst}
use apiwright.Prelude.{
  ℕ, ◌≤◌, ◌<◌, ◌≡◌, ◌≢◌, ◌⊎◌, inl, inr, refl, sym, ap, ◌∙◌, Bool-cases, Option, none, some, String,
  str_eq, eq_iff, ==_iff, ◌==◌, arith, none_ne_some, some-injective, ltb, ltb→lt,
}
use apiwright.Db.Registry.{
  DbEngine, Promise, not_made, connecting, connected, rejected, Registry, empty_registry, set_entry,
  set_promise, open_connection,
}

-- The connect is in flight, or it succeeded.
abbrev pub IsLive : Promise → String → Type 0
IsLive not_made name = ⊥
IsLive (connecting n _) name = n ≡ name
IsLive (connected n _) name = n ≡ name
IsLive (rejected _) name = ⊥

pub set_entry_self :
    (entries : String → Option ℕ) (name : String) (entry : Option ℕ)
    → set_entry entries name entry name ≡ entry
set_entry_self entries name entry = rw ((eq_iff name name).1 refl) refl

pub set_entry_other :
    (entries : String → Option ℕ) (name : String) (entry : Option ℕ) (k : String)
    → k ≢ name
    → set_entry entries name entry k ≡ entries k
set_entry_other entries name entry k h = ground (arith, eq_iff k name)

pub set_promise_self :
    (promises : ℕ → Promise) (p : ℕ) (state : Promise) → set_promise promises p state p ≡ state
set_promise_self promises p state = rw ((==_iff p p).1 refl) refl

pub set_promise_other :
    (promises : ℕ → Promise) (p : ℕ) (state : Promise) (q : ℕ)
    → q ≢ p
    → set_promise promises p state q ≡ promises q
set_promise_other promises p state q h = ground (arith, ==_iff q p)

-- A promise of a live connection has been made, so it is none of the ones to come.
IsLive-ne_not_made : (state : Promise) (name : String) → IsLive state name → state ≢ not_made
IsLive-ne_not_made not_made name h = absurd h
IsLive-ne_not_made (connecting _ _) name h = λ e. cc
IsLive-ne_not_made (connected _ _) name h = λ e. cc
IsLive-ne_not_made (rejected _) name h = absurd h

-- How a change of one promise changes what is live.
module _ (promises : ℕ → Promise) (p : ℕ) (state : Promise) (name : String) where
  pub IsLive-changed :
      (q : ℕ) → q ≢ p → IsLive (promises q) name → IsLive (set_promise promises p state q) name
  IsLive-changed q other live =
      subst (λ st. IsLive st name) (sym (set_promise_other promises p state q other)) live

  pub IsLive-cases :
      (q : ℕ)
      → IsLive (set_promise promises p state q) name
      → ((q ≡ p) × IsLive state name) ⊎ ((q ≢ p) × IsLive (promises q) name)
  IsLive-cases q live = elim (Bool-cases (q == p)) [
    | inl e ↦ inl ((==_iff q p).0 e, rw e at live)
    | inr e ↦ inr (λ same. absurd (false≢true (sym e ∙ (==_iff q p).1 same)), rw e at live)
  ]

pub record IsConsistent (s : Registry) : Type 0 where
  pub counted : (p : ℕ) → s.made ≤ p → s.promises p ≡ not_made
  pub cached : (name : String) (p : ℕ) → s.entries name ≡ some p → IsLive (s.promises p) name
  pub current :
      (name : String) (p : ℕ)
      → IsLive (s.promises p) name
      → (p < s.cleared_at) ⊎ (s.entries name ≡ some p)

pub empty_IsConsistent : IsConsistent empty_registry
empty_IsConsistent = record {
  counted = λ p h. refl;
  cached = λ name p e. absurd (none_ne_some e);
  current = λ name p h. absurd h;
}

pub live_made :
    {s : Registry}
    → IsConsistent s
    → (p : ℕ) (name : String) → IsLive (s.promises p) name
    → p < s.made
live_made {s} h p name live = elim (Bool-cases (ltb p s.made)) [
  | inl e ↦ ltb→lt p s.made e
  | inr e ↦ absurd (IsLive-ne_not_made (s.promises p) name live (h.counted p (ground arith)))
]

pub open_connection-IsConsistent :
    (s : Registry) (name : String) (engine : DbEngine)
    → s.entries name ≡ none
    → IsConsistent s
    → IsConsistent (open_connection name engine s)
unfolding open_connection
open_connection-IsConsistent s name engine free h = record {
  counted = λ p above.
      set_promise_other s.promises s.made _ p (λ e. absurd (omega (arith, e, above)))
      ∙ h.counted p (omega arith);
  cached = λ k p e. elim (Bool-cases (str_eq k name)) [
    | inl same ↦
        let here : s.made ≡ p = some-injective (rw same at e) in
        subst (λ q. IsLive (set_promise s.promises s.made (connecting name engine) q) k) here
          (subst (λ st. IsLive st k) (sym (set_promise_self s.promises s.made _))
            (sym ((eq_iff k name).0 same)))
    | inr other ↦
        let live : IsLive (s.promises p) k = h.cached k p (rw other at e) in
        IsLive-changed s.promises s.made _ k p
          (λ same. absurd (omega (arith, same, live_made h p k live))) live
  ];
  current = λ k p live. elim (IsLive-cases s.promises s.made _ k p live) [
    | inl (here, same) ↦ inr (
        subst (λ n. set_entry s.entries name (some s.made) n ≡ some p) same
          (set_entry_self s.entries name _ ∙ ap some (sym here)))
    | inr (other, was_live) ↦ elim (h.current k p was_live) [
      | inl old ↦ inl old
      | inr e ↦ inr (
          set_entry_other s.entries name _ k
            (λ same. none_ne_some (sym free ∙ ap s.entries (sym same) ∙ e))
          ∙ e)
    ]
  ];
}
