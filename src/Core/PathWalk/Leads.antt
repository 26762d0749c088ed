-- ===== src/Core/PathWalk/Leads.antt =====
-- What a walk finds: the walk against a relation that says where a path leads.
use mathlib.Core.Path.{subst}
use apiwright.Prelude.{
  ℕ, suc, ◌≤◌, ◌≡◌, ◌≢◌, ◌↔◌, refl, ◌∙◌, ◌⊎◌, inl, inr, false, not, Bool-cases, Option-cases,
  Option, none, some, List, [], ◌∷◌, String, ◌&&◌, arith, length, str_eq, some-injective, zero, ltb,
  ltb→lt, and_false, get_elem?, All, none_ne_some,
}
use apiwright.Core.Value.{
  Value, undefined, null, reference, Cell, array, object, Heap, get_property,
}
use apiwright.Core.PathWalk.{
  WalkSegment, key, index, negative_index, step_segment, is_null, is_last, walk_from, walk_path,
  max_path_walk_depth,
}

-- The path `segs` leads from one value to another: each key names a property of an object, each
-- index an element of an array.
pub data Leads (heap : Heap) : Value → List WalkSegment → Value → Type 0 where
  arrived : {v : Value} → Leads heap v [] v
  by_key :
      {i : ℕ} {ps : List (String × Value)} {k : String} {rest : List WalkSegment} {v w : Value}
      → heap i ≡ object ps
      → get_property k ps ≡ some v
      → Leads heap v rest w
      → Leads heap (reference i) (key k ∷ rest) w
  by_index :
      {i : ℕ} {xs : List Value} {n : ℕ} {rest : List WalkSegment} {v w : Value}
      → heap i ≡ array xs
      → get_elem? xs n ≡ some v
      → Leads heap v rest w
      → Leads heap (reference i) (index n ∷ rest) w

Cell-cases :
    (c : Cell)
    → ((xs : List Value) × (c ≡ array xs)) ⊎ ((ps : List (String × Value)) × (c ≡ object ps))
Cell-cases (array xs) = inl (xs, refl)
Cell-cases (object ps) = inr (ps, refl)

-- One step of the walk is one step of the relation.
step_sound :
    (heap : Heap) (v : Value) (seg : WalkSegment) {u : Value} {w : Value} {rest : List WalkSegment}
    → step_segment heap v seg ≡ some u
    → Leads heap u rest w
    → Leads heap v (seg ∷ rest) w
unfolding step_segment
step_sound heap (reference i) (key k) e l = elim (Cell-cases (heap i)) [
  | inl (xs, f) ↦ absurd (none_ne_some (rw f at e))
  | inr (ps, f) ↦ by_key f (rw f at e) l
]
step_sound heap (reference i) (index n) e l = elim (Cell-cases (heap i)) [
  | inl (xs, f) ↦ by_index f (rw f at e) l
  | inr (ps, f) ↦ absurd (none_ne_some (rw f at e))
]
step_sound heap (reference i) (negative_index n) e l = absurd (none_ne_some e)
step_sound heap v (key k) e l = absurd (none_ne_some e)
step_sound heap v (index n) e l = absurd (none_ne_some e)
step_sound heap v (negative_index n) e l = absurd (none_ne_some e)

walk_from_sound :
    (heap : Heap) (v : Value) (segs : List WalkSegment) {w : Value}
    → walk_from heap v segs ≡ some w
    → Leads heap v segs w
unfolding walk_from
walk_from_sound heap v [] {w} e =
    let same : v ≡ w = cc in subst (λ u. Leads heap v [] u) same arrived
walk_from_sound heap v (seg ∷ rest) e = elim (Option-cases (step_segment heap v seg)) [
  | inl missed ↦ absurd (none_ne_some (rw (missed, walk_from) at e))
  | inr (u, stepped) ↦ elim (Bool-cases (is_null u && not (is_last rest))) [
    | inl stopped ↦ absurd (none_ne_some (rw (stepped, stopped, walk_from) at e))
    | inr on ↦
        step_sound heap v seg stepped
          (walk_from_sound heap u rest (rw (stepped, on, walk_from) at e))
  ]
]

-- Nothing but the empty path leads away from `null`, so the test for `null` loses no path.
null_stops :
    (heap : Heap) {u w : Value} {rest : List WalkSegment}
    → Leads heap u rest w
    → (is_null u && not (is_last rest)) ≡ false
null_stops heap (arrived {v}) = and_false (is_null v)
null_stops heap (by_key _ _ _) = refl
null_stops heap (by_index _ _ _) = refl

walk_from_complete :
    (heap : Heap) {v w : Value} {segs : List WalkSegment}
    → Leads heap v segs w
    → walk_from heap v segs ≡ some w
unfolding walk_from
walk_from_complete heap arrived = refl
walk_from_complete heap (by_key f g l) =
    rw (f, g, null_stops heap l, walk_from) (walk_from_complete heap l)
walk_from_complete heap (by_index f g l) =
    rw (f, g, null_stops heap l, walk_from) (walk_from_complete heap l)

-- A path of at least one and at most 256 segments finds a value exactly when it leads there, key by
-- key and index by index; a longer one finds nothing.
pub walk_path_iff :
    (heap : Heap) (root : Value) (seg : WalkSegment) (rest : List WalkSegment) (v : Value)
    → (walk_path heap root (some (seg ∷ rest)) ≡ some v)
      ↔ ((length (seg ∷ rest) ≤ max_path_walk_depth) × Leads heap root (seg ∷ rest) v)
unfolding walk_path
walk_path_iff heap root seg rest v =
    elim (Bool-cases (ltb max_path_walk_depth (length (seg ∷ rest)))) [
      | inl long ↦ (
        λ e. absurd (none_ne_some (rw (long, walk_path) at e)),
        λ (short, l). absurd (omega (arith, ltb→lt _ _ long, short)),
      )
      | inr short ↦ (
        λ e. (ground arith, walk_from_sound heap root (seg ∷ rest) (rw (short, walk_path) at e)),
        λ (_, l). rw (short, walk_path) (walk_from_complete heap l),
      )
    ]

-- No array element and no property of the heap is `undefined`, as in values that come from JSON.
abbrev pub IsDefined : Value → Type 0
IsDefined v = v ≢ undefined

abbrev pub IsJsonCell : Cell → Type 0
IsJsonCell (array xs) = All IsDefined xs
IsJsonCell (object ps) = All (λ p. IsDefined p.1) ps

get_property-IsDefined :
    (k : String) (ps : List (String × Value)) {v : Value}
    → All (λ p. IsDefined p.1) ps
    → get_property k ps ≡ some v
    → IsDefined v
unfolding get_property
get_property-IsDefined k [] h e = absurd (none_ne_some e)
get_property-IsDefined k ((j, u) ∷ ps) (h, hs) e = elim (Bool-cases (str_eq j k)) [
  | inl same ↦ λ d. h (some-injective (rw (same, get_property) at e) ∙ d)
  | inr other ↦ get_property-IsDefined k ps hs (rw (other, get_property) at e)
]

get_elem?-IsDefined :
    (xs : List Value) (n : ℕ) {v : Value} → All IsDefined xs → get_elem? xs n ≡ some v → IsDefined v
get_elem?-IsDefined [] n h e = absurd (none_ne_some e)
get_elem?-IsDefined (x ∷ xs) zero (h, hs) e = λ d. h (some-injective e ∙ d)
get_elem?-IsDefined (x ∷ xs) (suc n) (h, hs) e = get_elem?-IsDefined xs n hs e

Leads-IsDefined :
    (heap : Heap) {v w : Value} {segs : List WalkSegment}
    → ((i : ℕ) → IsJsonCell (heap i))
    → IsDefined v
    → Leads heap v segs w
    → IsDefined w
Leads-IsDefined heap json h arrived = h
Leads-IsDefined heap json h (by_key {i} {ps} {k} f g l) =
    Leads-IsDefined heap json (get_property-IsDefined k ps (subst IsJsonCell f (json i)) g) l
Leads-IsDefined heap json h (by_index {i} {xs} {n} f g l) =
    Leads-IsDefined heap json (get_elem?-IsDefined xs n (subst IsJsonCell f (json i)) g) l

-- A path with a segment leads away from references only.
start_IsDefined :
    (heap : Heap) {v w : Value} {seg : WalkSegment} {rest : List WalkSegment}
    → Leads heap v (seg ∷ rest) w
    → IsDefined v
start_IsDefined heap (by_key f g l) = λ e. cc
start_IsDefined heap (by_index f g l) = λ e. cc

whole-IsDefined : (heap : Heap) (root v : Value) → walk_path heap root none ≡ some v → IsDefined v
unfolding walk_path
whole-IsDefined heap undefined v e = absurd (none_ne_some e)
whole-IsDefined heap null v e = λ d. cc
whole-IsDefined heap _ v e = λ d. cc

-- The value that is found is never `undefined`, if no cell of the heap holds `undefined`; also where
-- the path is empty or absent and the root itself may be `undefined`.
pub walk_path-IsDefined :
    (heap : Heap) (root : Value) (segs : Option (List WalkSegment)) (v : Value)
    → ((i : ℕ) → IsJsonCell (heap i))
    → walk_path heap root segs ≡ some v
    → IsDefined v
unfolding walk_path
walk_path-IsDefined heap root none v json e = whole-IsDefined heap root v e
walk_path-IsDefined heap root (some []) v json e = whole-IsDefined heap root v e
walk_path-IsDefined heap root (some (seg ∷ rest)) v json e =
    let (_, l) = (walk_path_iff heap root seg rest v).0 e in
    Leads-IsDefined heap json (start_IsDefined heap l) l
