-- ===== src/Env/Sets.antt =====
-- The sets of paths and names in src/env/template-resolver.ts and src/env/secrets.ts.
use mathlib.Core.Bool.{false≢true}
use apiwright.Env.Templates.{Piece, plain, token, add, add_pieces}
use apiwright.Prelude.{
  ◌≡◌, refl, sym, ◌⊎◌, true, List, [], ◌∷◌, ◌++◌, String, str_eq, eq_iff, any, Bool-cases, inl, inr,
}

abbrev pub Member : String → List String → Type 0
Member path set = any (str_eq path) set ≡ true

pub str_eq_refl : (s : String) → str_eq s s ≡ true
str_eq_refl s = (eq_iff s s).1 refl

Member-append : (p q : String) (set : List String) → Member p set → Member p (set ++ q ∷ [])
Member-append p q [] h = absurd (false≢true h)
Member-append p q (x ∷ set) h = elim (Bool-cases (str_eq p x)) [
  | inl e ↦ rw e refl
  | inr e ↦ rw e (Member-append p q set (rw e at h))
]

Member-last : (p : String) (set : List String) → Member p (set ++ p ∷ [])
Member-last p [] = rw (str_eq_refl p) refl
Member-last p (x ∷ set) = elim (Bool-cases (str_eq p x)) [
  | inl e ↦ rw e refl
  | inr e ↦ rw e (Member-last p set)
]

pub add-Member : (p q : String) (set : List String) → Member p set → Member p (add q set)
add-Member p q set h = elim (Bool-cases (any (str_eq q) set)) [
  | inl e ↦ rw e h
  | inr e ↦ rw e (Member-append p q set h)
]

pub add_Member_new : (p : String) (set : List String) → Member p (add p set)
add_Member_new p set = elim (Bool-cases (any (str_eq p) set)) [
  | inl e ↦ rw e e
  | inr e ↦ rw e (Member-last p set)
]

-- Each path of a token among the pieces is in the set.
abbrev pub Tokens : List Piece → List String → Type 0
Tokens [] set = Unit
Tokens (plain c ∷ ps) set = Tokens ps set
Tokens (token path ∷ ps) set = Member path set × Tokens ps set

abbrev pub Within : List String → List String → Type 0
Within set final = (p : String) → Member p set → Member p final

pub Tokens-Within :
    (ps : List Piece) (set final : List String) → Within set final → Tokens ps set → Tokens ps final
Tokens-Within [] set final w h = tt
Tokens-Within (plain c ∷ ps) set final w h = Tokens-Within ps set final w h
Tokens-Within (token path ∷ ps) set final w (m, h) = (w path m, Tokens-Within ps set final w h)

pub add_pieces-Within : (ps : List Piece) (set : List String) → Within set (add_pieces ps set)
add_pieces-Within [] set p h = h
add_pieces-Within (plain c ∷ ps) set p h = add_pieces-Within ps set p h
add_pieces-Within (token path ∷ ps) set p h =
    add_pieces-Within ps (add path set) p (add-Member p path set h)

pub add_pieces-Tokens : (ps : List Piece) (set : List String) → Tokens ps (add_pieces ps set)
add_pieces-Tokens [] set = tt
add_pieces-Tokens (plain c ∷ ps) set = add_pieces-Tokens ps set
add_pieces-Tokens (token path ∷ ps) set = (
  add_pieces-Within ps (add path set) path (add_Member_new path set),
  add_pieces-Tokens ps (add path set),
)

-- A token with this path or name is among the pieces.
abbrev pub HasToken : String → List Piece → Type 0
HasToken name [] = ⊥
HasToken name (plain c ∷ ps) = HasToken name ps
HasToken name (token path ∷ ps) = (path ≡ name) ⊎ HasToken name ps

pub HasToken-Member :
    (name : String) (ps : List Piece) (set : List String)
    → HasToken name ps
    → Tokens ps set
    → Member name set
HasToken-Member name [] set h t = elim h [ ]
HasToken-Member name (plain c ∷ ps) set h t = HasToken-Member name ps set h t
HasToken-Member name (token path ∷ ps) set (inl e) (m, t) = rw (← e) m
HasToken-Member name (token path ∷ ps) set (inr h) (m, t) = HasToken-Member name ps set h t

-- What is in a set was there, or is what was added.
append_from : (p q : String) (set : List String) → Member p (set ++ q ∷ []) → Member p set ⊎ (p ≡ q)
append_from p q [] h = elim (Bool-cases (str_eq p q)) [
  | inl e ↦ inr ((eq_iff p q).0 e)
  | inr e ↦ absurd (false≢true (rw e at h))
]
append_from p q (x ∷ set) h = elim (Bool-cases (str_eq p x)) [
  | inl e ↦ inl (rw e refl)
  | inr e ↦ elim (append_from p q set (rw e at h)) [ inl m ↦ inl (rw e m) | inr m ↦ inr m ]
]

add_from : (p q : String) (set : List String) → Member p (add q set) → Member p set ⊎ (p ≡ q)
add_from p q set h = elim (Bool-cases (any (str_eq q) set)) [
  | inl e ↦ inl (rw e at h)
  | inr e ↦ append_from p q set (rw e at h)
]

pub add_pieces_from :
    (p : String) (ps : List Piece) (set : List String)
    → Member p (add_pieces ps set)
    → Member p set ⊎ HasToken p ps
add_pieces_from p [] set h = inl h
add_pieces_from p (plain c ∷ ps) set h = add_pieces_from p ps set h
add_pieces_from p (token path ∷ ps) set h = elim (add_pieces_from p ps (add path set) h) [
  | inl m ↦ elim (add_from p path set m) [ inl before ↦ inl before | inr e ↦ inr (inl (sym e)) ]
  | inr t ↦ inr (inr t)
]
