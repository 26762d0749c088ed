-- ===== src/Catalog/CaseId/Allowed.antt =====
-- src/test-catalog/test-case-id.ts: the characters of an identifier.
use apiwright.Prelude.{
  ℕ, ◌≡◌, refl, Bool, true, false, List, [], ◌∷◌, All, arith, ◌==◌, Bool-cases, inl, inr,
}
use apiwright.Catalog.CaseId.{
  to_lower, lower_all, is_allowed, replace_underscores, replace_runs, normalize,
}

-- What the expression `[a-z0-9.-]` matches: the class without the underscore.
abbrev pub IsIdChar : ℕ → Type 0
IsIdChar c = (is_allowed c ≡ true) × ((c == 95) ≡ false)

abbrev pub NotUnderscore : ℕ → Type 0
NotUnderscore c = (c == 95) ≡ false

replace_underscores_lem : (cs : List ℕ) → All NotUnderscore (replace_underscores cs)
unfolding replace_underscores
replace_underscores_lem [] = tt
replace_underscores_lem (c ∷ cs) = ((ground arith), replace_underscores_lem cs)

replace_runs-IsIdChar :
    (inside : Bool) (cs : List ℕ) → All NotUnderscore cs → All IsIdChar (replace_runs inside cs)
unfolding replace_runs
replace_runs-IsIdChar inside [] h = tt
replace_runs-IsIdChar true (c ∷ cs) (n, h) = elim (Bool-cases (is_allowed c)) [
  | inl e ↦ rw e ((e, n), replace_runs-IsIdChar false cs h)
  | inr e ↦ rw e (replace_runs-IsIdChar true cs h)
]
replace_runs-IsIdChar false (c ∷ cs) (n, h) = elim (Bool-cases (is_allowed c)) [
  | inl e ↦ rw e ((e, n), replace_runs-IsIdChar false cs h)
  | inr e ↦ rw e (((unfold is_allowed in refl), refl), replace_runs-IsIdChar true cs h)
]

to_lower_id : (c : ℕ) → is_allowed c ≡ true → to_lower c ≡ c ∷ []
unfolding to_lower is_allowed
to_lower_id c h = ground arith

lower_all_lem : (cs : List ℕ) → All IsIdChar cs → lower_all cs ≡ cs
unfolding lower_all
lower_all_lem [] h = refl
lower_all_lem (c ∷ cs) ((a, n), h) = rw (to_lower_id c a, lower_all_lem cs h)

replace_underscores_id : (cs : List ℕ) → All IsIdChar cs → replace_underscores cs ≡ cs
unfolding replace_underscores
replace_underscores_id [] h = refl
replace_underscores_id (c ∷ cs) ((a, n), h) = rw (n, replace_underscores_id cs h)

replace_runs_id : (cs : List ℕ) → All IsIdChar cs → replace_runs false cs ≡ cs
unfolding replace_runs
replace_runs_id [] h = refl
replace_runs_id (c ∷ cs) ((a, n), h) = rw (a, replace_runs_id cs h)

-- Every character of a normalized text is an ASCII lower-case letter, a digit, a dot or a hyphen, and
-- normalizing again changes nothing.
pub normalize_canonical :
    (cs : List ℕ) → All IsIdChar (normalize cs) × (normalize (normalize cs) ≡ normalize cs)
unfolding normalize
normalize_canonical cs =
    let ok = replace_runs-IsIdChar false _ (replace_underscores_lem (lower_all cs)) in
    (ok, rw (lower_all_lem _ ok, replace_underscores_id _ ok, replace_runs_id _ ok))
