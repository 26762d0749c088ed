-- ===== src/Catalog/Plan/Keeps.antt =====
-- src/test-catalog/test-plan-generator.ts: what the skip pass of an endpoint leaves alone, and which
-- cases it adds.
use apiwright.Prelude.{
  ℕ, suc, ◌≡◌, refl, Bool, true, false, List, [], ◌∷◌, ◌++◌, String, Bool-cases, Option-cases, inl,
  inr, ◌∙◌, sym, ap,
}
use mathlib.Core.List.{append-nil, append_assoc}
use apiwright.Catalog.Case.{TestCase, TestCaseGenerator}
use apiwright.Catalog.Endpoint.{CanonicalEndpoint}
use apiwright.Catalog.Plan.{
  Validation, plan_valid, plan_endpoint, generate_raw_cases, invalid_endpoint_warning,
}
use apiwright.Catalog.Plan.Reference.{unskipped}
use apiwright.Catalog.Plan.Skipping.{
  Progress, SkipPass, count_hit, count_hits, emit_endpoint_skip_warnings, apply_skips, includes,
  scan_case, scan_cases, endpoint_skips_of, warn, token_warnings, kinds_fired,
}
use apiwright.Catalog.Skips.{match_skip, should_skip}

count_hit_keeps :
    (endpoint : CanonicalEndpoint) (skips : List String) (token : String) (n : ℕ) (p : Progress)
    → ((count_hit endpoint skips token n p).planned ≡ p.planned)
      × ((count_hit endpoint skips token n p).skipped ≡ p.skipped)
      × ((count_hit endpoint skips token n p).cases ≡ p.cases)
unfolding count_hit
count_hit_keeps endpoint skips token n p = elim (Bool-cases (includes skips token)) [
  | inl e ↦ (rw e, rw e, rw e)
  | inr e ↦ (rw e, rw e, rw e)
]

count_hits_keeps :
    (endpoint : CanonicalEndpoint) (skips : List String) (hits : List (String × ℕ)) (p : Progress)
    → ((count_hits endpoint skips hits p).planned ≡ p.planned)
      × ((count_hits endpoint skips hits p).skipped ≡ p.skipped)
      × ((count_hits endpoint skips hits p).cases ≡ p.cases)
unfolding count_hits
count_hits_keeps endpoint skips [] p = (refl, refl, refl)
count_hits_keeps endpoint skips ((token, n) ∷ hits) p =
    let (a, b, c) = count_hits_keeps endpoint skips hits (count_hit endpoint skips token n p) in
    let (a', b', c') = count_hit_keeps endpoint skips token n p in (a ∙ a', b ∙ b', c ∙ c')

scan_case-kept :
    (skips global_skips : List String) (c : TestCase) (pass : SkipPass)
    → (scan_case skips global_skips c pass).kept
      ≡ pass.kept ++ unskipped skips global_skips (c ∷ [])
unfolding scan_case unskipped should_skip
scan_case-kept skips global_skips c pass = elim (Option-cases (match_skip c skips global_skips)) [
  | inl e ↦ rw (e, scan_case)
  | inr (t, e) ↦ rw (e, scan_case) (sym (append-nil pass.kept))
]

unskipped_cons :
    (skips global_skips : List String) (c : TestCase) (cases : List TestCase)
    → unskipped skips global_skips (c ∷ cases)
      ≡ unskipped skips global_skips (c ∷ []) ++ unskipped skips global_skips cases
unfolding unskipped
unskipped_cons skips global_skips c cases = elim (Bool-cases (should_skip c skips global_skips)) [
  | inl e ↦ rw e
  | inr e ↦ rw e
]

scan_cases-kept :
    (skips global_skips : List String) (cases : List TestCase) (pass : SkipPass)
    → (scan_cases skips global_skips cases pass).kept
      ≡ pass.kept ++ unskipped skips global_skips cases
unfolding scan_cases
scan_cases-kept skips global_skips [] pass = unfold unskipped in sym (append-nil pass.kept)
scan_cases-kept skips global_skips (c ∷ cases) pass =
    scan_cases-kept skips global_skips cases _
    ∙ ap (λ k. k ++ unskipped skips global_skips cases) (scan_case-kept skips global_skips c pass)
    ∙ append_assoc pass.kept _ _
    ∙ ap (λ k. pass.kept ++ k) (sym (unskipped_cons skips global_skips c cases))

pub apply_skips_keeps :
    (global_skips : List String) (endpoint : CanonicalEndpoint) (cases : List TestCase)
    (p : Progress)
    → ((apply_skips global_skips endpoint cases p).planned ≡ p.planned)
      × ((apply_skips global_skips endpoint cases p).skipped ≡ p.skipped)
      × ((apply_skips global_skips endpoint cases p).cases
          ≡ p.cases ++ unskipped (endpoint_skips_of endpoint) global_skips cases)
unfolding apply_skips emit_endpoint_skip_warnings
apply_skips_keeps global_skips endpoint cases p =
    let skips = endpoint_skips_of endpoint in
    let pass = scan_cases skips global_skips cases (record { token_hits = []; kept = [] }) in
    let (a, b, c) =
      count_hits_keeps endpoint skips pass.token_hits
        (warn p (token_warnings endpoint (kinds_fired cases))) in
    (
      a,
      b,
      ap (λ k. k ++ pass.kept) c
          ∙ ap (λ k. p.cases ++ k) (scan_cases-kept skips global_skips cases _),
    )

module _ (validate_endpoint : CanonicalEndpoint → Validation) (generators : List TestCaseGenerator)
    (skip_globally : List String) (flag : Bool) (i : ℕ) (endpoint : CanonicalEndpoint)
    (p : Progress) where
  pub plan_endpoint_valid :
      (validate_endpoint endpoint).valid ≡ true
      → plan_endpoint validate_endpoint generators skip_globally flag i endpoint p
        ≡ plan_valid validate_endpoint generators skip_globally flag endpoint
            (generate_raw_cases generators endpoint)
            p
  unfolding plan_endpoint
  plan_endpoint_valid h = rw h

  pub plan_endpoint_invalid :
      (validate_endpoint endpoint).valid ≡ false
      → plan_endpoint validate_endpoint generators skip_globally flag i endpoint p ≡ record p {
        skipped = suc p.skipped;
        warnings =
            p.warnings
            ++ invalid_endpoint_warning endpoint i (validate_endpoint endpoint).errors ∷ [];
      }
  unfolding plan_endpoint
  plan_endpoint_invalid h = rw h
