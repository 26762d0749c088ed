-- ===== src/Runner/Verdicts/Preflight.antt =====
-- When the CORS preflight passes.
use mathlib.Core.Bool.{false≢true}
use mathlib.Core.Path.{subst}
use apiwright.Prelude.{
  ℕ, ◌≡◌, ◌↔◌, ◌⊎◌, inl, inr, refl, sym, ap, ◌∙◌, true, Bool-cases, Option-cases, some, List,
  String, ◌==◌, ◌||◌, arith, none_ne_some, some-injective, List-cases, cons_ne_nil,
}
use apiwright.Runner.Verdicts.{
  pass, ResponseRecord, CorsPreflightParams, sent_origin, origin_accepted, csv_set_missing,
  allow_methods_verdict, cors_preflight_verdict,
}
use apiwright.Runner.Verdicts.Passing.{
  pass_ne_fail, csv_set_missing_iff, origin_accepted_iff, Covers, CoversHeaders,
  allow_headers_verdict-pass_iff,
}

status_iff : (n : ℕ) → ((n == 200 || n == 204) ≡ true) ↔ ((n ≡ 200) ⊎ (n ≡ 204))
status_iff n = (λ e. ground arith, λ h. ground arith)

module _ (split_trimmed : String → List String) (to_upper to_lower : String → String)
    (response : ResponseRecord) (params : CorsPreflightParams) where
  abbrev pub CoversMethods : Type 0
  CoversMethods =
      (acam : String) × (response.headers "access-control-allow-methods" ≡ some acam)
      × Covers split_trimmed to_upper to_lower response to_upper acam params.allow_methods

  allow_methods_verdict-pass_iff :
      (allow_methods_verdict split_trimmed to_upper to_lower response params ≡ pass) ↔ (
        CoversMethods × CoversHeaders split_trimmed to_upper to_lower response params.allow_headers)
  unfolding allow_methods_verdict
  allow_methods_verdict-pass_iff =
      elim (Option-cases (response.headers "access-control-allow-methods")) [
        | inl missing ↦ (
          λ p. absurd (pass_ne_fail (rw (missing, allow_methods_verdict) at p)),
          λ ((acam, found, _), _). absurd (none_ne_some (sym missing ∙ found)),
        )
        | inr (acam, found) ↦
            let (to, from) = csv_set_missing_iff split_trimmed to_upper acam params.allow_methods in
            elim (List-cases (csv_set_missing split_trimmed acam params.allow_methods to_upper)) [
              | inr (m, ms, some_missing) ↦ (
                λ p. absurd (pass_ne_fail (rw (found, some_missing, allow_methods_verdict) at p)),
                λ ((other, found_other, covers), _).
                    let same : other ≡ acam = some-injective (sym found_other ∙ found) in
                    absurd (
                      cons_ne_nil (
                        sym some_missing
                        ∙ from (
                            subst
                              (λ v.
                                Covers split_trimmed to_upper to_lower response to_upper v
                                  params.allow_methods)
                              same covers))),
              )
              | inl all_there ↦ elim (List-cases params.allow_headers) [
                | inl none_declared ↦ (
                  λ p. ((acam, found, to all_there), rw none_declared tt),
                  λ _. rw (found, all_there, none_declared, allow_methods_verdict) refl,
                )
                | inr (h, hs, declared) ↦
                    let (to_h, from_h) =
                      allow_headers_verdict-pass_iff split_trimmed to_upper to_lower response h
                        hs in
                    (
                      λ p. (
                        (acam, found, to all_there),
                        subst (CoversHeaders split_trimmed to_upper to_lower response)
                            (sym declared)
                            (to_h (rw (found, all_there, declared, allow_methods_verdict) at p)),
                      ),
                      λ (_, covers).
                          rw (found, all_there, declared, allow_methods_verdict)
                            (from_h (
                              subst (CoversHeaders split_trimmed to_upper to_lower response)
                                declared covers)),
                    )
              ]
            ]
      ]

  -- What the CORS declaration asks of the answer to a preflight.
  pub record IsPreflight : Type 0 where
    pub status : (response.status ≡ 200) ⊎ (response.status ≡ 204)
    pub origin :
        response.headers "access-control-allow-origin" ≡ some (sent_origin params.allow_origins)
    pub methods : CoversMethods
    pub headers : CoversHeaders split_trimmed to_upper to_lower response params.allow_headers

  -- A preflight passes exactly when the status is 200 or 204, the allowed origin is exactly the
  -- first declared one (also where that is the only one and "*"), every declared method is among
  -- the allowed methods in upper case, and every declared header among the allowed headers in
  -- lower case; where no header is declared, the allowed headers may be absent.
  pub cors_preflight_verdict-pass_iff :
      (cors_preflight_verdict split_trimmed to_upper to_lower response params ≡ pass) ↔ IsPreflight
  unfolding cors_preflight_verdict
  cors_preflight_verdict-pass_iff =
      elim (Bool-cases (response.status == 200 || response.status == 204)) [
        | inr other ↦ (
          λ p. absurd (pass_ne_fail (rw (other, cors_preflight_verdict) at p)),
          λ h. absurd (false≢true (sym other ∙ (status_iff response.status).1 h.status)),
        )
        | inl good ↦ elim (Option-cases (response.headers "access-control-allow-origin")) [
          | inl missing ↦ (
            λ p. absurd (pass_ne_fail (rw (good, missing, cors_preflight_verdict) at p)),
            λ h. absurd (none_ne_some (sym missing ∙ h.origin)),
          )
          | inr (acao, found) ↦ elim (Bool-cases (origin_accepted params.allow_origins acao)) [
            | inr refused ↦ (
              λ p. absurd (pass_ne_fail (rw (good, found, refused, cors_preflight_verdict) at p)),
              λ h. absurd (
                  false≢true (
                    sym refused
                    ∙ (origin_accepted_iff params.allow_origins acao).1
                        (some-injective (sym found ∙ h.origin)))),
            )
            | inl accepted ↦ (
              λ p.
                  let covers =
                    allow_methods_verdict-pass_iff.0
                      (rw (good, found, accepted, cors_preflight_verdict) at p) in
                  record {
                    status = (status_iff response.status).0 good;
                    origin =
                        found
                        ∙ ap some ((origin_accepted_iff params.allow_origins acao).0 accepted);
                    methods = covers.0;
                    headers = covers.1;
                  },
              λ h.
                  rw (good, found, accepted, cors_preflight_verdict)
                    (allow_methods_verdict-pass_iff.1 (h.methods, h.headers)),
            )
          ]
        ]
      ]
