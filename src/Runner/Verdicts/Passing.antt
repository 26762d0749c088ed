-- ===== src/Runner/Verdicts/Passing.antt =====
-- When the verdicts pass.
use mathlib.Core.Bool.{false≢true}
use mathlib.Core.Path.{subst}
use apiwright.Prelude.{
  ◌≡◌, ◌≢◌, ◌↔◌, inl, inr, refl, sym, ap, ◌∙◌, true, Bool-cases, Option-cases, Option, none, some,
  List, [], ◌∷◌, String, str_eq, eq_iff, ==_iff, ◌==◌, arith, All, none_ne_some, some-injective,
  List-cases, cons_ne_nil,
}
use apiwright.Runner.Verdicts.{
  pass, fail, ResponseRecord, is_head_body_empty, same_text, etag_verdict,
  conditional_get_304_verdict, among, sent_origin, origin_accepted, folded_parts, csv_set_missing,
  allow_headers_verdict,
}

-- What the documentation asks of the second response.
pub record IsUnchanged (first second : ResponseRecord) : Type 0 where
  pub not_modified : second.status ≡ 304
  pub etag : String
  pub has_text : etag ≢ ""
  pub second_etag : second.headers "etag" ≡ some etag
  pub first_etag : first.headers "etag" ≡ some etag
  pub no_body : is_head_body_empty second.body ≡ true

pub pass_ne_fail : {reason : String} → fail reason ≡ pass → ⊥
pass_ne_fail e = cc

same_text_iff : (o : Option String) (s : String) → (same_text o s ≡ true) ↔ (o ≡ some s)
same_text_iff none s = (λ e. absurd (false≢true e), λ e. absurd (none_ne_some e))
same_text_iff (some t) s =
    (λ e. ap some (sym ((eq_iff s t).0 e)), λ e. (eq_iff s t).1 (sym (some-injective e)))

etag_verdict-pass_iff :
    (first second : ResponseRecord) (e : String)
    → (etag_verdict first second e ≡ pass)
      ↔ ((e ≢ "") × (first.headers "etag" ≡ some e) × (is_head_body_empty second.body ≡ true))
unfolding etag_verdict
etag_verdict-pass_iff first second e = (
  λ h. (
    ground (arith, eq_iff e ""),
    (same_text_iff (first.headers "etag") e).0 (ground (arith, eq_iff e "")),
    ground (arith, eq_iff e ""),
  ),
  λ (text, same, empty).
      ground (arith, eq_iff e "", (same_text_iff (first.headers "etag") e).1 same),
)

pub csv_set_missing_iff :
    (split_trimmed : String → List String) (fold : String → String) (actual : String)
    (expected : List String)
    → (csv_set_missing split_trimmed actual expected fold ≡ [])
      ↔ All (λ s. among (fold s) (folded_parts split_trimmed fold actual) ≡ true) expected
unfolding csv_set_missing
csv_set_missing_iff split_trimmed fold actual [] = (λ _. tt, λ _. refl)
csv_set_missing_iff split_trimmed fold actual (s ∷ rest) =
    let (to, from) = csv_set_missing_iff split_trimmed fold actual rest in
    elim (Bool-cases (among (fold s) (folded_parts split_trimmed fold actual))) [
      | inl e ↦ (
        λ h. (e, to (rw (e, csv_set_missing) at h)),
        λ (_, hs). rw (e, csv_set_missing) (from hs),
      )
      | inr e ↦ (
        λ h. absurd (cons_ne_nil (rw (e, csv_set_missing) at h)),
        λ (h, _). absurd (false≢true (sym e ∙ h)),
      )
    ]

pub origin_accepted_iff :
    (origins : List String) (acao : String)
    → (origin_accepted origins acao ≡ true) ↔ (acao ≡ sent_origin origins)
unfolding origin_accepted
origin_accepted_iff [] acao = eq_iff acao ""
origin_accepted_iff (o ∷ []) acao = elim (Bool-cases (str_eq o "*")) [
  | inl e ↦ (
    λ h. elim (Bool-cases (str_eq acao o)) [
      | inl same ↦ (eq_iff acao o).0 same
      | inr other ↦
          let starred : str_eq acao "*" ≡ true = ground arith in
          (eq_iff acao "*").0 starred ∙ sym ((eq_iff o "*").0 e)
    ],
    λ same. ground (arith, (eq_iff acao o).1 same),
  )
  | inr e ↦ (λ h. (eq_iff acao o).0 (ground arith), λ same. ground (arith, (eq_iff acao o).1 same))
]
origin_accepted_iff (o ∷ p ∷ rest) acao = eq_iff acao o

-- A conditional GET passes exactly when the second response is a 304 with no body, and both
-- responses carry the same ETag, which is not the empty text.
pub conditional_get_304_verdict-pass_iff :
    (first second : ResponseRecord)
    → (conditional_get_304_verdict first second ≡ pass) ↔ IsUnchanged first second
unfolding conditional_get_304_verdict
conditional_get_304_verdict-pass_iff first second = elim (Bool-cases (second.status == 304)) [
  | inr other ↦ (
    λ h. absurd (pass_ne_fail ((rw (other, conditional_get_304_verdict) at h))),
    λ h. absurd (false≢true (sym other ∙ (==_iff second.status 304).1 h.not_modified)),
  )
  | inl is_304 ↦ elim (Option-cases (second.headers "etag")) [
    | inl missing ↦ (
      λ h. absurd (pass_ne_fail ((rw (is_304, missing, conditional_get_304_verdict) at h))),
      λ h. absurd (none_ne_some (sym missing ∙ h.second_etag)),
    )
    | inr (etag, found) ↦
        let (to, from) = etag_verdict-pass_iff first second etag in
        (
          λ h.
              let (text, same, empty) = to (rw (is_304, found, conditional_get_304_verdict) at h) in
              record {
                not_modified = (==_iff second.status 304).0 is_304;
                etag = etag;
                has_text = text;
                second_etag = found;
                first_etag = same;
                no_body = empty;
              },
          λ h.
              let same : h.etag ≡ etag = some-injective (sym h.second_etag ∙ found) in
              rw (is_304, found, conditional_get_304_verdict)
                (from (
                  λ empty_text. h.has_text (same ∙ empty_text),
                  h.first_etag ∙ ap some same,
                  h.no_body,
                )),
        )
  ]
]

module _ (split_trimmed : String → List String) (to_upper to_lower : String → String)
    (response : ResponseRecord) where
  -- Every declared text is a part of the header's value, when both are folded.
  abbrev pub Covers : (String → String) → String → List String → Type 0
  Covers fold actual expected =
      All (λ s. among (fold s) (folded_parts split_trimmed fold actual) ≡ true) expected

  -- What the CORS declaration asks of the headers' value.
  abbrev pub CoversHeaders : List String → Type 0
  CoversHeaders [] = Unit
  CoversHeaders (h ∷ hs) =
      (acah : String) × (response.headers "access-control-allow-headers" ≡ some acah)
      × Covers to_lower acah (h ∷ hs)

  pub allow_headers_verdict-pass_iff :
      (h : String) (hs : List String)
      → (allow_headers_verdict split_trimmed to_upper to_lower response (h ∷ hs) ≡ pass)
        ↔ CoversHeaders (h ∷ hs)
  unfolding allow_headers_verdict
  allow_headers_verdict-pass_iff h hs =
      elim (Option-cases (response.headers "access-control-allow-headers")) [
        | inl missing ↦ (
          λ p. absurd (pass_ne_fail (rw (missing, allow_headers_verdict) at p)),
          λ (acah, found, _). absurd (none_ne_some (sym missing ∙ found)),
        )
        | inr (acah, found) ↦
            let (to, from) = csv_set_missing_iff split_trimmed to_lower acah (h ∷ hs) in
            elim (List-cases (csv_set_missing split_trimmed acah (h ∷ hs) to_lower)) [
              | inl all_there ↦ (
                λ p. (acah, found, to all_there),
                λ _. rw (found, all_there, allow_headers_verdict) refl,
              )
              | inr (m, ms, some_missing) ↦ (
                λ p. absurd (pass_ne_fail (rw (found, some_missing, allow_headers_verdict) at p)),
                λ (other, found_other, covers).
                    let same : other ≡ acah = some-injective (sym found_other ∙ found) in
                    absurd (
                      cons_ne_nil (
                        sym some_missing
                        ∙ from (subst (λ v. Covers to_lower v (h ∷ hs)) same covers))),
              )
            ]
      ]
