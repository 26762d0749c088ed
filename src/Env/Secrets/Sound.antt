-- ===== src/Env/Secrets/Sound.antt =====
-- src/env/secrets.ts: each match is a reference that the text holds.
use Prim.Native.Char.{Char, code}
use mathlib.Core.Bool.{false≢true}
use text.Mathlib.TextEquality.{Char-path}
use apiwright.Env.Secrets.Reference.{
  IsNameChar, AllNameChars, concat, IsReference, match_secret_parts,
}
use apiwright.Env.Secrets.{read_name, match_secret, secret_pieces}
use apiwright.Env.Sets.{HasToken}
use apiwright.Env.Templates.{is_word, after_prefix, size}
use apiwright.Prelude.{
  ℕ, zero, suc, ◌+◌, ◌≡◌, ◌⊎◌, refl, sym, ◌∙◌, ap, true, some, String, eq_iff, ◌==◌, ==_iff,
  Bool-cases, Option-cases, none_ne_some, some-injective, inl, inr, arith,
}

word_is_name : (c : ℕ) → is_word c ≡ true → IsNameChar c
unfolding is_word
word_is_name c h = ground arith

after_prefix-concat : (p s rest : String) → after_prefix p s ≡ some rest → s ≡ concat p rest
unfolding after_prefix
after_prefix-concat String.[] s rest e = some-injective e
after_prefix-concat (String.◌∷◌ c p) String.[] rest e = absurd (none_ne_some e)
after_prefix-concat (String.◌∷◌ c p) (String.◌∷◌ d s) rest e =
    elim (Bool-cases (code c == code d)) [
      | inl same ↦
          rw
            (
              Char-path c d ((==_iff (code c) (code d)).0 same),
              after_prefix-concat p s rest (rw same at e),
            )
            refl
      | inr other ↦ absurd (none_ne_some (rw other at e))
    ]

read_name-concat :
    (s : String) → AllNameChars (read_name s).0 × (s ≡ concat (read_name s).0 (read_name s).1)
unfolding read_name
read_name-concat String.[] = (tt, refl)
read_name-concat (String.◌∷◌ c s) = elim (Bool-cases (is_word (code c))) [
  | inl e ↦
      let rest = read_name-concat s in
      rw e ((word_is_name (code c) e, rest.0), ap (λ t. String.◌∷◌ c t) rest.1)
  | inr e ↦ rw e (tt, refl)
]

match_secret-IsReference : (s name : String) → match_secret s ≡ some name → IsReference s name
match_secret-IsReference s name h =
    let (tail, rest, e, n, d, f) = match_secret_parts s name h in
    let read = read_name-concat tail in
    let brace = after_prefix-concat "}" (read_name tail).1 rest d in
    let start = after_prefix-concat "${secret." s tail e in
    record {
      before = "";
      after = rest;
      name_chars = rw n at read.0;
      not_empty =
          λ empty. absurd (false≢true (sym f ∙ (eq_iff (read_name tail).0 "").1 (n ∙ empty)));
      spelled =
          start
          ∙ ap (λ t. concat "${secret." t)
              (read.1
                ∙ ap (λ t. concat (read_name tail).0 t) brace
                ∙ ap (λ m. concat m (concat "}" rest)) n);
    }

-- A reference in the text behind a character is one in the whole text.
IsReference-after :
    (c : Char) (s name : String) → IsReference s name → IsReference (String.◌∷◌ c s) name
IsReference-after c s name r = record {
  before = String.◌∷◌ c r.before;
  after = r.after;
  name_chars = r.name_chars;
  not_empty = r.not_empty;
  spelled = ap (λ t. String.◌∷◌ c t) r.spelled;
}

pub HasToken-IsReference :
    (k : ℕ) (s name : String) → HasToken name (secret_pieces k s) → IsReference s name
unfolding secret_pieces
HasToken-IsReference zero String.[] name h = elim h [ ]
HasToken-IsReference (suc k) String.[] name h = elim h [ ]
HasToken-IsReference (suc k) (String.◌∷◌ c s) name h =
    IsReference-after c s name (HasToken-IsReference k s name h)
HasToken-IsReference zero (String.◌∷◌ c s) name h =
    elim (Option-cases (match_secret (String.◌∷◌ c s))) [
      | inl e ↦
          IsReference-after c s name (HasToken-IsReference zero s name (rw (e, secret_pieces) at h))
      | inr (found, e) ↦
          let here_or_later : (found ≡ name) ⊎ HasToken name (secret_pieces (size found + 9) s) =
            rw (e, secret_pieces) at h in
          elim here_or_later [
            | inl same ↦ match_secret-IsReference (String.◌∷◌ c s) name (e ∙ ap some same)
            | inr later ↦
                IsReference-after c s name (HasToken-IsReference (size found + 9) s name later)
          ]
    ]
