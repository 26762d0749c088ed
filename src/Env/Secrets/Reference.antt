-- ===== src/Env/Secrets/Reference.antt =====
-- src/env/secrets.ts: a reference to a secret, told without the matcher, and what a match is made of.
use Prim.Native.Char.{code}
use apiwright.Env.Secrets.{read_name, match_secret}
use apiwright.Env.Templates.{after_prefix}
use apiwright.Prelude.{
  ℕ, ◌≤◌, ◌≡◌, ◌≢◌, ◌⊎◌, false, some, String, str_eq, Bool-cases, Option-cases, none_ne_some,
  some-injective, inl, inr,
}

-- A letter of ASCII, a digit or an underscore.
abbrev pub IsNameChar : ℕ → Type 0
IsNameChar c = ((48 ≤ c) × (c ≤ 57)) ⊎ (((65 ≤ c) × (c ≤ 90)) ⊎ (((97 ≤ c) × (c ≤ 122)) ⊎ (c ≡ 95)))

abbrev pub AllNameChars : String → Type 0
AllNameChars String.[] = Unit
AllNameChars (String.◌∷◌ c s) = IsNameChar (code c) × AllNameChars s

abbrev pub concat : String → String → String
concat String.[] t = t
concat (String.◌∷◌ c s) t = String.◌∷◌ c (concat s t)

-- The text is `before`, then `${secret.NAME}`, then `after`.
abbrev pub reference : String → String → String → String
reference before name after = concat before (concat "${secret." (concat name (concat "}" after)))

pub record IsReference (text name : String) : Type 0 where
  pub before : String
  pub after : String
  pub name_chars : AllNameChars name
  pub not_empty : name ≢ ""
  pub spelled : text ≡ reference before name after

-- What a match is made of.
pub match_secret_parts :
    (s name : String)
    → match_secret s ≡ some name
    → (tail : String) × (rest : String) × (after_prefix "${secret." s ≡ some tail)
      × ((read_name tail).0 ≡ name)
      × (after_prefix "}" (read_name tail).1 ≡ some rest)
      × (str_eq (read_name tail).0 "" ≡ false)
unfolding match_secret
match_secret_parts s name h = elim (Option-cases (after_prefix "${secret." s)) [
  | inl e ↦ absurd (none_ne_some (rw (e, match_secret) at h))
  | inr (tail, e) ↦ elim (Option-cases (after_prefix "}" (read_name tail).1)) [
    | inl d ↦ absurd (none_ne_some (rw (e, d, match_secret) at h))
    | inr (rest, d) ↦ elim (Bool-cases (str_eq (read_name tail).0 "")) [
      | inl f ↦ absurd (none_ne_some (rw (e, d, f, match_secret) at h))
      | inr f ↦ (tail, rest, e, some-injective (rw (e, d, f, match_secret) at h), d, f)
    ]
  ]
]
