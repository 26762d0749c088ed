-- ===== src/Env/Secrets/Scan.antt =====
-- src/env/secrets.ts: each reference that a text holds is matched, wherever it stands.
use Prim.Native.Char.{Char, code}
use apiwright.Env.Secrets.Reference.{
  IsNameChar, AllNameChars, concat, reference, match_secret_parts,
}
use apiwright.Env.Secrets.{read_name, match_secret, secret_pieces}
use apiwright.Env.Sets.{HasToken}
use apiwright.Env.Templates.{is_word, after_prefix, size}
use apiwright.Prelude.{
  ℕ, zero, suc, ◌+◌, ◌≤◌, ◌≡◌, ◌≢◌, refl, ◌∙◌, ap, true, false, some, String, str_eq, eq_iff, ◌==◌,
  Bool-cases, Option-cases, none_ne_some, some-injective, inl, inr, arith,
}

abbrev dollar : Char
dollar = "$"

name_is_word : (c : ℕ) → IsNameChar c → is_word c ≡ true
unfolding is_word
name_is_word c h = ground arith

word_no_dollar : (c : ℕ) → is_word c ≡ true → (c == 36) ≡ false
unfolding is_word
word_no_dollar c h = ground arith

-- At least `k` characters, of which the first `k` are no dollar signs.
abbrev IsClear : ℕ → String → Type 0
IsClear zero s = Unit
IsClear (suc k) String.[] = ⊥
IsClear (suc k) (String.◌∷◌ c s) = ((code c == 36) ≡ false) × IsClear k s

IsClear-at : (k m : ℕ) (s : String) → m ≡ k → IsClear k s → IsClear m s
IsClear-at k m s e h = rw e h

after_prefix-IsClear :
    (p s rest : String) (k m : ℕ)
    → IsClear (size p) p
    → after_prefix p s ≡ some rest
    → IsClear k rest
    → m ≡ size p + k
    → IsClear m s
unfolding after_prefix size
after_prefix-IsClear String.[] s rest k m p e h n =
    let same : m ≡ k = omega arith in rw (same, some-injective e) h
after_prefix-IsClear (String.◌∷◌ c p) String.[] rest k m d e h n = absurd (none_ne_some e)
after_prefix-IsClear (String.◌∷◌ c p) (String.◌∷◌ d s) rest k zero q e h n = absurd (omega arith)
after_prefix-IsClear (String.◌∷◌ c p) (String.◌∷◌ d s) rest k (suc m) (q, qs) e h n =
    elim (Bool-cases (code c == code d)) [
      | inl same ↦
          (ground arith, after_prefix-IsClear p s rest k m qs (rw same at e) h (omega arith))
      | inr other ↦ absurd (none_ne_some (rw other at e))
    ]

read_name-IsClear :
    (s : String) (k m : ℕ) → IsClear k (read_name s).1 → m ≡ size (read_name s).0 + k → IsClear m s
unfolding read_name size
read_name-IsClear String.[] k m h n = let same : m ≡ k = omega arith in rw same h
read_name-IsClear (String.◌∷◌ c s) k zero h n = tt
read_name-IsClear (String.◌∷◌ c s) k (suc m) h n = elim (Bool-cases (is_word (code c))) [
  | inl e ↦
      (word_no_dollar (code c) e, read_name-IsClear s k m (rw e at h) (omega (arith, rw e at n)))
  | inr e ↦ IsClear-at k (suc m) (String.◌∷◌ c s) (omega (arith, rw e at n)) (rw e at h)
]

after_prefix_tail :
    (c d : Char) (p s rest : String)
    → after_prefix (String.◌∷◌ c p) (String.◌∷◌ d s) ≡ some rest
    → after_prefix p s ≡ some rest
unfolding after_prefix
after_prefix_tail c d p s rest e = elim (Bool-cases (code c == code d)) [
  | inl same ↦ rw same at e
  | inr other ↦ absurd (none_ne_some (rw other at e))
]

-- Behind its first character a match has no dollar sign.
match_secret-IsClear :
    (c : Char) (s name : String)
    → match_secret (String.◌∷◌ c s) ≡ some name
    → IsClear (size name + 9) s
unfolding size
match_secret-IsClear c s name h =
    let (tail, rest, e, n, d, f) = match_secret_parts (String.◌∷◌ c s) name h in
    let brace = after_prefix-IsClear "}" (read_name tail).1 rest 0 1 (refl, tt) d tt refl in
    let named = read_name-IsClear tail 1 (size name + 1) brace (omega (arith, ap size n)) in
    after_prefix-IsClear "{secret." s tail (size name + 1) (size name + 9)
      (refl, (refl, (refl, (refl, (refl, (refl, (refl, (refl, tt))))))))
      (after_prefix_tail _ c "{secret." s tail e) named (omega arith)

-- So a match before a reference does not reach into it.
IsClear-bound : (k : ℕ) (b name after : String) → IsClear k (reference b name after) → k ≤ size b
unfolding size
IsClear-bound zero b name after h = omega arith
IsClear-bound (suc k) String.[] name after (h, t) = absurd (ground arith)
IsClear-bound (suc k) (String.◌∷◌ c b) name after (h, t) =
    omega (arith, IsClear-bound k b name after t)

after_prefix-append : (p s : String) → after_prefix p (concat p s) ≡ some s
unfolding after_prefix
after_prefix-append String.[] s = refl
after_prefix-append (String.◌∷◌ c p) s =
    let same : (code c == code c) ≡ true = ground arith in rw same (after_prefix-append p s)

read_name-append :
    (name after : String)
    → AllNameChars name
    → read_name (concat name (concat "}" after)) ≡ (name, concat "}" after)
unfolding read_name is_word
read_name-append String.[] after h = refl
read_name-append (String.◌∷◌ c name) after (a, h) =
    rw (name_is_word (code c) a, read_name-append name after h) refl

match_secret_of_parts :
    (s tail rest name : String)
    → after_prefix "${secret." s ≡ some tail
    → (read_name tail).0 ≡ name
    → after_prefix "}" (read_name tail).1 ≡ some rest
    → str_eq name "" ≡ false
    → match_secret s ≡ some name
unfolding match_secret
match_secret_of_parts s tail rest name e q d f = rw (e, d, q, f, match_secret) refl

match_secret-reference :
    (name after : String)
    → AllNameChars name
    → name ≢ ""
    → match_secret (reference "" name after) ≡ some name
match_secret-reference name after h n = elim (Bool-cases (str_eq name "")) [
  | inl e ↦ absurd (n ((eq_iff name "").0 e))
  | inr e ↦
      let tail = concat name (concat "}" after) in
      let read = read_name-append name after h in
      match_secret_of_parts (concat "${secret." tail) tail after name
        (after_prefix-append "${secret." tail) (ap (λ r. r.0) read)
        (ap (λ r. after_prefix "}" r.1) read ∙ after_prefix-append "}" after) e
]

first_piece :
    (c : Char) (s name : String)
    → match_secret (String.◌∷◌ c s) ≡ some name
    → HasToken name (secret_pieces 0 (String.◌∷◌ c s))
unfolding secret_pieces
first_piece c s name e = rw (e, secret_pieces) (inl refl)

pub scan :
    (k : ℕ) (b name after : String)
    → AllNameChars name
    → name ≢ ""
    → k ≤ size b
    → HasToken name (secret_pieces k (reference b name after))
unfolding secret_pieces size
scan zero String.[] name after h n l =
    first_piece dollar (concat "{secret." (concat name (concat "}" after))) name
      (match_secret-reference name after h n)
scan (suc k) String.[] name after h n l = absurd (omega arith)
scan (suc k) (String.◌∷◌ c b) name after h n l = scan k b name after h n (omega arith)
scan zero (String.◌∷◌ c b) name after h n l =
    let rest = reference b name after in
    elim (Option-cases (match_secret (String.◌∷◌ c rest))) [
      | inl e ↦ rw (e, secret_pieces) (scan zero b name after h n (omega arith))
      | inr (found, e) ↦
          rw (e, secret_pieces)
            (inr (
              scan (size found + 9) b name after h n (
                IsClear-bound (size found + 9) b name after (match_secret-IsClear c rest found e))))
    ]
