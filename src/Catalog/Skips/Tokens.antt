-- ===== src/Catalog/Skips/Tokens.antt =====
-- src/test-catalog/skip-resolver.ts: tokens written as `kind:field` and read again.
use Prim.Native.Char.{Char, code}
use apiwright.Prelude.{
  suc, ◌+◌, ◌≡◌, refl, false, Option, none, some, String, ◌≢◌, ap, arith, and_false,
}
use apiwright.Catalog.Skips.{
  parse_skip_token, parsed, is_blank, is_white_space, is_colon, count_colons, starts_with_colon,
  ends_with_colon, before_colon, after_colon,
}

abbrev colon : Char
colon = ":"

-- `${kind}:${field}`
unfoldable pub join_colon : String → String → String
join_colon String.[] f = String.◌∷◌ colon f
join_colon (String.◌∷◌ c kind) f = String.◌∷◌ c (join_colon kind f)

-- The text of a token, with its field if it has one.
unfoldable pub print_skip_token : String → Option String → String
unfolding join_colon
print_skip_token kind none = kind
print_skip_token kind (some f) = join_colon kind f

-- What a token can say: neither part holds a colon; a part before or after the colon is not empty, and a
-- kind alone is not blank.
abbrev pub IsToken : String → Option String → Type 0
IsToken kind none = (count_colons kind ≡ 0) × (is_blank kind ≡ false)
IsToken kind (some f) = (count_colons kind ≡ 0) × (kind ≢ "") × (count_colons f ≡ 0) × (f ≢ "")

is_blank-join_colon : (kind f : String) → is_blank (join_colon kind f) ≡ false
unfolding is_blank join_colon is_white_space
is_blank-join_colon String.[] f = refl
is_blank-join_colon (String.◌∷◌ c kind) f =
    rw (is_blank-join_colon kind f, and_false (is_white_space (code c)))

count_colons-join_colon :
    (kind f : String) → count_colons (join_colon kind f) ≡ suc (count_colons kind + count_colons f)
unfolding count_colons join_colon
count_colons-join_colon String.[] f = omega arith
count_colons-join_colon (String.◌∷◌ c kind) f = omega (arith, count_colons-join_colon kind f)

head_no_colon : (c : Char) (s : String) → count_colons (String.◌∷◌ c s) ≡ 0 → is_colon c ≡ false
unfolding count_colons
head_no_colon c s h = ground arith

tail_no_colon : (c : Char) (s : String) → count_colons (String.◌∷◌ c s) ≡ 0 → count_colons s ≡ 0
unfolding count_colons
tail_no_colon c s h = omega (arith, h)

ends_no_colon : (s : String) → count_colons s ≡ 0 → ends_with_colon s ≡ false
unfolding ends_with_colon
ends_no_colon String.[] h = refl
ends_no_colon (String.◌∷◌ c String.[]) h = head_no_colon c "" h
ends_no_colon (String.◌∷◌ c (String.◌∷◌ d s)) h =
    ends_no_colon (String.◌∷◌ d s) (tail_no_colon c (String.◌∷◌ d s) h)

ends_with_colon-join_colon :
    (kind : String) (d : Char) (f : String)
    → ends_with_colon (join_colon kind (String.◌∷◌ d f)) ≡ ends_with_colon (String.◌∷◌ d f)
unfolding ends_with_colon join_colon
ends_with_colon-join_colon String.[] d f = refl
ends_with_colon-join_colon (String.◌∷◌ c String.[]) d f = refl
ends_with_colon-join_colon (String.◌∷◌ c (String.◌∷◌ b kind)) d f =
    ends_with_colon-join_colon (String.◌∷◌ b kind) d f

before_colon-join_colon :
    (kind f : String) → count_colons kind ≡ 0 → before_colon (join_colon kind f) ≡ kind
unfolding before_colon join_colon
before_colon-join_colon String.[] f h = refl
before_colon-join_colon (String.◌∷◌ c kind) f h =
    rw (head_no_colon c kind h)
      (ap (λ s. String.◌∷◌ c s) (before_colon-join_colon kind f (tail_no_colon c kind h)))

after_colon-join_colon :
    (kind f : String) → count_colons kind ≡ 0 → after_colon (join_colon kind f) ≡ f
unfolding after_colon join_colon
after_colon-join_colon String.[] f h = refl
after_colon-join_colon (String.◌∷◌ c kind) f h =
    rw (head_no_colon c kind h) (after_colon-join_colon kind f (tail_no_colon c kind h))

starts_no_colon :
    (c : Char) (kind f : String)
    → count_colons (String.◌∷◌ c kind) ≡ 0
    → starts_with_colon (join_colon (String.◌∷◌ c kind) f) ≡ false
unfolding starts_with_colon join_colon
starts_no_colon c kind f h = head_no_colon c kind h

parse_joined :
    (c : Char) (kind : String) (d : Char) (f : String)
    → count_colons (String.◌∷◌ c kind) ≡ 0
    → count_colons (String.◌∷◌ d f) ≡ 0
    → parse_skip_token (join_colon (String.◌∷◌ c kind) (String.◌∷◌ d f))
      ≡ parsed (String.◌∷◌ c kind) (some (String.◌∷◌ d f))
unfolding parse_skip_token
parse_joined c kind d f h k =
    let token = join_colon (String.◌∷◌ c kind) (String.◌∷◌ d f) in
    let counted = count_colons-join_colon (String.◌∷◌ c kind) (String.◌∷◌ d f) in
    rw (
      is_blank-join_colon (String.◌∷◌ c kind) (String.◌∷◌ d f),
      counted,
      h,
      k,
      starts_no_colon c kind (String.◌∷◌ d f) h,
      ends_with_colon-join_colon (String.◌∷◌ c kind) d f,
      ends_no_colon (String.◌∷◌ d f) k,
      before_colon-join_colon (String.◌∷◌ c kind) (String.◌∷◌ d f) h,
      after_colon-join_colon (String.◌∷◌ c kind) (String.◌∷◌ d f) h,
    )

-- A token that can be written is read back as its kind and its field.
pub parse-print_skip_token :
    (kind : String) (f : Option String)
    → IsToken kind f
    → parse_skip_token (print_skip_token kind f) ≡ parsed kind f
unfolding print_skip_token
parse-print_skip_token kind none (h, b) = unfold parse_skip_token in rw (b, h)
parse-print_skip_token String.[] (some f) (h, n, k, m) = absurd (n refl)
parse-print_skip_token (String.◌∷◌ c kind) (some String.[]) (h, n, k, m) = absurd (m refl)
parse-print_skip_token (String.◌∷◌ c kind) (some (String.◌∷◌ d f)) (h, n, k, m) =
    parse_joined c kind d f h k
