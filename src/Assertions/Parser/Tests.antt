-- ===== src/Assertions/Parser/Tests.antt =====
-- The parser of arithmetic on `(a.x + 2) * 3 - 1` and on faulty tokens.
use apiwright.Prelude.{◌+◌, ◌≡◌, refl, [], ◌∷◌, String, str_eq, length, arith, if◌then◌else◌}
use apiwright.Assertions.Parser.{operators_loop, parse_factor, parse_term, parse_group, parse_to}
use apiwright.Assertions.Parser.Ends.{operators_loop-ends}
use apiwright.Assertions.Parser.Printer.{print, nesting, IsReadable, token, operator_token}
use apiwright.Assertions.Parser.RoundTrip.{parse_to-print}
use apiwright.Assertions.State.{
  TargetPaths, found, faulty, ParserState, additive, multiplicative, ok, has_dot,
}
use apiwright.Assertions.Tokens.{
  plus, minus, times, ArithmeticExpr, literal, reference, binary, number,
}

abbrev paths : TargetPaths String
paths = record {
  parse_target = λ raw. if str_eq raw "a.x" then found raw else faulty ("unknown root" ∷ []);
  response_body = λ segments. "body";
}

abbrev sample : ArithmeticExpr String
sample =
    binary minus (binary times (binary plus (reference "a.x") (literal 2)) (literal 3)) (literal 1)

sample_tokens : length (print (λ r. r) 0 sample) ≡ 9
unfolding print
sample_tokens = refl

sample-IsReadable : IsReadable (λ r. r) paths sample
unfolding has_dot
sample-IsReadable = ((((refl, refl), tt), tt), tt)

sample-nesting : nesting (λ r. r) 0 sample ≡ 1
unfolding nesting
sample-nesting = refl

parse_to-print_example : parse_to paths 64 (print (λ r. r) 0 sample) ≡ ok sample
parse_to-print_example =
    parse_to-print (λ r. r) paths 64 sample (omega (arith, sample-nesting)) sample-IsReadable

abbrev two_more : ParserState
two_more = record {
  rest = operator_token plus ∷ token (number 2) "2" ∷ [];
  cursor = 1;
  errors = [];
}

operators_loop-ends_example :
    (operators_loop multiplicative
        (parse_factor paths (parse_group paths 64 64))
        (length two_more.rest + 5)
        (literal 1)
        two_more.rest
        two_more
      ≡ operators_loop multiplicative
          (parse_factor paths (parse_group paths 64 64))
          (length two_more.rest)
          (literal 1)
          two_more.rest
          two_more)
    × (operators_loop additive
          (parse_term paths (parse_group paths 64 64))
          (length two_more.rest + 5)
          (literal 1)
          two_more.rest
          two_more
        ≡ operators_loop additive
            (parse_term paths (parse_group paths 64 64))
            (length two_more.rest)
            (literal 1)
            two_more.rest
            two_more)
operators_loop-ends_example = operators_loop-ends paths 64 64 5 (literal 1) two_more
