-- ===== src/NumberParser/Number.antt =====
-- cppext/numberparser.cpp: whole numbers, and numbers with too many digits.
use safely.Prelude.{
  ℕ, ◌+◌, ◌-◌, ◌*◌, ◌<◌, ◌≡◌, ◌≢◌, refl, arith, true, false, List, ◌∷◌, ◌++◌, add_u32, u32_mod,
  length, ◌∙◌,
}
use safely.NumberParser.{
  start, before_decimal, after_decimal, after_exponent, Parser, decimal_cutoff, reset, is_digit,
  next_start, next_before_decimal, next_after_decimal, next_after_exponent, next, feed,
}
use safely.NumberParser.Digits.{
  AllDigits, decimal, feed-cons, feed-append, with_integer, with_fraction, feed-integer,
  feed-fraction, feed-exponent,
}

-- a text of `-`, an integer that does not begin with a zero, a point, a fraction, `e`, `-`, and an
-- exponent
pub record IsNumber (c : ℕ) (integer fraction : List ℕ) (d : ℕ) (exponent : List ℕ) : Type 0 where
  pub not_zero : c ≢ b'0'
  pub integer_digits : AllDigits (c ∷ integer)
  pub fraction_digits : AllDigits fraction
  pub exponent_digits : AllDigits (d ∷ exponent)
  pub integer_fits : decimal 0 (c ∷ integer) < 10 * decimal_cutoff
  pub fraction_fits : decimal 0 fraction < 10 * decimal_cutoff
  pub exponent_fits : decimal 0 (d ∷ exponent) < 10 * decimal_cutoff
  pub short : length integer + length fraction + length exponent + 6 < u32_mod

abbrev scientific : ℕ → List ℕ → List ℕ → ℕ → List ℕ → List ℕ
scientific c integer fraction d exponent =
    b'-' ∷ c ∷ (integer ++ (b'.' ∷ (fraction ++ (b'e' ∷ b'-' ∷ d ∷ exponent))))

-- the parser after each of the characters that are not digits of a run
abbrev signed : Parser → Parser
signed p = record p { negative = true; processed = add_u32 p.processed 1 }

abbrev pub with_first : ℕ → Parser → Parser
with_first c p = record p {
  phase = before_decimal;
  predecimal = 0 * 10 + (c - b'0');
  processed = add_u32 p.processed 1;
}

abbrev pointed : Parser → Parser
pointed p = record p {
  is_zero = false;
  had_radix_point = true;
  phase = after_decimal;
  processed = add_u32 p.processed 1;
}

abbrev marked : Parser → Parser
marked p = record p { phase = after_exponent; processed = add_u32 p.processed 1 }

abbrev exponent_signed : Parser → Parser
exponent_signed p = record p { negative_exponent = true; processed = add_u32 p.processed 1 }

next-sign : (p : Parser) → p.phase ≡ start → p.negative ≡ false → next b'-' p ≡ (true, signed p)
unfolding next next_start
next-sign p s n = ground arith

pub next-first :
    (c : ℕ) (p : Parser)
    → p.phase ≡ start
    → p.predecimal ≡ 0
    → c ≢ b'0'
    → is_digit c ≡ true
    → next c p ≡ (true, with_first c p)
unfolding next next_start
next-first c p s z n d = ground arith

pub next-zero :
    next b'0' reset ≡ (true, record reset { is_zero = true; phase = before_decimal; processed = 1 })
unfolding next next_start
next-zero = refl

next-point : (p : Parser) → p.phase ≡ before_decimal → next b'.' p ≡ (true, pointed p)
unfolding next next_before_decimal
next-point p s = ground arith

next-marker : (p : Parser) → p.phase ≡ after_decimal → next b'e' p ≡ (true, marked p)
unfolding next next_after_decimal
next-marker p s = ground arith

next-exponent_sign :
    (p : Parser)
    → p.phase ≡ after_exponent
    → p.negative_exponent ≡ false
    → next b'-' p ≡ (true, exponent_signed p)
unfolding next next_after_exponent
next-exponent_sign p s n = ground arith

-- Feeding a negative number with a fraction and a negative exponent to a fresh parser, every call
-- returns that more is possible, and the pieces are the sign, the integer, the fraction with its number
-- of digits, and the exponent with its sign. The first digit is not a zero, each of the three numbers is
-- below ten times `DecimalCutoff`, and the text is shorter than 2^32.
pub feed-scientific :
    (c : ℕ) (integer fraction : List ℕ) (d : ℕ) (exponent : List ℕ)
    → IsNumber c integer fraction d exponent
    → feed (scientific c integer fraction d exponent) reset ≡ (
      true,
      record reset {
        negative = true;
        had_radix_point = true;
        predecimal = decimal 0 (c ∷ integer);
        postdecimal = decimal 0 fraction;
        post_digits = length fraction;
        has_eterm = true;
        negative_exponent = true;
        exponent = decimal 0 (d ∷ exponent);
        phase = after_exponent;
        processed = length integer + length fraction + length exponent + 6;
      },
    )
feed-scientific c integer fraction d exponent h =
    let p1 = signed reset in
    let p2 = with_first c p1 in
    let p3 = with_integer integer p2 in
    let p4 = pointed p3 in
    let p5 = with_fraction fraction p4 in
    let p7 = exponent_signed (marked p5) in
    feed-cons b'-' _ reset (next-sign reset refl refl)
    ∙ feed-cons c _ p1 (next-first c p1 refl refl h.not_zero h.integer_digits.0)
    ∙ feed-append integer _ p2
        (feed-integer integer p2 refl refl refl (omega arith) h.integer_digits.1 h.integer_fits)
    ∙ feed-cons b'.' _ p3 (next-point p3 refl)
    ∙ feed-append fraction _ p4 (
        feed-fraction fraction p4 refl refl (omega (arith, h.short)) (omega arith) h.fraction_digits
          h.fraction_fits)
    ∙ feed-cons b'e' _ p5 (next-marker p5 refl)
    ∙ feed-cons b'-' _ (marked p5) (next-exponent_sign (marked p5) refl refl)
    ∙ feed-exponent d exponent p7 refl (omega arith) h.exponent_digits h.exponent_fits
    ∙ ground (arith, h)
