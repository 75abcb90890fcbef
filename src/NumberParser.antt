-- ===== src/NumberParser.antt =====
-- cppext/numberpieces.h, numberpieces.cpp and numberparser.cpp: `PushedNumberParser`, which is fed the
-- characters of a decimal number and keeps the pieces of it. The floating point side (`packed`,
-- `decompose`, `value`) is not modelled.
pub mod Digits
pub mod Number
use safely.Prelude.{
  ℕ, ◌+◌, ◌-◌, ◌*◌, ◌/◌, ◌%◌, ◌^◌, Bool, true, false, not, ◌&&◌, ◌||◌, List, [], ◌∷◌, ltb, leb,
  ◌==◌, if◌then◌else◌, add_u32, u32_mod,
}

pub data Phase : Type 0 where
  start before_decimal after_decimal after_exponent finished failed : Phase

pub record Parser : Type 0 where
  pub is_nan : Bool
  pub is_inf : Bool
  pub is_zero : Bool
  pub negative : Bool
  pub had_radix_point : Bool
  pub predecimal : ℕ
  pub pow10 : ℕ
  pub postdecimal : ℕ
  pub post_digits : ℕ
  pub has_eterm : Bool
  pub negative_exponent : Bool
  pub exponent : ℕ
  pub phase : Phase
  pub processed : ℕ

-- `reset()`, of the pieces and of the parser; it sets every field
abbrev pub reset : Parser
reset = record {
  is_nan = false;
  is_inf = false;
  is_zero = false;
  negative = false;
  had_radix_point = false;
  predecimal = 0;
  pow10 = 0;
  postdecimal = 0;
  post_digits = 0;
  has_eterm = false;
  negative_exponent = false;
  exponent = 0;
  phase = start;
  processed = 0;
}

-- `base` and `DecimalCutoff`, 2^63 / 5
abbrev base : ℕ
base = 10

abbrev pub decimal_cutoff : ℕ
decimal_cutoff = 2 ^ 63 / 5

-- `isdigit` and `isspace`, in the C locale
abbrev pub is_digit : ℕ → Bool
is_digit ch = leb b'0' ch && leb ch b'9'

abbrev is_space : ℕ → Bool
is_space ch = ch == b' ' || (leb 9 ch && leb ch 13)

-- `applydigit`: whether the digit went in, and the accumulator, of 64 bits. The digit is an `unsigned`,
-- so a character below '0' becomes a large one.
pub apply_digit : ℕ → ℕ → Bool × ℕ
apply_digit accum ch =
    let digit = (ch + u32_mod - b'0') % u32_mod in
    if ltb decimal_cutoff accum
    then (false, accum)
    else if ltb base digit
    then (false, accum)
    else (true, (accum * base + digit) % 2 ^ 64)

-- `(ch | 0x20) == 'e'`
unfoldable is_exponent_marker : ℕ → Bool
is_exponent_marker ch = ch == b'e' || ch == b'E'

-- `fail()`, which always returns false
abbrev fail : Parser → Bool × Parser
fail p = (false, record p { phase = failed })

-- the cases of the switch on the phase
unfoldable next_start : ℕ → Parser → Bool × Parser
unfolding apply_digit
next_start u p =
    if u == b'-'
    then (if p.negative then fail p else (true, record p { negative = true }))
    else if u == b'+'
    then (if p.negative then fail p else (true, p))
    else if u == b'.'
    then (true, record p { phase = after_decimal })
    else if u == b'0'
    then (true, record p { is_zero = true; phase = before_decimal })
    else if is_digit u
    then (true, record p { phase = before_decimal; predecimal = (apply_digit p.predecimal u).1 })
    else if is_space u
    then (true, p)
    else fail p

unfoldable next_before_decimal : ℕ → Parser → Bool × Parser
unfolding apply_digit is_exponent_marker
next_before_decimal u p =
    let (fits, accum) = apply_digit p.predecimal u in
    if is_digit u
    then (if p.is_zero
        then fail p
        else if ltb 0 p.pow10
        then (true, record p { pow10 = add_u32 p.pow10 1 })
        else if fits
        then (true, record p { predecimal = accum })
        else (
          true,
          record p {
            predecimal = if leb b'5' u then (accum + 1) % 2 ^ 64 else accum;
            pow10 = add_u32 p.pow10 1;
          },
        ))
    else if u == b'.'
    then (true, record p { is_zero = false; had_radix_point = true; phase = after_decimal })
    else if is_exponent_marker u
    then (if p.is_zero then fail p else (true, record p { phase = after_exponent }))
    else (false, record p { phase = finished })

unfoldable next_after_decimal : ℕ → Parser → Bool × Parser
unfolding apply_digit is_exponent_marker
next_after_decimal u p =
    let (fits, accum) = apply_digit p.postdecimal u in
    if is_digit u
    then (
      true,
      (if p.pow10 == 0 && fits
          then record p { postdecimal = accum; post_digits = add_u32 p.post_digits 1 }
          else p),
    )
    else if is_exponent_marker u
    then (true, record p { phase = after_exponent })
    else (false, record p { phase = finished })

unfoldable next_after_exponent : ℕ → Parser → Bool × Parser
unfolding apply_digit
next_after_exponent u p =
    if is_digit u
    then (true, record p { has_eterm = true; exponent = (apply_digit p.exponent u).1 })
    else if u == b'-'
    then (if p.negative_exponent then fail p else (true, record p { negative_exponent = true }))
    else if ltb 0 p.exponent
    then (false, record p { phase = finished })
    else fail p

unfoldable next_in : Phase → ℕ → Parser → Bool × Parser
next_in start u p = next_start u p
next_in before_decimal u p = next_before_decimal u p
next_in after_decimal u p = next_after_decimal u p
next_in after_exponent u p = next_after_exponent u p
next_in finished u p = fail p
next_in failed u p = fail p

-- `next(u)`: whether more characters are possible, and the parser
pub next : ℕ → Parser → Bool × Parser
unfolding next_in
next u p = next_in p.phase u (record p { processed = add_u32 p.processed 1 })

-- a caller that feeds characters until one ends the number
unfoldable pub feed : List ℕ → Parser → Bool × Parser
feed [] p = (true, p)
feed (c ∷ cs) p = let (more, p') = next c p in if more then feed cs p' else (false, p')
