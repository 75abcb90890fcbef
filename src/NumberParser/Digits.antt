-- ===== src/NumberParser/Digits.antt =====
-- cppext/numberparser.cpp: the accumulators, one digit at a time and over a run of digits.
use safely.Prelude.{
  ltb, ◌≢◌, if◌then◌else◌, ℕ, ◌+◌, ◌-◌, ◌*◌, ◌%◌, ◌≤◌, ◌<◌, ◌≡◌, arith, Bool, true, false, List, [],
  ◌∷◌, ◌++◌, u32_mod, length, ◌∙◌, ap,
}
use safely.NumberParser.{
  before_decimal, after_decimal, after_exponent, Parser, decimal_cutoff, is_digit, apply_digit,
  next_before_decimal, next_after_decimal, next_after_exponent, next, feed,
}

-- Below the cutoff a digit goes in as arithmetic says, with no wrap; above it none goes in.
pub apply_digit_lem :
    (accum ch : ℕ)
    → is_digit ch ≡ true
    → accum ≢ decimal_cutoff
    → apply_digit accum ch
      ≡ (if ltb accum decimal_cutoff then (true, accum * 10 + (ch - b'0')) else (false, accum))
unfolding apply_digit
apply_digit_lem accum ch d n = ground arith

-- At the cutoff itself the digits from 6 on wrap the accumulator round to a small number, and are
-- reported as having gone in.
pub apply_digit_wraps :
    (ch : ℕ) → b'6' ≤ ch → ch ≤ b'9' → apply_digit decimal_cutoff ch ≡ (true, ch - b'6')
unfolding apply_digit
apply_digit_wraps ch lo hi = ground arith

-- The character after '9' is taken for a digit worth ten.
apply_digit_colon :
    (accum : ℕ) → accum < decimal_cutoff → apply_digit accum b':' ≡ (true, accum * 10 + 10)
unfolding apply_digit
apply_digit_colon accum h = ground arith

abbrev pub AllDigits : List ℕ → Type 0
AllDigits [] = Unit {0}
AllDigits (c ∷ cs) = (is_digit c ≡ true) × AllDigits cs

-- the number that a run of digits makes of an accumulator
abbrev pub decimal : ℕ → List ℕ → ℕ
decimal acc [] = acc
decimal acc (c ∷ cs) = decimal (acc * 10 + (c - b'0')) cs

le-decimal : (acc : ℕ) (cs : List ℕ) → acc ≤ decimal acc cs
le-decimal acc [] = omega arith
le-decimal acc (c ∷ cs) = omega (arith, le-decimal (acc * 10 + (c - b'0')) cs)

-- what the caller sees after characters that all leave more possible
pub feed-cons :
    (c : ℕ) (cs : List ℕ) (p : Parser) {p' : Parser}
    → next c p ≡ (true, p')
    → feed (c ∷ cs) p ≡ feed cs p'
unfolding feed
feed-cons c cs p h = rw h

pub feed-append :
    (xs ys : List ℕ) (p : Parser) {p' : Parser}
    → feed xs p ≡ (true, p')
    → feed (xs ++ ys) p ≡ feed ys p'
unfolding feed
feed-append [] ys p h = ap (λ (r : Bool × Parser). feed ys r.1) h
feed-append (x ∷ xs) ys p {p'} h = ground (arith, feed-append xs ys (next x p).1 {p' = p'})

-- the parser after a run of digits before the point, after it, and in the exponent
abbrev pub with_integer : List ℕ → Parser → Parser
with_integer cs p = record p {
  predecimal = decimal p.predecimal cs;
  processed = (p.processed + length cs) % u32_mod;
}

abbrev pub with_fraction : List ℕ → Parser → Parser
with_fraction cs p = record p {
  postdecimal = decimal p.postdecimal cs;
  post_digits = p.post_digits + length cs;
  processed = (p.processed + length cs) % u32_mod;
}

abbrev with_exponent : List ℕ → Parser → Parser
with_exponent cs p = record p {
  exponent = decimal p.exponent cs;
  has_eterm = true;
  processed = (p.processed + length cs) % u32_mod;
}

-- One digit in each phase, where the accumulator has room for it.
next-integer :
    (c : ℕ) (p : Parser)
    → p.phase ≡ before_decimal
    → p.is_zero ≡ false
    → p.pow10 ≡ 0
    → is_digit c ≡ true
    → p.predecimal < decimal_cutoff
    → next c p ≡ (true, with_integer (c ∷ []) p)
unfolding next next_before_decimal
next-integer c p ph z w d l = ground arith

next-fraction :
    (c : ℕ) (p : Parser)
    → p.phase ≡ after_decimal
    → p.pow10 ≡ 0
    → p.post_digits + 1 < u32_mod
    → is_digit c ≡ true
    → p.postdecimal < decimal_cutoff
    → next c p ≡ (true, with_fraction (c ∷ []) p)
unfolding next next_after_decimal
next-fraction c p ph w n d l = ground arith

next-exponent :
    (c : ℕ) (p : Parser)
    → p.phase ≡ after_exponent
    → is_digit c ≡ true
    → p.exponent < decimal_cutoff
    → next c p ≡ (true, with_exponent (c ∷ []) p)
unfolding next next_after_exponent
next-exponent c p ph d l = ground arith

-- A run of digits whose number is below ten times the cutoff goes in whole.
pub feed-integer :
    (cs : List ℕ) (p : Parser)
    → p.phase ≡ before_decimal
    → p.is_zero ≡ false
    → p.pow10 ≡ 0
    → p.processed < u32_mod
    → AllDigits cs
    → decimal p.predecimal cs < 10 * decimal_cutoff
    → feed cs p ≡ (true, with_integer cs p)
feed-integer [] p ph z w n a h = unfold feed in ground arith
feed-integer (c ∷ cs) p ph z w n a h =
    feed-cons c cs p
      (next-integer c p ph z w a.0 (omega (arith, le-decimal (p.predecimal * 10 + (c - b'0')) cs)))
    ∙ feed-integer cs (with_integer (c ∷ []) p) ph z w (omega arith) a.1 h
    ∙ ground arith

pub feed-fraction :
    (cs : List ℕ) (p : Parser)
    → p.phase ≡ after_decimal
    → p.pow10 ≡ 0
    → p.post_digits + length cs < u32_mod
    → p.processed < u32_mod
    → AllDigits cs
    → decimal p.postdecimal cs < 10 * decimal_cutoff
    → feed cs p ≡ (true, with_fraction cs p)
feed-fraction [] p ph w m n a h = unfold feed in ground arith
feed-fraction (c ∷ cs) p ph w m n a h =
    feed-cons c cs p (
      next-fraction c p ph w (omega arith) a.0
        (omega (arith, le-decimal (p.postdecimal * 10 + (c - b'0')) cs)))
    ∙ feed-fraction cs (with_fraction (c ∷ []) p) ph w (omega arith) (omega arith) a.1 h
    ∙ ground arith

-- at least one digit, which sets the flag
pub feed-exponent :
    (c : ℕ) (cs : List ℕ) (p : Parser)
    → p.phase ≡ after_exponent
    → p.processed < u32_mod
    → AllDigits (c ∷ cs)
    → decimal p.exponent (c ∷ cs) < 10 * decimal_cutoff
    → feed (c ∷ cs) p ≡ (true, with_exponent (c ∷ cs) p)
feed-exponent c [] p ph n a h =
    feed-cons c [] p (next-exponent c p ph a.0 (omega arith)) ∙ (unfold feed in ground arith)
feed-exponent c (d ∷ cs) p ph n a h =
    feed-cons c (d ∷ cs) p
      (next-exponent c p ph a.0 (omega (arith, le-decimal (p.exponent * 10 + (c - b'0')) (d ∷ cs))))
    ∙ feed-exponent d cs (with_exponent (c ∷ []) p) ph (omega arith) a.1 h
    ∙ ground arith
