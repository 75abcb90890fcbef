-- ===== src/Prelude/Digit.antt =====
-- One binary digit of a number, and those of `&`, `|`, a complement and a power of two.
use Prim.Native.Nat.{ℕ, zero, suc, ◌-◌, ◌*◌, ◌/◌, ◌%◌, ◌^◌, ◌<◌, min, max, bit_and, bit_or}
use mathlib.Core.Path.{◌≡◌, refl, sym, ap, ◌∙◌}
use native.Mathlib.Omega.{arith}
use native.Mathlib.Nat.{div-div-eq-div-mul}
use safely.Prelude.Tests.{◌==◌, if◌then◌else◌}
use safely.Prelude.Bits.{and_halves, or_halves, and-field, twice_pow, pow_positive}

abbrev pub digit : ℕ → ℕ → ℕ
digit i x = x / 2 ^ i % 2

-- the digit after the lowest is one of the half
digit_up : (i x : ℕ) → digit (suc i) x ≡ digit i (x / 2)
digit_up i x =
    ap (λ m. x / m % 2) (twice_pow i) ∙ ap (λ q. q % 2) (sym (div-div-eq-div-mul x 2 (2 ^ i)))

pub digit-and : (i a b : ℕ) → digit i (bit_and a b) ≡ min (digit i a) (digit i b)
digit-and zero a b = omega (arith, and_halves a b)
digit-and (suc i) a b =
    let half : bit_and a b / 2 ≡ bit_and (a / 2) (b / 2) = omega (arith, and_halves a b) in
    let rest : digit i (bit_and a b / 2) ≡ min (digit i (a / 2)) (digit i (b / 2)) =
      rw half (digit-and i (a / 2) (b / 2)) in
    omega (arith, digit_up i (bit_and a b), digit_up i a, digit_up i b, rest)

pub digit-or : (i a b : ℕ) → digit i (bit_or a b) ≡ max (digit i a) (digit i b)
digit-or zero a b = omega (arith, or_halves a b)
digit-or (suc i) a b =
    let half : bit_or a b / 2 ≡ bit_or (a / 2) (b / 2) = omega (arith, or_halves a b) in
    let rest : digit i (bit_or a b / 2) ≡ max (digit i (a / 2)) (digit i (b / 2)) =
      rw half (digit-or i (a / 2) (b / 2)) in
    omega (arith, digit_up i (bit_or a b), digit_up i a, digit_up i b, rest)

pub digit-complement : (n i x : ℕ) → x < 2 ^ n → i < n → digit i (2 ^ n - 1 - x) ≡ 1 - digit i x
digit-complement zero i x h k = absurd (omega arith)
digit-complement (suc n) zero x h k = omega (arith, twice_pow n)
digit-complement (suc n) (suc i) x h k =
    let c = 2 ^ suc n - 1 - x in
    let half : c / 2 ≡ 2 ^ n - 1 - x / 2 = omega (arith, twice_pow n, pow_positive n) in
    let rest : digit i (c / 2) ≡ 1 - digit i (x / 2) =
      rw half (digit-complement n i (x / 2) (omega (arith, twice_pow n)) (omega arith)) in
    omega (arith, digit_up i c, digit_up i x, rest)

digit-zero : (i : ℕ) → digit i 0 ≡ 0
digit-zero zero = refl
digit-zero (suc i) = omega (arith, digit_up i 0, digit-zero i)

pub digit-pow : (i n : ℕ) → digit i (2 ^ n) ≡ (if n == i then 1 else 0)
digit-pow zero zero = ground arith
digit-pow zero (suc n) = ground (arith, twice_pow n)
digit-pow (suc i) zero = ground (arith, digit_up i 1, digit-zero i)
digit-pow (suc i) (suc n) =
    let half : 2 ^ suc n / 2 ≡ 2 ^ n = omega (arith, twice_pow n) in
    digit_up i (2 ^ suc n) ∙ rw half (digit-pow i n ∙ ground arith)

-- What a power of two picks.
pub and-pow : (x n : ℕ) → bit_and x (2 ^ n) ≡ digit n x * 2 ^ n
and-pow x n =
    let one_digit : (2 ^ 1 - 1) * 2 ^ n ≡ 2 ^ n = omega arith in
    ap (λ m. bit_and x m) (sym one_digit) ∙ and-field n 1 x
