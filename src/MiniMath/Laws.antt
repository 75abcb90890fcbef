-- ===== src/MiniMath/Laws.antt =====
-- cppext/minimath.cpp: the integer logarithms and divisions against what they stand for.
use safely.Prelude.{
  ap, [], ◌∷◌, get_or, leb, ℕ, zero, suc, ◌+◌, ◌*◌, ◌/◌, ◌%◌, ◌^◌, ◌≤◌, ◌<◌, ◌≡◌, ◌≢◌, ℕ_discrete,
  refl, arith, Bool, true, ◌==◌, u32_mod, every, every-at, ==_iff,
}
use native.Mathlib.Nat.{div-mul-le_self, lt-div-mul-add, mod-eq_of_lt}
use safely.Prelude.Int.{ℤ, pos, negsuc}
use safely.MiniMath.{
  found_or_low, pow10_table, rpepow10, pow10_loop, decimal1, decimal2, search_down, log2_from,
  log2_exponent, i32_pow10, i64_pow10, ilog10_u32, ilog10_u64, rate,
}

-- the number of bits that a number takes
abbrev pub Takes : ℕ → ℕ → Type 0
Takes number zero = number ≡ 0
Takes number (suc bits) = (2 ^ bits ≤ number) × (number < 2 ^ suc bits)

log2_from-Takes :
    (rounds exp number : ℕ)
    → number < 2 ^ rounds
    → rounds + exp ≡ 32
    → (bits : ℕ) × (log2_from rounds exp number ≡ exp + bits) × Takes number bits
unfolding log2_from
log2_from-Takes zero exp number h e = (0, omega arith, omega arith)
log2_from-Takes (suc rounds) exp number h e = elim (ℕ_discrete number 0) [
  | yes z ↦ (0, ground arith, z)
  | no nz ↦
      let (bits, same, takes) =
        log2_from-Takes rounds (exp + 1) (number / 2) (omega arith) (omega arith) in
      (suc bits, ground arith, halved number bits nz takes)
]
  where
    halved : (number bits : ℕ) → number ≢ 0 → Takes (number / 2) bits → Takes number (suc bits)
    halved number zero nz t = omega arith
    halved number (suc bits) nz t = omega arith

-- The exponent of a 32-bit number is the number of bits that it takes.
pub log2_exponent-Takes : (number : ℕ) → number < u32_mod → Takes number (log2_exponent number)
unfolding log2_exponent
log2_exponent-Takes number h =
    let (bits, same, takes) = log2_from-Takes 32 0 number h (omega arith) in
    let e : log2_from 32 0 number ≡ bits = omega arith in rw e takes

pow10_test : ℕ → Bool
pow10_test n = i64_pow10 n == (10 ^ n) % 2 ^ 64

pow10_check : every pow10_test 30 ≡ true
unfolding every pow10_test i64_pow10 decimal1 decimal2 pow10_table rpepow10 pow10_loop
pow10_check = refl

-- `i64pow10` gives the power of ten modulo 2^64, also for the ten powers beyond those that fit, for which
-- it means to give 0.
pub i64_pow10-eq : (n : ℕ) → n < 30 → i64_pow10 n ≡ (10 ^ n) % 2 ^ 64
unfolding pow10_test
i64_pow10-eq n h = (==_iff _ _).0 (every-at pow10_test 30 n h pow10_check)

decimal1-eq :
    decimal1
    ≡ 1 ∷ 10 ∷ 100 ∷ 1000 ∷ 10000 ∷ 100000 ∷ 1000000 ∷ 10000000 ∷ 100000000 ∷ 1000000000 ∷ []
unfolding decimal1 pow10_table rpepow10 pow10_loop
decimal1-eq = refl

pow10_small_test : ℕ → Bool
pow10_small_test n = i32_pow10 n == 10 ^ n

pow10_small_check : every pow10_small_test 10 ≡ true
unfolding every pow10_small_test i32_pow10
pow10_small_check = rw decimal1-eq refl

pub i32_pow10-eq : (n : ℕ) → n < 10 → i32_pow10 n ≡ 10 ^ n
unfolding pow10_small_test
i32_pow10-eq n h = (==_iff _ _).0 (every-at pow10_small_test 10 n h pow10_small_check)

-- the decimal logarithm rounded down, -1 of 0
abbrev pub IsLog10 : ℕ → ℤ → Type 0
IsLog10 value (pos log) = (10 ^ log ≤ value) × (value < 10 ^ (log + 1))
IsLog10 value (negsuc n) = (n ≡ 0) × (value ≡ 0)

-- The decimal logarithm of a 32-bit number that is not 0 is that of the largest power of ten that is
-- not greater; of 0 it is -1.
pub ilog10_u32-IsLog10 : (value : ℕ) → value < u32_mod → IsLog10 value (ilog10_u32 value)
unfolding ilog10_u32 search_down
ilog10_u32-IsLog10 value h = rw decimal1-eq (ground arith)

last_entry : get_or decimal2 19 0 ≡ (10 ^ 29) % 2 ^ 64
unfolding decimal2 pow10_table rpepow10 pow10_loop
last_entry = refl

search_down-last : (value : ℕ) → (10 ^ 29) % 2 ^ 64 ≤ value → search_down decimal2 20 value ≡ pos 19
unfolding search_down
search_down-last value h =
    let first : leb (get_or decimal2 19 0) value ≡ true = rw last_entry (ground arith) in rw first

-- The logarithm of a number that is at least the last entry of the second table, which is 10^29
-- modulo 2^64, is given as 29.
pub ilog10_u64_top : (value : ℕ) → (10 ^ 29) % 2 ^ 64 ≤ value → ilog10_u64 value ≡ pos 29
unfolding ilog10_u64
ilog10_u64_top value h = ap (λ r. found_or_low r value) (search_down-last value h)

-- `rate` is the quotient rounded to the nearest: it is off by half of the divisor at most, if the sum
-- that it divides does not wrap.
pub rate_nearest :
    (width num denom : ℕ)
    → 0 < denom
    → num + denom / 2 < 2 ^ width
    → let r = rate width num denom in
      (r * denom ≤ num + denom / 2) × (num + denom / 2 < r * denom + denom)
rate_nearest width num denom h w =
    let n = num + denom / 2 in
    let quotient : rate width num denom ≡ n / denom =
      unfold rate in rw (mod-eq_of_lt w) (ground arith) in
    rw quotient (div-mul-le_self n denom, lt-div-mul-add h)
