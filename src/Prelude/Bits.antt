-- ===== src/Prelude/Bits.antt =====
-- The bits of numbers: `&` and `|` digit by digit, the sum rule, and what masks pick.
use Prim.Native.Nat.{
  ℕ, zero, suc, ◌+◌, ◌-◌, ◌*◌, ◌/◌, ◌%◌, ◌^◌, ◌≤◌, ◌<◌, min, max, bit_and, bit_or, digits,
  bit_and-bitwise, bit_or-bitwise,
}
use mathlib.Core.Path.{◌≡◌, refl, sym, ap, ◌∙◌}
use native.Mathlib.Nat.{
  div-add-mod, mod-lt, mod-eq_of_lt, mul-add-mod_self_left, div-div-eq-div-mul, mul-div-le, mod_def,
  mul-le-mul_right, le_of_mul-le-mul_left, mul-div_cancel_left, add-mul-mod_self_left, mul-sub,
}
use native.Mathlib.Omega.{arith}

-- Digits to go that are at least the first number are all alike.
digits_enough :
    (z : ℕ → ℕ) (f : ℕ → ℕ → ℕ) (n m a b : ℕ) → a ≤ n → a ≤ m → digits z f n a b ≡ digits z f m a b
digits_enough z f zero zero zero b p q = refl
digits_enough z f zero (suc m) zero b p q = refl
digits_enough z f (suc n) zero zero b p q = refl
digits_enough z f (suc n) (suc m) zero b p q = refl
digits_enough z f zero m (suc a) b p q = absurd (omega arith)
digits_enough z f (suc n) zero (suc a) b p q = absurd (omega arith)
digits_enough z f (suc n) (suc m) (suc a) b p q =
    omega (arith, digits_enough z f n m (suc a / 2) (b / 2) (omega arith) (omega arith))

-- `&` and `|` of numbers are those of their halves and of their lowest digits.
pub and_halves : (a b : ℕ) → bit_and a b ≡ bit_and (a / 2) (b / 2) * 2 + min (a % 2) (b % 2)
and_halves zero b = omega (arith, bit_and-bitwise 0 b, bit_and-bitwise 0 (b / 2))
and_halves (suc a) b =
    let enough =
      digits_enough (λ _. 0) min a (suc a / 2) (suc a / 2) (b / 2) (omega arith) (omega arith) in
    omega (arith, enough, bit_and-bitwise (suc a) b, bit_and-bitwise (suc a / 2) (b / 2))

pub or_halves : (a b : ℕ) → bit_or a b ≡ bit_or (a / 2) (b / 2) * 2 + max (a % 2) (b % 2)
or_halves zero b = omega (arith, bit_or-bitwise 0 b, bit_or-bitwise 0 (b / 2))
or_halves (suc a) b =
    let enough =
      digits_enough (λ d. d) max a (suc a / 2) (suc a / 2) (b / 2) (omega arith) (omega arith) in
    omega (arith, enough, bit_or-bitwise (suc a) b, bit_or-bitwise (suc a / 2) (b / 2))

pub twice_pow : (n : ℕ) → 2 ^ suc n ≡ 2 * 2 ^ n
twice_pow n = grind arith

pub pow_positive : (n : ℕ) → 0 < 2 ^ n
pow_positive zero = omega arith
pow_positive (suc n) = omega (arith, twice_pow n, pow_positive n)

pub low_digits : (n x : ℕ) → x % 2 ^ suc n ≡ x / 2 % 2 ^ n * 2 + x % 2
low_digits n x =
    let y = x / 2 in
    let low = y % 2 ^ n * 2 + x % 2 in
    let parts : x ≡ 2 * 2 ^ n * (y / 2 ^ n) + low = grind (arith, div-add-mod y (2 ^ n)) in
    let less : low < 2 * 2 ^ n = omega (arith, mod-lt y (pow_positive n)) in
    let remainder : (2 * 2 ^ n * (y / 2 ^ n) + low) % (2 * 2 ^ n) ≡ low % (2 * 2 ^ n) =
      mul-add-mod_self_left (2 * 2 ^ n) (y / 2 ^ n) low in
    ap (λ m. x % m) (twice_pow n) ∙ ap (λ v. v % (2 * 2 ^ n)) parts ∙ remainder ∙ mod-eq_of_lt less

and-none_fuel : (n a : ℕ) → a ≤ n → bit_and a 0 ≡ 0
and-none_fuel n zero h = bit_and-bitwise 0 0
and-none_fuel zero (suc a) h = absurd (omega arith)
and-none_fuel (suc n) (suc a) h =
    omega (arith, and_halves (suc a) 0, and-none_fuel n (suc a / 2) (omega arith))

and-none : (a : ℕ) → bit_and a 0 ≡ 0
and-none a = and-none_fuel a a (omega arith)

-- Induction is on a number of digits, n, that a number has at most.
pub or-plus-and : (n a b : ℕ) → a < 2 ^ n → bit_or a b + bit_and a b ≡ a + b
or-plus-and zero zero b h = omega (arith, bit_and-bitwise 0 b, bit_or-bitwise 0 b)
or-plus-and zero (suc a) b h = absurd (omega arith)
or-plus-and (suc n) a b h = omega (
  arith,
  twice_pow n,
  and_halves a b,
  or_halves a b,
  or-plus-and n (a / 2) (b / 2) (omega (arith, twice_pow n)),
)

pub or-lt : (n a b : ℕ) → a < 2 ^ n → b < 2 ^ n → bit_or a b < 2 ^ n
or-lt zero zero b h k = omega (arith, bit_or-bitwise 0 b)
or-lt zero (suc a) b h k = absurd (omega arith)
or-lt (suc n) a b h k =
    let rest : bit_or (a / 2) (b / 2) < 2 ^ n =
      or-lt n (a / 2) (b / 2) (omega (arith, twice_pow n)) (omega (arith, twice_pow n)) in
    omega (arith, twice_pow n, or_halves a b, rest)

-- A mask and its complement share out the digits.
pub and-complement : (n x m : ℕ) → m < 2 ^ n → bit_and x m + bit_and x (2 ^ n - 1 - m) ≡ x % 2 ^ n
and-complement zero x zero h = omega (arith, and-none x)
and-complement zero x (suc m) h = absurd (omega arith)
and-complement (suc n) x m h =
    let c = 2 ^ suc n - 1 - m in
    let half : c / 2 ≡ 2 ^ n - 1 - m / 2 = omega (arith, twice_pow n, pow_positive n) in
    let least : c % 2 ≡ 1 - m % 2 = omega (arith, twice_pow n) in
    let rest : bit_and (x / 2) (m / 2) + bit_and (x / 2) (c / 2) ≡ x / 2 % 2 ^ n =
      rw half (and-complement n (x / 2) (m / 2) (omega (arith, twice_pow n))) in
    omega (arith, and_halves x m, and_halves x c, rest, least, low_digits n x)

pub and-disjoint : (n x y m : ℕ) → m < 2 ^ n → bit_and (bit_and x (2 ^ n - 1 - m)) (bit_and y m) ≡ 0
and-disjoint zero x y zero h = rw (and-none y) (and-none (bit_and x 0))
and-disjoint zero x y (suc m) h = absurd (omega arith)
and-disjoint (suc n) x y m h =
    let c = 2 ^ suc n - 1 - m in
    let half : c / 2 ≡ 2 ^ n - 1 - m / 2 = omega (arith, twice_pow n, pow_positive n) in
    let least : c % 2 ≡ 1 - m % 2 = omega (arith, twice_pow n) in
    let kept : bit_and x c / 2 ≡ bit_and (x / 2) (2 ^ n - 1 - m / 2) =
      rw (sym half) (omega (arith, and_halves x c)) in
    let given : bit_and y m / 2 ≡ bit_and (y / 2) (m / 2) = omega (arith, and_halves y m) in
    let rest : bit_and (bit_and x c / 2) (bit_and y m / 2) ≡ 0 =
      rw kept (rw given (and-disjoint n (x / 2) (y / 2) (m / 2) (omega (arith, twice_pow n)))) in
    omega (arith, and_halves x c, and_halves y m, and_halves (bit_and x c) (bit_and y m), rest)

pub and_comm : (n a b : ℕ) → a ≤ n → b ≤ n → bit_and a b ≡ bit_and b a
and_comm n zero b h k = omega (arith, bit_and-bitwise 0 b, and-none b)
and_comm n (suc a) zero h k = omega (arith, bit_and-bitwise 0 (suc a), and-none (suc a))
and_comm zero (suc a) (suc b) h k = absurd (omega arith)
and_comm (suc n) (suc a) (suc b) h k = omega (
  arith,
  and_halves (suc a) (suc b),
  and_halves (suc b) (suc a),
  and_comm n (suc a / 2) (suc b / 2) (omega arith) (omega arith),
)

times_twice : (k place : ℕ) → k * 2 ^ suc place ≡ 2 * (k * 2 ^ place)
times_twice k place =
    let d = 2 ^ place in
    let regrouped : k * (2 * d) ≡ 2 * (k * d) = grind arith in
    ap (λ e. k * e) (twice_pow place) ∙ regrouped

-- The mask of the lowest digits, and of digits from a place on.
pub and-ones : (n x : ℕ) → bit_and x (2 ^ n - 1) ≡ x % 2 ^ n
and-ones zero x = omega (arith, and-none x)
and-ones (suc n) x =
    let half : (2 ^ suc n - 1) / 2 ≡ 2 ^ n - 1 = omega (arith, twice_pow n, pow_positive n) in
    let rest : bit_and (x / 2) ((2 ^ suc n - 1) / 2) ≡ x / 2 % 2 ^ n =
      rw half (and-ones n (x / 2)) in
    omega (arith, and_halves x (2 ^ suc n - 1), rest, twice_pow n, pow_positive n, low_digits n x)

pub and-field :
    (place n x : ℕ) → bit_and x ((2 ^ n - 1) * 2 ^ place) ≡ x / 2 ^ place % 2 ^ n * 2 ^ place
and-field zero n x = grind (arith, and-ones n x)
and-field (suc place) n x =
    let m = (2 ^ n - 1) * 2 ^ suc place in
    let q = (2 ^ n - 1) * 2 ^ place in
    let twice : m ≡ 2 * q = times_twice (2 ^ n - 1) place in
    let half : m / 2 ≡ q = omega arith in
    let rest : bit_and (x / 2) (m / 2) ≡ x / 2 / 2 ^ place % 2 ^ n * 2 ^ place =
      rw half (and-field place n (x / 2)) in
    let shifted : x / 2 / 2 ^ place ≡ x / 2 ^ suc place =
      div-div-eq-div-mul x 2 (2 ^ place) ∙ ap (λ d. x / d) (sym (twice_pow place)) in
    let here : bit_and x m ≡ bit_and (x / 2) (m / 2) * 2 = omega (arith, and_halves x m) in
    rw (sym shifted) (omega (arith, here, rest, times_twice (x / 2 / 2 ^ place % 2 ^ n) place))

-- Powers of two.
pub pow_sum : (a b : ℕ) → 2 ^ (a + b) ≡ 2 ^ a * 2 ^ b
pow_sum a zero = grind arith
pow_sum a (suc b) =
    let up : a + suc b ≡ suc (a + b) = omega arith in
    ap (λ e. 2 ^ e) up
    ∙ twice_pow (a + b)
    ∙ ap (λ m. 2 * m) (pow_sum a b)
    ∙ sym (times_twice (2 ^ a) b)

-- A shift to the left that drops digits at the top keeps those below.
pub shift_keeps : (s a w r : ℕ) → 0 < a → s * a % (a * (w * r)) / a % w ≡ s % w
shift_keeps s a w r h =
    let m = a * (w * r) in
    let q = s * a / m in
    let x = w * (r * q) in
    let whole : m * q ≡ a * x = grind arith in
    let below : a * x ≤ a * s = grind (arith, mul-div-le (s * a) m, whole) in
    let fits : x ≤ s = le_of_mul-le-mul_left below h in
    let left : s * a % m ≡ a * (s - x) = grind (arith, mod_def (s * a) m, whole, mul-sub a s x) in
    let quotient : s * a % m / a ≡ s - x = ap (λ v. v / a) left ∙ mul-div_cancel_left (s - x) h in
    let back : s ≡ s - x + x = omega arith in
    rw quotient (sym (add-mul-mod_self_left (s - x) w (r * q)) ∙ ap (λ v. v % w) (sym back))

-- Numbers with no digit at the same place.
and_apart : (n a b : ℕ) → b < 2 ^ n → bit_and (a * 2 ^ n) b ≡ 0
and_apart zero a zero h = and-none (a * 2 ^ 0)
and_apart zero a (suc b) h = absurd (omega arith)
and_apart (suc n) a b h =
    let m = a * 2 ^ suc n in
    let half : m / 2 ≡ a * 2 ^ n = omega (arith, times_twice a n) in
    let rest : bit_and (m / 2) (b / 2) ≡ 0 =
      rw half (and_apart n a (b / 2) (omega (arith, twice_pow n))) in
    omega (arith, and_halves m b, rest, times_twice a n)

pub or_apart : (n k a b : ℕ) → b < 2 ^ n → a * 2 ^ n < 2 ^ k → bit_or (a * 2 ^ n) b ≡ a * 2 ^ n + b
or_apart n k a b h w = omega (arith, or-plus-and k (a * 2 ^ n) b w, and_apart n a b h)

pub or-ones : (n a : ℕ) → a < 2 ^ n → bit_or a (2 ^ n - 1) ≡ 2 ^ n - 1
or-ones n a h = omega (arith, or-plus-and n a (2 ^ n - 1) h, and-ones n a, mod-eq_of_lt h)

-- A remainder by sixteen times a number, in two steps.
pub mod_split : (v p : ℕ) → 0 < p → v % (16 * p) ≡ v / p % 16 * p + v % p
mod_split v p h =
    let y = v / p in
    let low = y % 16 * p + v % p in
    let spread : p * (16 * (y / 16) + y % 16) ≡ 16 * p * (y / 16) + y % 16 * p = grind arith in
    let high : p * y ≡ 16 * p * (y / 16) + y % 16 * p =
      ap (λ q. p * q) (sym (div-add-mod y 16)) ∙ spread in
    let parts : v ≡ 16 * p * (y / 16) + low = omega (arith, high, div-add-mod v p) in
    let most : y % 16 * p ≤ 15 * p = mul-le-mul_right p (omega arith) in
    let less : low < 16 * p = omega (arith, most, mod-lt v h) in
    ap (λ w. w % (16 * p)) parts ∙ mul-add-mod_self_left (16 * p) (y / 16) low ∙ mod-eq_of_lt less
