-- ===== src/BitBanger/Single.antt =====
-- cppext/bitbanger.h: single bits, by number and by reference.
use Prim.Native.Nat.{bit_and, bit_or}
use native.Mathlib.Nat.{mod-eq_of_lt}
use safely.Prelude.{
  ℕ, zero, suc, min, max, ◌+◌, ◌-◌, ◌*◌, ◌%◌, ◌^◌, ◌<◌, ◌≡◌, refl, ap, ◌∙◌, arith, Bool, true,
  false, not, inl, inr, Bool-cases, ◌==◌, if◌then◌else◌, u32_mod,
}
use safely.Prelude.Bits.{pow_positive, and_comm, and-ones}
use safely.Prelude.Digit.{digit, digit-and, digit-or, digit-complement, digit-pow, and-pow}
use safely.BitBanger.{
  one_at, complement, bit, set_bit, clear_bit, assign_bit, BitReference, reference, assign, is_set,
  flagged,
}
use safely.BitBanger.Fields.{pow_below}

pub one_at-lt : (n : ℕ) → n < 32 → 2 ^ n < u32_mod
one_at-lt n h = omega (arith, pow_below n 31 (omega arith))

pub one_at-eq : (n : ℕ) → n < 32 → one_at n ≡ 2 ^ n
one_at-eq n h = mod-eq_of_lt (one_at-lt n h)

product_zero : (d m : ℕ) → 0 < m → d < 2 → not (d * m == 0) ≡ (d == 1)
product_zero zero m h k = ground arith
product_zero (suc zero) m h k = ground arith
product_zero (suc (suc d)) m h k = absurd (omega arith)

pub bit-digit : (x n : ℕ) → n < 32 → bit x n ≡ (digit n x == 1)
unfolding bit
bit-digit x n h =
    rw (one_at-eq n h)
      (rw (and-pow x n) (product_zero (digit n x) (2 ^ n) (pow_positive n) (omega arith)))

-- After `assignBit` the bit is what it was given, and every other bit is as it was.
pub assign_bit_lem :
    (pattern n m : ℕ) (one : Bool)
    → n < 32
    → m < 32
    → bit (assign_bit pattern n one).0 m ≡ (if n == m then one else bit pattern m)
unfolding assign_bit set_bit clear_bit
assign_bit_lem pattern n m true h k =
    let after = bit_or pattern (one_at n) in
    let added : digit m after ≡ max (digit m pattern) (if n == m then 1 else 0) =
      digit-or m pattern (one_at n)
      ∙ ap (λ d. max (digit m pattern) d) (ap (λ w. digit m w) (one_at-eq n h) ∙ digit-pow m n) in
    rw (bit-digit after m k) (rw (bit-digit pattern m k) (ground (arith, added)))
assign_bit_lem pattern n m false h k =
    let mask = one_at n in
    let after = bit_and pattern (complement mask) in
    let small : mask < u32_mod = rw (one_at-eq n h) (one_at-lt n h) in
    let mask_digit : digit m mask ≡ (if n == m then 1 else 0) =
      ap (λ w. digit m w) (one_at-eq n h) ∙ digit-pow m n in
    let kept : digit m after ≡ min (digit m pattern) (1 - (if n == m then 1 else 0)) =
      digit-and m pattern (complement mask)
      ∙ ap (λ d. min (digit m pattern) d)
          (digit-complement 32 m mask small k ∙ ap (λ d. 1 - d) mask_digit) in
    rw (bit-digit after m k) (rw (bit-digit pattern m k) (ground (arith, kept)))

low_five : (n : ℕ) → bit_and 31 n ≡ n % 32
low_five n = and_comm (31 + n) 31 n (omega arith) (omega arith) ∙ and-ones 5 n

-- `flagged` with the mask of a bit clears as `assignBit` does.
flagged_cases :
    (bits w m : ℕ)
    → w < 32
    → m < 32
    → let (r, told) = flagged (record { word = bits; mask = one_at w }) in
      (told ≡ bit bits w) × (bit r.word m ≡ (if w == m then false else bit bits m))
flagged_cases bits w m h k =
    let r : BitReference = record { word = bits; mask = one_at w } in
    let as_bit : flagged r ≡ (
        if bit bits w
        then (record r { word = (assign_bit bits w false).0 }, true)
        else (r, false)) =
      unfold flagged is_set assign assign_bit clear_bit bit in refl in
    elim (Bool-cases (bit bits w)) [
      | inl set ↦
          let cleared = assign_bit_lem bits w m false h k in rw as_bit (rw set (refl, cleared))
      | inr clear ↦ rw as_bit (rw clear (refl, ground arith))
    ]

-- `flagged` of a reference to a bit, whose number is taken modulo 32, tells the bit and clears it, and
-- leaves every other bit.
pub flagged_lem :
    (bits n m : ℕ)
    → m < 32
    → let (r, told) = flagged (reference bits n) in
      (told ≡ bit bits (n % 32)) × (bit r.word m ≡ (if n % 32 == m then false else bit bits m))
flagged_lem bits n m k =
    unfold reference in rw (low_five n) (flagged_cases bits (n % 32) m (omega arith) k)
