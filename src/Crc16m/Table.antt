-- ===== src/Crc16m/Table.antt =====
-- The table of cppext/crc16m.cpp against the polynomial division that it abbreviates.
use Prim.Native.Nat.{bit_xor}
use safely.Prelude.{
  AllBytes, every, every-at, ℕ, zero, suc, ◌+◌, ◌*◌, ◌/◌, ◌%◌, ◌<◌, ◌≡◌, refl, arith, Bool, true,
  ◌&&◌, List, [], ◌∷◌, get_or, ltb, ◌==◌, if◌then◌else◌,
}
use safely.Crc16m.{precomputed_crc, Sum, add_byte, compute_loop, compute}

-- The division of the Modbus CRC, one bit: the polynomial 0xA001, low bit first.
abbrev divide_bit : ℕ → ℕ
divide_bit crc = if crc % 2 == 1 then bit_xor (crc / 2) 0xA001 else crc / 2

abbrev divide_bits : ℕ → ℕ → ℕ
divide_bits zero crc = crc
divide_bits (suc n) crc = divide_bits n (divide_bit crc)

-- The remainder of one byte.
unfoldable remainder : ℕ → ℕ
remainder byte = divide_bits 8 byte

-- The CRC as its high and low bytes, with the division in place of the table: the low byte meets the
-- next one, and the high byte joins the low byte of the remainder.
pub record Crc : Type 0 where
  pub crc_high : ℕ
  pub crc_low : ℕ

unfoldable divide_byte : ℕ → Crc → Crc
divide_byte byte c =
    let r = remainder (bit_xor c.crc_low byte) in
    record { crc_high = r / 256; crc_low = bit_xor c.crc_high (r % 256) }

pub divide : List ℕ → Crc → Crc
divide [] c = c
divide (b ∷ bs) c = divide bs (divide_byte b c)

-- the two bytes of a remainder, exchanged
abbrev exchanged : ℕ → ℕ
exchanged r = r % 256 * 256 + r / 256

-- what the table holds at an index, and that the remainder has two bytes
entry_test : ℕ → Bool
entry_test i = get_or precomputed_crc i 0 == exchanged (remainder i) && ltb (remainder i) 65536

table_checks : every entry_test 256 ≡ true
unfolding every entry_test precomputed_crc remainder
table_checks = refl

xor_checks : every (λ a. every (λ b. ltb (bit_xor a b) 256) 256) 256 ≡ true
unfolding every
xor_checks = refl

xor-lt : (a b : ℕ) → a < 256 → b < 256 → bit_xor a b < 256
xor-lt a b ha hb = ground (
  arith,
  every-at (λ b. ltb (bit_xor a b) 256) 256 b hb
      (every-at (λ a. every (λ b. ltb (bit_xor a b) 256) 256) 256 a ha xor_checks),
)

table_entry :
    (i : ℕ)
    → i < 256
    → (get_or precomputed_crc i 0 ≡ exchanged (remainder i)) × (remainder i < 65536)
unfolding entry_test
table_entry i h = ground (arith, every-at entry_test 256 i h table_checks)

-- The code's high byte is the low byte of the CRC, and its low byte the high one.
abbrev Mirrors : Sum → Crc → Type 0
Mirrors s c = (s.high ≡ c.crc_low) × (s.low ≡ c.crc_high) × (c.crc_low < 256) × (c.crc_high < 256)

add_byte-Mirrors :
    (byte : ℕ) (s : Sum) (c : Crc)
    → byte < 256
    → Mirrors s c
    → Mirrors (add_byte byte s) (divide_byte byte c)
unfolding add_byte divide_byte
add_byte-Mirrors byte s c hb m =
    let i = bit_xor c.crc_low byte in
    let below = xor-lt c.crc_low byte m.2 hb in
    let entry = table_entry i below in
    let joined = xor-lt c.crc_high (remainder i % 256) m.3 (omega arith) in
    let high_part : exchanged (remainder i) / 256 ≡ remainder i % 256 = omega (arith, entry) in
    let low_part : exchanged (remainder i) % 256 ≡ remainder i / 256 = omega (arith, entry) in
    rw (m.0, m.1, entry.0, high_part, low_part) (refl, refl, joined, omega (arith, entry))

compute_loop-Mirrors :
    (bytes : List ℕ) (s : Sum) (c : Crc)
    → AllBytes bytes
    → Mirrors s c
    → Mirrors (compute_loop bytes s) (divide bytes c)
unfolding compute_loop divide
compute_loop-Mirrors [] s c a m = m
compute_loop-Mirrors (b ∷ bs) s c a m =
    compute_loop-Mirrors bs (add_byte b s) (divide_byte b c) a.1 (add_byte-Mirrors b s c a.0 m)

-- On every sequence of bytes the table gives the CRC of the polynomial division by 0xA001 from all
-- ones, with its two bytes exchanged.
pub compute-divide :
    (bytes : List ℕ)
    → AllBytes bytes
    → let c = divide bytes (record { crc_high = 255; crc_low = 255 }) in
      compute bytes ≡ c.crc_low * 256 + c.crc_high
unfolding compute
compute-divide bytes a = ground (
  arith,
  compute_loop-Mirrors bytes (record { low = 255; high = 255 })
      (record { crc_high = 255; crc_low = 255 }) a (refl, refl, omega arith, omega arith),
)
