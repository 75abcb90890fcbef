-- ===== src/BitBanger/Fields.antt =====
-- cppext/bitbanger.h: what an insertion makes of a word, and that extraction gives it back.
use Prim.Native.Nat.{bit_and}
use native.Mathlib.Nat.{
  pow-le-pow_right, mod-lt, div-add-mod, mul-add-mod_self_left, mod-eq_of_lt, mul-add-div,
  div-eq_of_lt, mul-sub, mul-div_cancel,
}
use safely.Prelude.{
  ℕ, ◌+◌, ◌-◌, ◌*◌, ◌/◌, ◌%◌, ◌^◌, ◌≤◌, ◌<◌, ◌≡◌, refl, sym, ap, ◌∙◌, arith, u32_mod, sub_u32,
}
use safely.Prelude.Int.{◌-ℤ◌}
use safely.Prelude.Bits.{
  or-plus-and, and-complement, and-disjoint, and-field, pow_sum, pow_positive, shift_keeps,
}
use safely.BitBanger.{
  int_minus, shift_left, complement, insert_masked, field_mask, bit_mask, insert_bits, extract_bits,
  insert_field, extract_field,
}

-- A masked insertion takes the masked part of the target off and adds that of the source.
pub insert_masked-sum :
    (target source mask : ℕ)
    → target < u32_mod
    → mask < u32_mod
    → insert_masked target source mask + bit_and target mask ≡ target + bit_and source mask
insert_masked-sum target source mask h k =
    let kept = bit_and target (complement mask) in
    let taken = bit_and source mask in
    unfold insert_masked in
    omega (
      arith,
      or-plus-and 32 kept taken (omega (arith, and-complement 32 target mask k)),
      and-disjoint 32 target source mask k,
      and-complement 32 target mask k,
    )

int_minus_lem : (a b : ℕ) → a < u32_mod → b < u32_mod → int_minus a b ≡ sub_u32 a b
unfolding int_minus ◌-ℤ◌
int_minus_lem a b h k = ground arith

mask_parts :
    (lsb width : ℕ) → bit_mask lsb width ≡ sub_u32 (2 ^ (lsb + width) % u32_mod) (2 ^ lsb % u32_mod)
unfolding bit_mask
mask_parts lsb width =
    int_minus_lem (2 ^ (lsb + width) % u32_mod) (2 ^ lsb % u32_mod) (omega arith) (omega arith)

pub pow_below : (n m : ℕ) → n ≤ m → 2 ^ n ≤ 2 ^ m
pow_below n m h = pow-le-pow_right (omega arith) h

pub bit_mask-eq :
    (lsb width : ℕ) → lsb + width < 32 → bit_mask lsb width ≡ (2 ^ width - 1) * 2 ^ lsb
bit_mask-eq lsb width h =
    let a = 2 ^ lsb in
    let w = 2 ^ width in
    let sum : 2 ^ (lsb + width) ≡ a * w = pow_sum lsb width in
    let top = pow_below (lsb + width) 31 (omega arith) in
    let under : a ≤ a * w = grind (arith, pow_positive width) in
    let product : (w - 1) * a ≡ a * w - a = grind (arith, mul-sub a w 1) in
    omega (arith, mask_parts lsb width, sum, top, under, product)

extract_bits-eq :
    (source lsb width : ℕ)
    → lsb + width < 32
    → bit_and source (bit_mask lsb width) ≡ source / 2 ^ lsb % 2 ^ width * 2 ^ lsb
extract_bits-eq source lsb width h = rw (bit_mask-eq lsb width h) (and-field lsb width source)

-- Extraction gives the quotient by the place, modulo the width.
pub extract_bits_lem :
    (source lsb width : ℕ)
    → lsb + width < 32
    → extract_bits source lsb width ≡ source / 2 ^ lsb % 2 ^ width
unfolding extract_bits
extract_bits_lem source lsb width h =
    ap (λ v. v / 2 ^ lsb) (extract_bits-eq source lsb width h)
    ∙ mul-div_cancel (source / 2 ^ lsb % 2 ^ width) (pow_positive lsb)

shifted_source :
    (source lsb width : ℕ)
    → lsb + width < 32
    → bit_and (shift_left source lsb) (bit_mask lsb width) ≡ source % 2 ^ width * 2 ^ lsb
shifted_source source lsb width h =
    let a = 2 ^ lsb in
    let w = 2 ^ width in
    let r = 32 - (lsb + width) in
    let places : lsb + (width + r) ≡ 32 = omega arith in
    let word : a * (w * 2 ^ r) ≡ u32_mod =
      ap (λ m. a * m) (sym (pow_sum width r))
      ∙ sym (pow_sum lsb (width + r))
      ∙ ap (λ e. 2 ^ e) places in
    extract_bits-eq (shift_left source lsb) lsb width h
    ∙ ap (λ m. source * a % m / a % w * a) (sym word)
    ∙ ap (λ v. v * a) (shift_keeps source a w (2 ^ r) (pow_positive lsb))

pub bit_mask-lt : (lsb width : ℕ) → bit_mask lsb width < u32_mod
bit_mask-lt lsb width = omega (arith, mask_parts lsb width)

-- An insertion takes the old field off the word and adds the source's low bits in its place, so that
-- the bits beside the field stay.
pub insert_bits-sum :
    (target source lsb width : ℕ)
    → target < u32_mod
    → lsb + width < 32
    → insert_bits target source lsb width + extract_bits target lsb width * 2 ^ lsb
      ≡ target + source % 2 ^ width * 2 ^ lsb
unfolding insert_bits
insert_bits-sum target source lsb width t h =
    let taken : extract_bits target lsb width * 2 ^ lsb ≡ bit_and target (bit_mask lsb width) =
      ap (λ v. v * 2 ^ lsb) (extract_bits_lem target lsb width h)
      ∙ sym (extract_bits-eq target lsb width h) in
    omega (
      arith,
      taken,
      shifted_source source lsb width h,
      insert_masked-sum target (shift_left source lsb) (bit_mask lsb width) t
          (bit_mask-lt lsb width),
    )

-- The number whose field, at the place a, of the width w, is s, where t has that field f.
field_of_sum : (r t s a w : ℕ) → 0 < a → s < w → r + t / a % w * a ≡ t + s * a → r / a % w ≡ s
field_of_sum r t s a w ha hs e =
    let high = t / a / w in
    let field = t / a % w in
    let low = t % a in
    let whole : t ≡ a * (w * high + field) + low =
      grind (arith, div-add-mod t a, div-add-mod (t / a) w) in
    let new : r ≡ a * (w * high + s) + low = grind arith in
    let none_below : low / a ≡ 0 = div-eq_of_lt (mod-lt t ha) in
    let quotient : r / a ≡ w * high + s =
      ap (λ v. v / a) new ∙ mul-add-div ha (w * high + s) low ∙ omega arith in
    ap (λ v. v % w) quotient ∙ mul-add-mod_self_left w high s ∙ mod-eq_of_lt hs

-- Extraction of the field that was inserted gives the low bits of the source, where the field ends below
-- the bit 30, so that no `int` overflows in its mask.
pub extract_bits-insert_bits :
    (target source lsb width : ℕ)
    → target < u32_mod
    → lsb + width < 31
    → extract_bits (insert_bits target source lsb width) lsb width ≡ source % 2 ^ width
extract_bits-insert_bits target source lsb width t h =
    let merged = insert_bits target source lsb width in
    let within : lsb + width < 32 = omega arith in
    let old = extract_bits_lem target lsb width within in
    let sum =
      ap (λ f. merged + f * 2 ^ lsb) (sym old) ∙ insert_bits-sum target source lsb width t within in
    extract_bits_lem merged lsb width within
    ∙ field_of_sum merged target (source % 2 ^ width) (2 ^ lsb) (2 ^ width) (pow_positive lsb)
        (mod-lt source (pow_positive width)) sum

-- A mask from one bit through another is that of the width between them, and so are the operations.
field_mask-bit_mask :
    (msb lsb : ℕ) → lsb ≤ msb → msb < 31 → field_mask msb lsb ≡ bit_mask lsb (msb + 1 - lsb)
unfolding field_mask bit_mask
field_mask-bit_mask msb lsb h k =
    let top : lsb + (msb + 1 - lsb) ≡ msb + 1 = omega arith in rw top (ground arith)

pub fields_agree :
    (target source msb lsb : ℕ)
    → lsb ≤ msb
    → msb < 31
    → (insert_field target source msb lsb ≡ insert_bits target source lsb (msb + 1 - lsb))
      × (extract_field source msb lsb ≡ extract_bits source lsb (msb + 1 - lsb))
unfolding insert_field insert_bits extract_field extract_bits
fields_agree target source msb lsb h k = rw (field_mask-bit_mask msb lsb h k) (refl, refl)
