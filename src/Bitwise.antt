-- ===== src/Bitwise.antt =====
-- cppext/bitwise.h: an older header of bit fields, by their offset and width, beside bitbanger.h. Words
-- and shifts are as there.
use Prim.Native.Nat.{bit_and, bit_or}
use native.Mathlib.Nat.{mod-eq_of_lt}
use safely.Prelude.{ℕ, ◌+◌, ◌-◌, ◌*◌, ◌%◌, ◌^◌, ◌<◌, ◌≡◌, ap, sym, ◌∙◌, arith, u32_mod, sub_u32}
use safely.Prelude.Bits.{and-ones}
use safely.BitBanger.{
  one_at, shift_left, shift_right, complement, bit_mask, extract_bits, insert_masked,
}
use safely.BitBanger.Fields.{bit_mask-eq, bit_mask-lt, extract_bits_lem, pow_below}

unfoldable field_mask : ℕ → ℕ
field_mask width = sub_u32 (one_at width) 1

unfoldable field_mask_at : ℕ → ℕ → ℕ
unfolding field_mask
field_mask_at offset width = shift_left (field_mask width) offset

unfoldable pub extract_field : ℕ → ℕ → ℕ → ℕ
unfolding field_mask
extract_field source offset width = bit_and (shift_right source offset) (field_mask width)

-- `insertField`, which gives `fieldMask` the width as the offset
unfoldable pub insert_field : ℕ → ℕ → ℕ → ℕ → ℕ
unfolding field_mask_at
insert_field target source offset width =
    let mask = field_mask_at width offset in
    bit_or (bit_and target (complement mask)) (bit_and (shift_left source offset) mask)

field_mask-eq : (width : ℕ) → width < 32 → field_mask width ≡ 2 ^ width - 1
field_mask-eq width h =
    unfold field_mask in
    omega (arith, pow_below width 31 (omega arith), pow_below 0 width (omega arith))

-- Extraction by offset and width is that of bitbanger.h.
pub extract_field-agrees :
    (source offset width : ℕ)
    → offset + width < 32
    → extract_field source offset width ≡ extract_bits source offset width
extract_field-agrees source offset width h =
    let masked : extract_field source offset width
        ≡ bit_and (shift_right source offset) (2 ^ width - 1) =
      unfold extract_field in
      ap (λ m. bit_and (shift_right source offset) m) (field_mask-eq width (omega arith)) in
    masked
    ∙ and-ones width (shift_right source offset)
    ∙ sym (extract_bits_lem source offset width h)

-- Insertion changes the bits from the place `width` on, `offset` of them.
pub insert_field-swapped :
    (target source offset width : ℕ)
    → offset + width < 32
    → insert_field target source offset width
      ≡ insert_masked target (shift_left source offset) (bit_mask width offset)
insert_field-swapped target source offset width h =
    let shifted = bit_mask-eq width offset (omega arith) in
    let ones = field_mask-eq offset (omega arith) in
    let opened : field_mask_at width offset ≡ (2 ^ offset - 1) * 2 ^ width % u32_mod =
      unfold field_mask_at in ap (λ m. m * 2 ^ width % u32_mod) ones in
    let mask : field_mask_at width offset ≡ bit_mask width offset =
      opened ∙ ap (λ m. m % u32_mod) (sym shifted) ∙ mod-eq_of_lt (bit_mask-lt width offset) in
    unfold insert_field insert_masked in
    ap (λ m. bit_or (bit_and target (complement m)) (bit_and (shift_left source offset) m)) mask
