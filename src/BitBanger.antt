-- ===== src/BitBanger.antt =====
-- cppext/bitbanger.h: bits and bit fields of an `unsigned`, a number below 2^32. A shift is by less than
-- 32 places. An operation that changes its first argument gives the new value, before its result.
pub mod Fields
pub mod Single
pub mod Wad
use Prim.Native.Nat.{bit_and, bit_or}
use safely.Prelude.{
  ℕ, ◌+◌, ◌-◌, ◌*◌, ◌/◌, ◌%◌, ◌^◌, Bool, true, false, not, ◌&&◌, List, [], ◌∷◌, leb, ◌==◌,
  if◌then◌else◌, u32_mod,
}
use safely.Prelude.Int.{to_int, to_u32, ◌-ℤ◌}

-- `1 << n` and `x << n`, `x >> n`, `~x`
abbrev pub one_at : ℕ → ℕ
one_at n = 2 ^ n % u32_mod

abbrev pub shift_left : ℕ → ℕ → ℕ
shift_left x n = x * 2 ^ n % u32_mod

abbrev pub shift_right : ℕ → ℕ → ℕ
shift_right x n = x / 2 ^ n

abbrev pub complement : ℕ → ℕ
complement x = u32_mod - 1 - x

-- the difference of two numbers that are `int`s, as an `unsigned`
unfoldable pub int_minus : ℕ → ℕ → ℕ
int_minus a b = to_u32 (to_int a -ℤ to_int b)

unfoldable pub bit : ℕ → ℕ → Bool
bit patter bitnumber = not (bit_and patter (one_at bitnumber) == 0)

unfoldable is_odd : ℕ → Bool
is_odd pattern = not (bit_and pattern 1 == 0)

unfoldable is_even : ℕ → Bool
unfolding is_odd
is_even pattern = not (is_odd pattern)

unfoldable pub set_bit : ℕ → ℕ → ℕ × Bool
set_bit patter bitnumber =
    let patter' = bit_or patter (one_at bitnumber) in (patter', not (patter' == 0))

unfoldable pub clear_bit : ℕ → ℕ → ℕ × Bool
clear_bit patter bitnumber =
    let patter' = bit_and patter (complement (one_at bitnumber)) in (patter', not (patter' == 0))

unfoldable raise_bit : ℕ → ℕ → ℕ
unfolding set_bit clear_bit
raise_bit address number = (set_bit (clear_bit address number).0 number).0

unfoldable pub assign_bit : ℕ → ℕ → Bool → ℕ × Bool
unfolding set_bit clear_bit
assign_bit pattern bitnumber one =
    if one then ((set_bit pattern bitnumber).0, one) else ((clear_bit pattern bitnumber).0, one)

-- `BitReference`: the word that it refers to, and the mask
pub record BitReference : Type 0 where
  pub word : ℕ
  mask : ℕ

unfoldable pub reference : ℕ → ℕ → BitReference
reference bits bitnumber = record { word = bits; mask = one_at (bit_and 31 bitnumber) }

unfoldable assign : Bool → BitReference → BitReference × Bool
assign set r = (
  record r { word = if set then bit_or r.word r.mask else bit_and r.word (complement r.mask) },
  set,
)

unfoldable is_set : BitReference → Bool
is_set r = not (bit_and r.word r.mask == 0)

unfoldable pub flagged : BitReference → BitReference × Bool
unfolding assign is_set
flagged r = if is_set r then ((assign false r).0, true) else (r, false)

-- `insertField(target, source, mask)`
unfoldable pub insert_masked : ℕ → ℕ → ℕ → ℕ
insert_masked target source mask = bit_or (bit_and target (complement mask)) (bit_and source mask)

-- `mergeInto`, whose result is the new value
unfoldable merge_into : ℕ → ℕ → ℕ → ℕ
unfolding insert_masked
merge_into target source mask = insert_masked target source mask

-- `fieldMask`. The difference of the `int`s overflows where `msb` is 30, or `lsb` 31.
unfoldable pub field_mask : ℕ → ℕ → ℕ
unfolding int_minus
field_mask msb lsb = int_minus (if leb 31 msb then 0 else one_at (msb + 1)) (one_at lsb)

unfoldable insert_field : ℕ → ℕ → ℕ → ℕ → ℕ
unfolding insert_masked field_mask
insert_field target source msb lsb =
    insert_masked target (shift_left source lsb) (field_mask msb lsb)

unfoldable merge_field : ℕ → ℕ → ℕ → ℕ → ℕ
unfolding insert_field
merge_field target source msb lsb = insert_field target source msb lsb

unfoldable extract_field : ℕ → ℕ → ℕ → ℕ
unfolding field_mask
extract_field source msb lsb = shift_right (bit_and source (field_mask msb lsb)) lsb

-- `bitMask`. The difference of the `int`s overflows where the sum is 31.
unfoldable pub bit_mask : ℕ → ℕ → ℕ
unfolding int_minus
bit_mask lsb width = int_minus (one_at (lsb + width)) (one_at lsb)

unfoldable pub insert_bits : ℕ → ℕ → ℕ → ℕ → ℕ
unfolding insert_masked bit_mask
insert_bits target source lsb width =
    insert_masked target (shift_left source lsb) (bit_mask lsb width)

unfoldable merge_bits : ℕ → ℕ → ℕ → ℕ → ℕ
unfolding merge_into bit_mask
merge_bits target source lsb width = merge_into target (shift_left source lsb) (bit_mask lsb width)

unfoldable pub extract_bits : ℕ → ℕ → ℕ → ℕ
unfolding bit_mask
extract_bits source lsb width = shift_right (bit_and source (bit_mask lsb width)) lsb

-- the mask of `BitFielder<lsb, msb, msbIsWidth>`, and its two operations
unfoldable fielder_mask : ℕ → ℕ → Bool → ℕ
unfolding bit_mask field_mask
fielder_mask lsb msb msb_is_width = if msb_is_width then bit_mask lsb msb else field_mask msb lsb

unfoldable fielder_extract : ℕ → ℕ → Bool → ℕ → ℕ
unfolding fielder_mask
fielder_extract lsb msb msb_is_width item =
    shift_right (bit_and item (fielder_mask lsb msb msb_is_width)) lsb

unfoldable fielder_merge : ℕ → ℕ → Bool → ℕ → ℕ → ℕ
unfolding fielder_mask
fielder_merge lsb msb msb_is_width item value =
    let mask = fielder_mask lsb msb msb_is_width in
    bit_or (bit_and item (complement mask)) (bit_and (shift_left value lsb) mask)

-- `BitPicker<lsb>`
unfoldable picker_extract : ℕ → ℕ → ℕ
unfolding bit_mask
picker_extract lsb item = shift_right (bit_and item (bit_mask lsb 1)) lsb

unfoldable picker_assign : ℕ → ℕ → Bool → ℕ × Bool
unfolding bit_mask
picker_assign lsb word set =
    let mask = bit_mask lsb 1 in
    ((if set then bit_or word mask else bit_and word (complement mask)), set)

-- the operators of `BitField<lsb, msb, msbIsWidth>`, which do not pass the flag on
unfoldable field_value : ℕ → ℕ → Bool → ℕ → ℕ
unfolding fielder_extract
field_value lsb msb msb_is_width item = fielder_extract lsb msb true item

unfoldable field_assign : ℕ → ℕ → Bool → ℕ → ℕ → ℕ
unfolding fielder_merge
field_assign lsb msb msb_is_width item value = fielder_merge lsb msb true item value
