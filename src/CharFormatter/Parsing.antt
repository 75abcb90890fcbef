-- ===== src/CharFormatter/Parsing.antt =====
-- cppext/charformatter.cpp and numberpieces.cpp: `parseNumber` and the integers that are parsed.
pub mod Laws
use mathlib.Core.Option
use safely.Prelude.{
  ℕ, zero, suc, ◌+◌, ◌-◌, ◌*◌, ◌/◌, ◌%◌, ◌^◌, Bool, true, false, not, ◌&&◌, ◌||◌, Option, none,
  some, ltb, leb, ◌==◌, if◌then◌else◌, u32_mod, int_max,
}
use safely.Prelude.Int.{ℤ, pos, negsuc, ltb_ℤ, pos_part}
use safely.Indexer
use safely.Indexer.{Indexer, Memory, has_next, peek, skip}
use safely.Indexer.Putting.{value_at}
use safely.MiniMath.{ilog10_u64, i64_pow10}
use safely.NumberParser.{Parser, reset, next}

-- `NumberPieces::seemsOk`
unfoldable pub seems_ok : Parser → Bool
seems_ok p =
    if not p.is_nan && not p.is_inf
    then p.is_zero || (not (p.predecimal == 0) || not (p.postdecimal == 0))
    else false

-- the loop of `parseNumber`: the parser and the buffer where it ended. On fuel; `none` is a loop that has
-- not ended.
unfoldable pub parse_number : ℕ → Parser → Indexer → Memory ℕ → Option (Parser × Indexer)
unfolding has_next peek skip
parse_number zero p ix mem = none
parse_number (suc fuel) p ix mem =
    let (more, p') = next (value_at (peek ix) mem) p in
    let rest = parse_number fuel p' (skip 1 ix) mem in
    if has_next ix then (if more then rest else some (p', ix)) else some (p, ix)

-- a 64-bit word as an `int64_t`
abbrev pub to_int64 : ℕ → ℤ
to_int64 w = if ltb w (2 ^ 63) then pos w else negsuc (2 ^ 64 - 1 - w)

-- a logarithm as an `unsigned`
abbrev as_unsigned : ℤ → ℕ
as_unsigned (pos n) = n
as_unsigned (negsuc n) = u32_mod - 1 - n

-- `int logProduct <= 18`, of a sum that is cut to 32 bits
unfoldable pub low_product : Parser → Bool
low_product p =
    let product =
      ((as_unsigned (ilog10_u64 p.predecimal) + p.pow10) % u32_mod + p.exponent) % u32_mod in
    leb product 18 || leb int_max product

-- the number of `parse64` once its characters are parsed
unfoldable pub integer_of : Parser → ℤ
unfolding low_product
integer_of p =
    let magnitude =
      if p.has_eterm
      then (if low_product p
          then 2 ^ 63 - 1
          else (p.predecimal * i64_pow10 (p.exponent % u32_mod)) % 2 ^ 64)
      else p.predecimal in
    to_int64 (if p.negative then (2 ^ 64 - magnitude) % 2 ^ 64 else magnitude)

unfoldable pub parse64 : ℕ → ℤ → Indexer → Memory ℕ → Option (ℤ × Indexer)
unfolding parse_number seems_ok integer_of
parse64 fuel def ix mem =
    Option.map (λ (r : Parser × Indexer). ((if seems_ok r.0 then integer_of r.0 else def), r.1))
      (parse_number fuel reset ix mem)

-- what `parseInt` and `parseUnsigned` make of the 64-bit number
unfoldable pub saturate_int : ℤ → ℤ
saturate_int dry =
    if ltb_ℤ (pos (int_max - 1)) dry
    then pos (int_max - 1)
    else if ltb_ℤ dry (negsuc (int_max - 1))
    then negsuc (int_max - 1)
    else dry

unfoldable pub check_unsigned : ℕ → ℤ → ℕ
check_unsigned def dry =
    if ltb_ℤ (pos (u32_mod - 1)) dry then def else if ltb_ℤ dry (pos 0) then def else pos_part dry

unfoldable pub parse_int : ℕ → ℤ → Indexer → Memory ℕ → Option (ℤ × Indexer)
unfolding parse64 saturate_int
parse_int fuel def ix mem =
    Option.map (λ (r : ℤ × Indexer). (saturate_int r.0, r.1)) (parse64 fuel def ix mem)

unfoldable pub parse_unsigned : ℕ → ℕ → Indexer → Memory ℕ → Option (ℕ × Indexer)
unfolding parse64 check_unsigned
parse_unsigned fuel def ix mem =
    Option.map (λ (r : ℤ × Indexer). (check_unsigned def r.0, r.1)) (parse64 fuel (pos def) ix mem)
