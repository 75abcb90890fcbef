-- ===== src/CharFormatter.antt =====
-- cppext/charformatter.cpp: printing into and parsing from an `Indexer` of characters. The floating
-- point side is not modelled. An operation gives the memory, the indexer and its result.
pub mod Parsing
pub mod Printing
pub mod Fields
pub mod Width
pub mod Unsigned
use safely.Prelude.{
  ℕ, zero, suc, ◌+◌, ◌-◌, ◌*◌, ◌/◌, ◌%◌, ◌^◌, Bool, true, false, not, ◌&&◌, ◌||◌, List, [], ◌∷◌,
  ltb, leb, ◌==◌, if◌then◌else◌, u32_mod, sub_u32,
}
use safely.Prelude.Int.{ℤ, pos, negsuc, ◌+ℤ◌, pos_part, ltb_ℤ}
use safely.Ordinator
use safely.Indexer
use safely.Indexer.{Indexer, Memory}
use safely.Indexer.Putting.{put, assign}
use safely.MiniMath.{i32_pow10, ilog10_u32, revolutions}
use safely.TransactionalBuffer

abbrev pub Printed : Type 0
Printed = Memory ℕ × Indexer × Bool

unfoldable pub print_char : ℕ → Indexer → Memory ℕ → Printed
unfolding Indexer.has_next put
print_char ch ix mem =
    let (mem', ix') = put ch ix mem in
    if Indexer.has_next ix then (mem', ix', true) else (mem, ix, false)

-- the loop of `printChar(ch, howMany)`
unfoldable pub print_loop : ℕ → ℕ → Indexer → Memory ℕ → Memory ℕ × Indexer
unfolding Indexer.has_next put
print_loop ch zero ix mem = (mem, ix)
print_loop ch (suc how_many) ix mem =
    let (mem', ix') = put ch ix mem in
    let rest = print_loop ch how_many ix' mem' in if Indexer.has_next ix then rest else (mem, ix)

unfoldable pub print_chars : ℕ → ℕ → Indexer → Memory ℕ → Printed
unfolding print_loop Ordinator.still_has
print_chars ch how_many ix mem =
    if Ordinator.still_has ix.ord how_many
    then (let (mem', ix') = print_loop ch how_many ix mem in (mem', ix', true))
    else (mem, ix, false)

-- the character of a digit, which goes on with 'A' from ten on
abbrev pub digit_char : ℕ → ℕ
digit_char digit = (digit + (if ltb digit 10 then b'0' else b'A' - 10)) % 256

unfoldable pub print_digit : ℕ → Indexer → Memory ℕ → Printed
unfolding print_char
print_digit digit ix mem = print_char (digit_char digit) ix mem

-- the loop of `printUnsigned`; `revolutions` leaves the rest in the value
unfoldable pub unsigned_loop : ℕ → ℕ → Indexer → Memory ℕ → Memory ℕ × Indexer
unfolding print_digit revolutions i32_pow10
unsigned_loop zero value ix mem = (mem, ix)
unsigned_loop (suc num_digits) value ix mem =
    let (digit, value') = revolutions value (i32_pow10 num_digits) in
    let (mem', ix', told) = print_digit digit ix mem in unsigned_loop num_digits value' ix' mem'

-- the number of digits, `ilog10(value) + 1`
abbrev pub digits_for : ℕ → ℕ
digits_for value = pos_part (ilog10_u32 value +ℤ pos 1)

unfoldable pub print_unsigned : ℕ → Indexer → Memory ℕ → Printed
unfolding print_char unsigned_loop Ordinator.still_has
print_unsigned value ix mem =
    if value == 0
    then print_char b'0' ix mem
    else if Ordinator.still_has ix.ord (digits_for value)
    then (let (mem', ix') = unsigned_loop (digits_for value) value ix mem in (mem', ix', true))
    else (mem, ix, false)

-- `digitsAbove` of minimath.cpp: the digit, and what is left of the value
unfoldable digits_above : ℕ → ℕ → ℕ × ℕ
unfolding i32_pow10
digits_above value num_digits =
    let digit = value / i32_pow10 num_digits in
    (digit, sub_u32 value (digit * i32_pow10 num_digits % u32_mod))

-- the loop of `printAtWidth`
unfoldable pub width_loop : ℕ → ℕ → Indexer → Memory ℕ → Memory ℕ × Indexer
unfolding print_digit digits_above
width_loop zero value ix mem = (mem, ix)
width_loop (suc num_digits) value ix mem =
    let (digit, value') = digits_above value num_digits in
    let (mem', ix', told) = print_digit digit ix mem in width_loop num_digits value' ix' mem'

unfoldable pub print_at_width : ℕ → ℕ → ℕ → Indexer → Memory ℕ → Printed
unfolding print_chars width_loop Ordinator.still_has
print_at_width value width padding ix mem =
    let num_digits = if value == 0 then 1 else digits_for value in
    if ltb width num_digits
    then (let (mem', ix', told) = print_chars b'*' width ix mem in (mem', ix', false))
    else if Ordinator.still_has ix.ord width
    then (let (mem', ix', told) = print_chars padding (width - num_digits) ix mem in
        let (mem'', ix'') = width_loop num_digits value ix' mem' in (mem'', ix'', true))
    else (mem, ix, false)

-- the loop of `printHex`
unfoldable pub hex_loop : ℕ → ℕ → Indexer → Memory ℕ → Memory ℕ × Indexer
unfolding print_digit
hex_loop zero value ix mem = (mem, ix)
hex_loop (suc width) value ix mem =
    let (mem', ix', told) = print_digit (value / 2 ^ (4 * width) % 16) ix mem in
    hex_loop width value ix' mem'

-- `printHex`, of eight digits at most
unfoldable pub print_hex : ℕ → ℕ → Indexer → Memory ℕ → Printed
unfolding hex_loop Ordinator.still_has
print_hex value width ix mem =
    if Ordinator.still_has ix.ord width
    then (let (mem', ix') = hex_loop width value ix mem in (mem', ix', true))
    else (mem, ix, false)

-- `printSigned`: the sign goes first and both results count. The magnitude of -2^31 does not fit an
-- `int`; the others do.
unfoldable pub print_signed : ℤ → Indexer → Memory ℕ → Printed
unfolding print_char print_unsigned
print_signed (pos value) ix mem = print_unsigned value ix mem
print_signed (negsuc n) ix mem =
    let (mem', ix', signed) = print_char b'-' ix mem in
    let (mem'', ix'', told) = print_unsigned (n + 1) ix' mem' in (mem'', ix'', signed && told)

-- the loop of `printString` over the characters before the null
unfoldable pub string_loop : List ℕ → Indexer → Memory ℕ → Memory ℕ × Indexer
unfolding print_char
string_loop [] ix mem = (mem, ix)
string_loop (c ∷ cs) ix mem =
    let (mem', ix', told) = print_char c ix mem in
    let rest = string_loop cs ix' mem' in if told then rest else (mem', ix')

-- `printString`: the transactional buffer is a copy, which the loop does not use
pub print_string : List ℕ → Indexer → Memory ℕ → Printed
unfolding string_loop
print_string s ix mem =
    let checker = TransactionalBuffer.make (Indexer.clipped ix (pos 0)) in
    let (mem', ix') = string_loop s ix mem in (mem', ix', (TransactionalBuffer.commit checker).0)
