-- ===== src/Utf8.antt =====
-- cppext/utf8.h and utf8.cpp: the bytes of UTF-8, one at a time, and the two small state machines of
-- `UTF8`. A byte is a number below 256 and a `Unichar` one below 2^32. `& fieldMask(n)` is written as
-- `% 2^n`, `>>` as a quotient and `<<` as a product that wraps; where `|` joins bits that cannot overlap
-- since the shift or mask in front of it clears them, it is written as a sum.
pub mod Encode
use Prim.Native.Nat.{bit_or}
use safely.Prelude.{
  ℕ, zero, suc, ◌+◌, ◌-◌, ◌*◌, ◌/◌, ◌%◌, ◌^◌, Bool, true, false, List, [], ◌∷◌, ltb, leb, ◌==◌,
  if◌then◌else◌, u32_mod, sub_u32,
}
use safely.Index.{bad_index}

unfoldable pub is_multibyte : ℕ → Bool
is_multibyte raw = leb 128 raw

-- `numFollowers()`, of a first byte
pub followers_of_byte : ℕ → ℕ
followers_of_byte raw =
    if ltb raw 0xC0
    then 0
    else if ltb raw 0xE0
    then 1
    else if ltb raw 0xF0
    then 2
    else if ltb raw 0xF8
    then 3
    else if ltb raw 0xFC
    then 4
    else 5

-- `firstBits`: what is assigned to `uch`
pub first_bits : ℕ → ℕ → ℕ
unfolding followers_of_byte
first_bits raw nf =
    let known = if nf == bad_index then followers_of_byte raw else nf in raw % 2 ^ (6 - known)

unfoldable pub more_bits : ℕ → ℕ → ℕ
more_bits raw uch = (uch * 64) % u32_mod + raw % 64

-- A shift by 32 or more is undefined; the count is taken modulo 32, as the machine does.
unfoldable pub pad : ℕ → ℕ → ℕ
pad uch followers = (uch * 2 ^ (6 * followers % 32)) % u32_mod

-- `numFollowers(unichar)`
unfoldable pub followers_of_char : ℕ → ℕ
followers_of_char unichar =
    if unichar / 2 ^ 7 == 0
    then 0
    else if unichar / 2 ^ 11 == 0
    then 1
    else if unichar / 2 ^ 16 == 0
    then 2
    else if unichar / 2 ^ 21 == 0
    then 3
    else if unichar / 2 ^ 26 == 0
    then 4
    else 5

pub first_byte : ℕ → ℕ → ℕ
first_byte unichar zero = unichar % 256
first_byte unichar (suc f) =
    bit_or ((0xFC * 2 ^ (5 - suc f)) % 256) (unichar / 2 ^ (6 * suc f)) % 256

unfoldable pub next_byte : ℕ → ℕ → ℕ
next_byte unichar followers = (unichar / 2 ^ (6 * followers)) % 64 + 128

unfoldable pub hex_nibble : ℕ → ℕ → ℕ
hex_nibble uch sb =
    let nib = (uch / 2 ^ (sb * 4)) % 16 in if ltb 9 nib then b'A' + nib - 10 else b'0' + nib

pub record Decoder : Type 0 where
  pub unichar : ℕ
  pub followers : ℕ
  pub errorcode : ℕ

-- `Decoder::start`; the byte that `firstByte` makes is not used
unfoldable decoder_start : ℕ → Decoder → Bool × Decoder
unfolding followers_of_byte
decoder_start raw d =
    let nf = followers_of_byte raw in
    if ltb 0 nf
    then (true, record d { followers = nf })
    else (false, record { unichar = raw; followers = nf; errorcode = 0 })

-- `Decoder::next`; the byte that `nextByte` makes is not used
unfoldable decoder_next : ℕ → Decoder → Bool × Decoder
unfolding pad
decoder_next raw d =
    if d.followers == 0
    then (false, record d { errorcode = raw })
    else if raw / 64 == 2
    then (ltb 0 d.followers, record d { followers = sub_u32 d.followers 1 })
    else (false, record d { unichar = pad d.unichar d.followers; errorcode = raw })

pub record Encoder : Type 0 where
  pub unichar : ℕ
  pub followers : ℕ

-- `Encoder::start`: the byte and the new state
unfoldable encoder_start : ℕ → ℕ × Encoder
unfolding followers_of_char first_byte
encoder_start uch =
    let nf = followers_of_char uch in (first_byte uch nf, record { unichar = uch; followers = nf })

unfoldable encoder_has_more : Encoder → Bool
encoder_has_more e = ltb 0 e.followers

-- `Encoder::next`: the shift is by the count before it is lowered
unfoldable encoder_next : Encoder → ℕ × Encoder
unfolding next_byte
encoder_next e = (next_byte e.unichar e.followers, record e { followers = sub_u32 e.followers 1 })
