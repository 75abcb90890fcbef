-- ===== src/Unescaper.antt =====
-- system/utf8transcoder.h and utf8transcoder.cpp: `Utf8Decoder`, which is fed a text with the escapes of C
-- and gives the characters that they stand for; and the hexadecimal digits of cppext/char.cpp.
pub mod Laws
use Prim.Native.Nat.{bit_or, bit_xor}
use safely.Prelude.{
  ℕ, ◌+◌, ◌-◌, ◌*◌, ◌/◌, ◌%◌, ◌^◌, Bool, true, false, not, ◌&&◌, ◌||◌, List, [], ◌∷◌, ltb, leb,
  ◌==◌, if◌then◌else◌, u32_mod, sub_u32, get_or,
}
use safely.Index
use safely.CountDown
use safely.CountDown.{CountDown}
use safely.Cstr
use safely.Transcoder.{Event, end, more, done, plain, xand}

-- A `char` that becomes an `int` or an `unsigned` keeps its sign.
abbrev sign_extended : ℕ → ℕ
sign_extended c = if leb 128 c then c + (u32_mod - 256) else c

-- `Char::hexDigit()`
pub hex_digit : ℕ → ℕ
hex_digit raw =
    let trusting = sub_u32 (sign_extended (bit_or raw 0x20)) b'0' in
    if ltb 9 trusting then sub_u32 trusting 39 else trusting

-- `hexDigit(uch)`
unfoldable pub append_hex : ℕ → ℕ → ℕ
unfolding hex_digit
append_hex raw uch = bit_or ((uch * 16) % u32_mod) (hex_digit raw)

-- `isxdigit` and `isdigit`, in the C locale
abbrev is_hex_digit : ℕ → Bool
is_hex_digit c =
    (leb b'0' c && leb c b'9') || ((leb b'a' c && leb c b'f') || (leb b'A' c && leb c b'F'))

abbrev is_digit : ℕ → Bool
is_digit c = leb b'0' c && leb c b'9'

-- `SeaScapes`, each letter with what it stands for
unfoldable sea_scapes : List ℕ
sea_scapes =
    b'a' ∷ 7 ∷ b'b' ∷ 8 ∷ b'f' ∷ 12 ∷ b'n' ∷ 10 ∷ b'r' ∷ 13 ∷ b't' ∷ 9 ∷ b'v' ∷ 11 ∷ b'\\' ∷ b'\\'
    ∷ b'/' ∷ b'/' ∷ b'\'' ∷ b'\'' ∷ b'?' ∷ b'?' ∷ b'"' ∷ b'"' ∷ []

-- `Unicoder::needsSlash` and `slashee`
unfoldable pub needs_slash : ℕ → Bool
unfolding Index.is_odd Cstr.index sea_scapes
needs_slash raw = Index.is_odd (Cstr.index sea_scapes raw)

pub slashee : ℕ → ℕ
unfolding Cstr.index sea_scapes
slashee after_slash =
    let present = Cstr.index sea_scapes after_slash in
    if Index.is_valid present then get_or sea_scapes (bit_xor 1 present) 0 else after_slash

pub record Decoder : Type 0 where
  pub uch : ℕ
  pub uchers : CountDown
  pub octers : CountDown
  pub slashing : Bool
  pub xing : Bool

abbrev pub fresh : Decoder
fresh = record { uch = 0; uchers = 0; octers = 0; slashing = false; xing = false }

-- `Utf8Decoder::cleanup`; a shift by 32 or more is undefined, and the count is taken modulo 32
unfoldable cleanup : Decoder → Bool × Decoder
cleanup d =
    if ltb 0 d.uchers
    then (false, record d { uch = (d.uch * 2 ^ (4 * d.uchers % 32)) % u32_mod; uchers = 0 })
    else if ltb 0 d.octers
    then (false, record d { uch = (d.uch * 2 ^ (3 * d.octers % 32)) % u32_mod; octers = 0 })
    else if d.xing
    then (false, record d { xing = false })
    else if d.slashing
    then (false, record d { uch = b'\\'; slashing = false })
    else (true, d)

-- the tests behind the escapes
unfoldable unescaped : ℕ → Decoder → Event × Decoder
unescaped ch d =
    if ch == b'\\'
    then (more, record d { slashing = true })
    else (plain, record d { uch = sign_extended ch })

-- the character behind a slash; `flagged` has cleared the flag
unfoldable after_slash : ℕ → Decoder → Event × Decoder
after_slash ch d =
    if ch == b'u'
    then (more, record d { uch = 0; uchers = 4 })
    else if ch == b'U'
    then (more, record d { uch = 0; uchers = 8 })
    else if is_digit ch
    then (more, record d { uch = 0; octers = 3 })
    else if ch == b'x'
    then (more, record d { uch = 0; xing = true })
    else if Cstr.is_present sea_scapes ch
    then (plain, record d { uch = sign_extended (slashee ch) })
    else unescaped ch d

-- a character while the flag of `\x` is set
unfoldable after_x : ℕ → Decoder → Event × Decoder
after_x ch d =
    if is_hex_digit ch
    then (more, record d { uch = append_hex ch d.uch })
    else if ch == b'\\'
    then (done, record d { xing = false; slashing = true })
    else (xand, record d { xing = false })

-- `Utf8Decoder::operator()`
unfoldable decode : ℕ → Decoder → Event × Decoder
decode ch d =
    let (was_idle, cleaned) = cleanup d in
    let (uchers, uchers') = CountDown.post_decrement d.uchers in
    let d1 = record d { uchers = uchers' } in
    let (octers, octers') = CountDown.post_decrement d.octers in
    let d2 = record d1 { octers = octers' } in
    if ch == 0
    then (end, (if was_idle then record cleaned { uch = 0 } else cleaned))
    else if ltb 0 uchers
    then (
      (if CountDown.is_done uchers' then done else more),
      record d1 { uch = append_hex ch d.uch },
    )
    else if ltb 0 octers
    then (
      (if CountDown.is_done octers' then done else more),
      record d2 { uch = bit_or ((d.uch * 8) % u32_mod) (ch % 8) },
    )
    else if d.xing
    then after_x ch d2
    else if d.slashing
    then after_slash ch (record d2 { slashing = false })
    else unescaped ch d2
