-- ===== src/Unescaper/Laws.antt =====
-- system/utf8transcoder.cpp: single digits and escapes, and what the decoder makes of a text.
use safely.Prelude.{
  ℕ, ◌+◌, ◌-◌, ◌*◌, ◌/◌, ◌%◌, ◌^◌, ◌<◌, ◌≤◌, ◌≡◌, refl, ap, arith, Bool, true, false, ◌&&◌, not,
  List, [], ◌∷◌, ltb, ◌==◌, if◌then◌else◌, length, replicate, every, every-at, ==_iff,
}
use safely.Index.{bad_index}
use safely.Utf8.{hex_nibble}
use safely.Transcoder.{Event, more, plain}
use safely.CountDown
use safely.Unescaper.{unescaped, hex_digit, Decoder, fresh, decode, slashee, needs_slash}

-- the character of a digit
abbrev digit_of : ℕ → ℕ
digit_of n = if ltb 9 n then b'A' + n - 10 else b'0' + n

digits_check : every (λ n. hex_digit (digit_of n) == n) 16 ≡ true
unfolding every hex_digit
digits_check = refl

-- The value of a hexadecimal digit that was written for a place of a number is the number's digit at
-- that place.
pub hex_digit-hex_nibble :
    (uch place : ℕ) → hex_digit (hex_nibble uch place) ≡ (uch / 2 ^ (place * 4)) % 16
unfolding hex_nibble
hex_digit-hex_nibble uch place =
    let n = (uch / 2 ^ (place * 4)) % 16 in
    (==_iff _ n).0 (every-at (λ n. hex_digit (digit_of n) == n) 16 n (omega arith) digits_check)

-- a byte that needs a slash is written by its letter, which stands for it again
slash_test : ℕ → Bool
slash_test c = if needs_slash c then slashee (slashee c) == c && not (slashee c == c) else true

slash_check : every slash_test 256 ≡ true
unfolding every slash_test needs_slash slashee
slash_check = refl

slash_step :
    (c : ℕ)
    → slash_test c ≡ true
    → needs_slash c ≡ true
    → (slashee (slashee c) ≡ c) × ((slashee c == c) ≡ false)
unfolding slash_test
slash_step c t n = ground (arith, t, n)

-- For each byte that needs a slash, the byte behind the slash is another one, and stands for it again.
pub slashee-slashee :
    (c : ℕ)
    → c < 256
    → needs_slash c ≡ true
    → (slashee (slashee c) ≡ c) × ((slashee c == c) ≡ false)
slashee-slashee c h n = slash_step c (every-at slash_test 256 c h slash_check) n

pub feed : List ℕ → Decoder → List Event
feed [] d = []
feed (c ∷ cs) d = let (v, d') = decode c d in v ∷ feed cs d'

abbrev NonZero : List ℕ → Type 0
NonZero [] = Unit {0}
NonZero (c ∷ cs) = (0 < c) × NonZero cs

decode-counting :
    (c : ℕ) (d : Decoder)
    → 0 < c
    → 1 < d.uchers
    → d.uchers ≤ bad_index
    → ((decode c d).0 ≡ more) × ((decode c d).1.uchers ≡ d.uchers - 1)
unfolding decode CountDown.post_decrement CountDown.is_done
decode-counting c d h k = ground arith

feed-counting :
    (cs : List ℕ) (d : Decoder)
    → NonZero cs
    → length cs < d.uchers
    → d.uchers ≤ bad_index
    → feed cs d ≡ replicate (length cs) more
unfolding feed
feed-counting [] d n h b = refl
feed-counting (c ∷ cs) d n h b =
    let (told, left) = decode-counting c d n.0 (omega arith) b in
    rw told (ap (◌∷◌ more) (feed-counting cs (decode c d).1 n.1 (omega arith) (omega arith)))

decode-fresh :
    (c : ℕ)
    → 0 < c
    → ((decode c fresh).0 ≡ (if c == b'\\' then more else plain))
      × ((decode c fresh).1.uchers ≡ bad_index)
unfolding decode CountDown.post_decrement unescaped
decode-fresh c h = ground arith

-- A new decoder, fed a text without null of less than 2^32 bytes, answers its first byte by `More`
-- for a backslash and `Plain` for any other, and every byte behind it by `More`: it counts down from
-- all ones, and no escape is read.
pub feed-fresh :
    (c : ℕ) (cs : List ℕ)
    → 0 < c
    → NonZero cs
    → length cs < bad_index
    → feed (c ∷ cs) fresh ≡ (if c == b'\\' then more else plain) ∷ replicate (length cs) more
unfolding feed
feed-fresh c cs h n l =
    let (told, left) = decode-fresh c h in
    rw told (
      ap (◌∷◌ (if c == b'\\' then more else plain))
        (feed-counting cs (decode c fresh).1 n (omega arith) (omega arith)))
