-- ===== src/UrlText.antt =====
-- system/urltext.h and urltext.cpp: the lengths of text with escapes, and the decoder, which is fed one
-- byte at a time. `char` is signed, so a byte from 128 on is negative in a comparison.
pub mod Decoding
use Prim.Native.Nat.{bit_or}
use safely.Prelude.{
  ℕ, ◌+◌, ◌*◌, ◌%◌, Bool, true, false, ◌&&◌, ◌||◌, List, [], ◌∷◌, ltb, leb, ◌==◌, if◌then◌else◌,
  add_u32,
}
use safely.CountDown
use safely.CountDown.{CountDown}
use safely.Cstr
use safely.Indexer
use safely.Indexer.{Indexer, Memory}
use safely.Indexer.Putting.{put}
use safely.Unescaper.{hex_digit}

-- `mustEscape`; `iscntrl` is that of the C locale
unfoldable must_escape : ℕ → Bool
unfolding Cstr.is_present
must_escape ch =
    (ltb ch 32 || ch == 127)
    || ((leb 127 ch && ltb ch 128) || Cstr.is_present (b'%' ∷ b'/' ∷ b'\\' ∷ b' ' ∷ []) ch)

-- the loop of `encodedLength`
unfoldable encoded_from : ℕ → List ℕ → ℕ
encoded_from totes [] = totes
encoded_from totes (ch ∷ it) = encoded_from (add_u32 totes (if must_escape ch then 3 else 1)) it

unfoldable encoded_length : List ℕ → ℕ
unfolding encoded_from
encoded_length it = encoded_from 0 it

-- the loop of `decodedLength`
unfoldable decoded_from : CountDown → ℕ → List ℕ → ℕ
decoded_from hidgetting totes [] = totes
decoded_from hidgetting totes (ch ∷ it) =
    decoded_from (if ltb 0 hidgetting then hidgetting else if ch == b'%' then 2 else hidgetting)
      (if ltb 0 hidgetting then totes else add_u32 totes 1) it

unfoldable decoded_length : List ℕ → ℕ
unfolding decoded_from
decoded_length it = decoded_from 0 0 it

pub record Decoder : Type 0 where
  pub ix : Indexer
  pub hidgetting : CountDown
  pub packer : ℕ

-- `hexDigit(packer)`, where the accumulator is a `char`
unfoldable append_digit : ℕ → ℕ → ℕ
append_digit ch packer = bit_or (packer * 16 % 256) (hex_digit ch) % 256

-- a byte while digits are awaited
unfoldable push_digit : ℕ → Decoder → Memory ℕ → Memory ℕ × Decoder
unfolding append_digit CountDown.is_done
push_digit ch d mem =
    let d' = record d { packer = append_digit ch d.packer } in
    let (mem', ix') = put d'.packer d.ix mem in
    if CountDown.is_done d.hidgetting then (mem', record d' { ix = ix' }) else (mem, d')

-- a byte while none are, if there is room
unfoldable push_plain : ℕ → Decoder → Memory ℕ → Memory ℕ × Decoder
unfolding Indexer.has_next
push_plain ch d mem =
    let (mem', ix') = put ch d.ix mem in
    if Indexer.has_next d.ix
    then (if ch == b'%'
        then (mem, record d { hidgetting = 2; packer = 0 })
        else (mem', record d { ix = ix' }))
    else (mem, d)

-- `Decoder::push`, which returns whether there is room
unfoldable push : ℕ → Decoder → Memory ℕ → Memory ℕ × Decoder × Bool
unfolding push_digit push_plain Indexer.has_next
push incoming d mem =
    let (mem', d') =
      if ltb 0 d.hidgetting then push_digit incoming d mem else push_plain incoming d mem in
    (mem', d', Indexer.has_next d'.ix)
