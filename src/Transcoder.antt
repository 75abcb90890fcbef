-- ===== src/Transcoder.antt =====
-- system/utf8transcoder.h and utf8transcoder.cpp: `Utf8Escaper`, which is fed the bytes of a text and
-- puts characters together. A call returns its event and the new state.
pub mod RoundTrip
use Prim.Native.Nat.{bit_or}
use safely.Prelude.{
  ℕ, zero, suc, ◌+◌, ◌-◌, ◌*◌, ◌/◌, ◌%◌, ◌^◌, Bool, true, false, not, ◌&&◌, ◌||◌, List, [], ◌∷◌,
  ltb, leb, ◌==◌, if◌then◌else◌, u32_mod, sub_u32, Option, none, some,
}
use safely.Utf8
use safely.CountDown
use safely.CountDown.{CountDown}

-- `Unicoder::Event`, without the `Xand` that only the decoder gives
pub data Event : Type 0 where
  end more done plain xand : Event

pub record Escaper : Type 0 where
  pub uch : ℕ
  pub followers : CountDown
  pub bigu : Bool

-- `Utf8Escaper::cleanup`: whether it was not in the middle of a sequence
unfoldable cleanup : Escaper → Bool × Escaper
unfolding Utf8.pad
cleanup e =
    if ltb 0 e.followers
    then (false, record e { uch = Utf8.pad e.uch e.followers; followers = 0 })
    else (true, e)

-- `Unicoder::fetch` of an escaper: the character, and the state that it leaves
unfoldable fetch : Escaper → ℕ × Escaper
unfolding cleanup
fetch e = let (_, e') = cleanup e in (e'.uch, record e' { uch = 0 })

-- `Utf8Escaper::operator()`
unfoldable escape : ℕ → Escaper → Event × Escaper
unfolding cleanup CountDown.post_decrement CountDown.is_done Utf8.is_multibyte
escape ch e =
    let (was_idle, cleaned) = cleanup e in
    let (was, left) = CountDown.post_decrement e.followers in
    let assembled = Utf8.more_bits ch e.uch in
    if ch == 0
    then (end, (if was_idle then record cleaned { uch = 0 } else cleaned))
    else if ltb 0 was
    then (if CountDown.is_done left
        then (done, record { uch = assembled; followers = left; bigu = leb (2 ^ 16) assembled })
        else (more, record e { uch = assembled; followers = left }))
    else if Utf8.is_multibyte ch
    then (let nf = Utf8.followers_of_byte ch in
        (more, record { uch = Utf8.first_bits ch nf; followers = nf; bigu = false }))
    else (plain, record { uch = ch; followers = left; bigu = false })

pub feed : List ℕ → Escaper → List Event × Escaper
feed [] e = ([], e)
feed (c ∷ cs) e = let (v, e') = escape c e in let (vs, e'') = feed cs e' in (v ∷ vs, e'')
