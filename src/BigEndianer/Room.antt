-- ===== src/BigEndianer/Room.antt =====
-- cppext/bigendianer.cpp: what is written and read where there is no room for the whole number.
use Prim.Native.Nat.{bit_or}
use safely.Prelude.{
  AllBytes, ℕ, ◌+◌, ◌-◌, ◌*◌, ◌/◌, ◌%◌, ◌^◌, ◌<◌, ◌≡◌, refl, ap, sym, ◌∙◌, arith, true, false, [],
  ◌∷◌, leb, if◌then◌else◌, u32_mod, dec_le,
}
use safely.Prelude.Bits.{or-ones}
use safely.Indexer.{Indexer, Memory}
use safely.Indexer.Contents.{Fits, Fits-resized, length-overwrite}
use safely.Indexer.Writing.{overwrite}
use safely.Indexer.Putting.{put_all_room, moved}
use safely.CharScanner.Bytes.{still_has_short}
use safely.BigEndianer.{getu16, hilo, getu32, put_u32}
use safely.BigEndianer.Laws.{hilo_room, hilo_short, getu16_room, moved-Fits}

getu16_short :
    {ix : Indexer} (mem : Memory ℕ)
    → Fits ix mem
    → ix.length < ix.pointer + 2
    → getu16 ix mem ≡ (u32_mod - 1, ix)
unfolding getu16
getu16_short {ix} mem f h = rw (still_has_short 2 mem f h) refl

-- A lower half that is missing sets every bit.
getu32_half :
    (ix : Indexer) (mem : Memory ℕ) {ix' ix'' : Indexer} {high : ℕ}
    → getu16 ix mem ≡ (high, ix')
    → getu16 ix' mem ≡ (u32_mod - 1, ix'')
    → getu32 ix mem ≡ (u32_mod - 1, ix'')
unfolding getu32
getu32_half ix mem {high = high} first second =
    ap
      (λ (r : ℕ × Indexer).
        let (l, end) = getu16 r.1 mem in (bit_or (r.0 * 2 ^ 16 % u32_mod) l, end))
      first
    ∙ ap (λ (r : ℕ × Indexer). (bit_or (high * 2 ^ 16 % u32_mod) r.0, r.1)) second
    ∙ rw (or-ones 32 (high * 2 ^ 16 % u32_mod) (omega arith)) refl

-- Without room for four bytes `put` writes the upper half where two are left, and nothing else; `getu32`
-- takes two bytes where they are left, and with all other bits gives the lower half all ones.
pub short_of_room :
    (value : ℕ) {ix : Indexer} (mem : Memory ℕ)
    → Fits ix mem
    → AllBytes mem
    → ix.length < ix.pointer + 4
    → let half = leb (ix.pointer + 2) ix.length in
      (put_u32 value ix mem ≡ (if half then hilo (value / 2 ^ 16) ix mem else (mem, ix)))
      × ((getu32 ix mem).0 ≡ u32_mod - 1)
      × ((getu32 ix mem).1 ≡ (if half then moved 2 ix else ix))
short_of_room value {ix} mem f b h = elim (dec_le (ix.pointer + 2) ix.length) [
  | yes room ↦
      let e : leb (ix.pointer + 2) ix.length ≡ true = ground arith in
      let high = value / 2 ^ 16 in
      let bytes = high / 2 ^ 8 % 256 ∷ high % 256 ∷ [] in
      let m1 = overwrite mem (ix.buffer + ix.pointer) bytes in
      let upper : hilo high ix mem ≡ (m1, moved 2 ix) =
        hilo_room high mem f room ∙ put_all_room bytes ix mem room in
      let f1 : Fits (moved 2 ix) m1 =
        Fits-resized (moved-Fits 2 f room) (length-overwrite mem _ bytes) in
      let lower = hilo_short (value % 2 ^ 16) m1 f1 (omega arith) in
      let wrote : put_u32 value ix mem ≡ hilo high ix mem =
        unfold put_u32 in
        ap (λ (r : Memory ℕ × Indexer). hilo (value % 2 ^ 16) r.1 r.0) upper ∙ lower ∙ sym upper in
      let read =
        getu32_half ix mem (getu16_room mem f b room)
          (getu16_short mem (moved-Fits 2 f room) (omega arith)) in
      rw e (wrote, ap (λ (r : ℕ × Indexer). r.0) read, ap (λ (r : ℕ × Indexer). r.1) read)
  | no full ↦
      let e : leb (ix.pointer + 2) ix.length ≡ false = ground arith in
      let wrote : put_u32 value ix mem ≡ (mem, ix) =
        unfold put_u32 in
        ap (λ (r : Memory ℕ × Indexer). hilo (value % 2 ^ 16) r.1 r.0)
          (hilo_short (value / 2 ^ 16) mem f (omega arith))
        ∙ hilo_short (value % 2 ^ 16) mem f (omega arith) in
      let missing = getu16_short mem f (omega arith) in
      let read = getu32_half ix mem missing missing in
      rw e (wrote, ap (λ (r : ℕ × Indexer). r.0) read, ap (λ (r : ℕ × Indexer). r.1) read)
]
