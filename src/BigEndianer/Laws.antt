-- ===== src/BigEndianer/Laws.antt =====
-- cppext/bigendianer.cpp: what is written is read back, and how little room is met.
use Prim.Native.Nat.{bit_or}
use safely.Prelude.{
  AllBytes, ℕ, ◌+◌, ◌*◌, ◌/◌, ◌%◌, ◌^◌, ◌≤◌, ◌<◌, ◌≡◌, zero, suc, get_or, drop-get_or, refl, ap,
  sym, ◌∙◌, arith, Bool, true, List, [], ◌∷◌, u32_mod, take, drop,
}
use safely.Prelude.Bits.{or_apart}
use safely.Indexer.{Indexer, Memory}
use safely.Indexer.Contents.{Fits, Fits-resized, length-overwrite}
use safely.Indexer.Writing.{overwrite}
use safely.Indexer.Putting.{put_all, put_all_room, fetch, fetch_room, moved}
use safely.CharScanner.{put_big, put_bytes, get_u}
use safely.CharScanner.Bytes.{
  big_bytes, put_big-put_all, put_bytes_room, get_u-put_bytes, get_u_room, big_value,
  still_has_enough, still_has_short,
}
use safely.BigEndianer.{getu16, hilo, getu32, put_u32}

pub hilo_room :
    (datum : ℕ) {ix : Indexer} (mem : Memory ℕ)
    → Fits ix mem
    → ix.pointer + 2 ≤ ix.length
    → hilo datum ix mem ≡ put_all (datum / 2 ^ 8 % 256 ∷ datum % 256 ∷ []) ix mem
unfolding hilo put_all
hilo_room datum {ix} mem f h = rw (still_has_enough 2 mem f h) refl

pub hilo_short :
    (datum : ℕ) {ix : Indexer} (mem : Memory ℕ)
    → Fits ix mem
    → ix.length < ix.pointer + 2
    → hilo datum ix mem ≡ (mem, ix)
unfolding hilo
hilo_short datum {ix} mem f h = rw (still_has_short 2 mem f h) refl

get_or-byte : (mem : List ℕ) (a : ℕ) → AllBytes mem → get_or mem a 0 < 256
get_or-byte [] a h = omega arith
get_or-byte (x ∷ xs) zero h = h.0
get_or-byte (x ∷ xs) (suc a) h = get_or-byte xs a h.1

overwrite-AllBytes :
    (mem : List ℕ) (a : ℕ) (vs : List ℕ)
    → AllBytes mem
    → AllBytes vs
    → AllBytes (overwrite mem a vs)
unfolding overwrite
overwrite-AllBytes [] a vs h k = tt
overwrite-AllBytes (x ∷ xs) zero [] h k = h
overwrite-AllBytes (x ∷ xs) zero (v ∷ vs) h k = (k.0, overwrite-AllBytes xs zero vs h.1 k.1)
overwrite-AllBytes (x ∷ xs) (suc a) vs h k = (h.0, overwrite-AllBytes xs a vs h.1 k)

-- the byte at a distance ahead of the pointer
abbrev pub ahead : ℕ → Indexer → Memory ℕ → ℕ
ahead i ix mem = get_or mem (ix.buffer + (ix.pointer + i)) 0

pub getu16_room :
    {ix : Indexer} (mem : Memory ℕ)
    → Fits ix mem
    → AllBytes mem
    → ix.pointer + 2 ≤ ix.length
    → getu16 ix mem ≡ (ahead 0 ix mem * 256 + ahead 1 ix mem, moved 2 ix)
getu16_room {ix} mem f b h =
    let b0 = get_or mem (ix.buffer + ix.pointer) 0 in
    let b1 = ahead 1 ix mem in
    let start : ix.pointer + 0 ≡ ix.pointer = omega arith in
    let less0 = get_or-byte mem (ix.buffer + ix.pointer) b in
    let less1 = get_or-byte mem (ix.buffer + (ix.pointer + 1)) b in
    let joined : bit_or (b0 * 2 ^ 8) b1 ≡ b0 * 256 + b1 = or_apart 8 16 b0 b1 less1 (omega arith) in
    unfold getu16 in
    rw (still_has_enough 2 mem f h) (
      ap (λ (r : ℕ × Indexer). let (low, end) = fetch r.1 mem in (bit_or (r.0 * 2 ^ 8) low, end))
        (fetch_room ix mem (omega arith))
      ∙ ap (λ (r : ℕ × Indexer). (bit_or (b0 * 2 ^ 8) r.0, r.1))
          (fetch_room (moved 1 ix) mem (omega arith))
      ∙ rw joined (rw start (ground arith)))

pub moved-Fits :
    (n : ℕ) {ix : Indexer} {mem : Memory ℕ}
    → Fits ix mem
    → ix.pointer + n ≤ ix.length
    → Fits (moved n ix) mem
moved-Fits n {ix} {mem} f h = record {
  valid = record { within = h; small = f.valid.small };
  placed = f.placed;
  inside = f.inside;
  small = f.small;
}

-- the four bytes as the halves of the number give them
halved : ℕ → List ℕ
halved value =
    value / 2 ^ 16 / 2 ^ 8 % 256
    ∷ value / 2 ^ 16 % 256
    ∷ value % 2 ^ 16 / 2 ^ 8 % 256
    ∷ value % 2 ^ 16 % 256
    ∷ []

halved-big_bytes : (value : ℕ) → halved value ≡ big_bytes 4 value
unfolding halved big_bytes
halved-big_bytes value = ground arith

-- `put(uint32_t)` with room for four bytes is `putBytes` of four, highest first.
pub put_u32-put_bytes :
    (value : ℕ) {ix : Indexer} (mem : Memory ℕ)
    → Fits ix mem
    → ix.pointer + 4 ≤ ix.length
    → let (mem', ix', told) = put_bytes true value 4 ix mem in put_u32 value ix mem ≡ (mem', ix')
put_u32-put_bytes value {ix} mem f h =
    let high = value / 2 ^ 16 in
    let low = value % 2 ^ 16 in
    let highs = high / 2 ^ 8 % 256 ∷ high % 256 ∷ [] in
    let lows = low / 2 ^ 8 % 256 ∷ low % 256 ∷ [] in
    let m1 = overwrite mem (ix.buffer + ix.pointer) highs in
    let put1 : put_all highs ix mem ≡ (m1, moved 2 ix) = put_all_room highs ix mem (omega arith) in
    let f1 : Fits (moved 2 ix) m1 =
      Fits-resized (moved-Fits 2 f (omega arith)) (length-overwrite mem _ highs) in
    let first = hilo_room high mem f (omega arith) in
    let second = hilo_room low m1 f1 (omega arith) in
    let all : put_u32 value ix mem ≡ put_all (halved value) ix mem =
      unfold put_u32 halved put_all in
      ap (λ (r : Memory ℕ × Indexer). hilo low r.1 r.0) (first ∙ put1)
      ∙ second
      ∙ sym (ap (λ (r : Memory ℕ × Indexer). put_all lows r.1 r.0) put1) in
    let told : put_bytes true value 4 ix mem
        ≡ ((put_big 4 value ix mem).0, (put_big 4 value ix mem).1, true) =
      unfold put_bytes in rw (still_has_enough 4 mem f h) refl in
    all
    ∙ ap (λ bs. put_all bs ix mem) (halved-big_bytes value)
    ∙ sym (put_big-put_all 4 value ix mem)
    ∙ rw told refl

-- `getu32` where four bytes are left is `getU` of four, highest first.
pub getu32-get_u :
    (def : ℕ) {ix : Indexer} (mem : Memory ℕ)
    → Fits ix mem
    → AllBytes mem
    → ix.pointer + 4 ≤ ix.length
    → getu32 ix mem ≡ get_u true 4 def ix mem
getu32-get_u def {ix} mem f b h =
    let a = ix.buffer + ix.pointer in
    let first = getu16_room mem f b (omega arith) in
    let second = getu16_room mem (moved-Fits 2 f (omega arith)) b (omega arith) in
    let whole = get_u_room true 4 def mem f h in
    let high = ahead 0 ix mem * 256 + ahead 1 ix mem in
    let low = ahead 0 (moved 2 ix) mem * 256 + ahead 1 (moved 2 ix) mem in
    let halves : getu32 ix mem ≡ (bit_or (high * 2 ^ 16 % u32_mod) low, moved 2 (moved 2 ix)) =
      unfold getu32 in
      ap
        (λ (r : ℕ × Indexer).
          let (l, end) = getu16 r.1 mem in (bit_or (r.0 * 2 ^ 16 % u32_mod) l, end))
        first
      ∙ ap (λ (r : ℕ × Indexer). (bit_or (high * 2 ^ 16 % u32_mod) r.0, r.1)) second in
    let joined : bit_or (high * 2 ^ 16 % u32_mod) low ≡ high * 2 ^ 16 + low =
      let byte : (i : ℕ) (jx : Indexer) → ahead i jx mem < 256 = λ i jx. get_or-byte mem _ b in
      let fits : high * 2 ^ 16 % u32_mod ≡ high * 2 ^ 16 = omega (arith, byte 0 ix, byte 1 ix) in
      rw fits (
        or_apart 16 32 high low (omega (arith, byte 0 (moved 2 ix), byte 1 (moved 2 ix)))
          (omega (arith, byte 0 ix, byte 1 ix))) in
    let four : big_value (take 4 (drop a mem)) ≡ high * 2 ^ 16 + low =
      let at0 : ix.buffer + (ix.pointer + 0) ≡ a = omega arith in
      let at1 : ix.buffer + (ix.pointer + 1) ≡ suc a = omega arith in
      let at2 : ix.buffer + (ix.pointer + 2 + 0) ≡ suc (suc a) = omega arith in
      let at3 : ix.buffer + (ix.pointer + 2 + 1) ≡ suc (suc (suc a)) = omega arith in
      rw at0 (
        rw at1 (
          rw at2 (
            rw at3 (
              rw (drop-get_or mem a 0 (omega arith)) (
                rw (drop-get_or mem (suc a) 0 (omega arith)) (
                  rw (drop-get_or mem (suc (suc a)) 0 (omega arith)) (
                    rw (drop-get_or mem (suc (suc (suc a))) 0 (omega arith))
                      (unfold big_value in omega arith)))))))) in
    halves ∙ rw joined (rw (sym four) (ground arith)) ∙ sym whole

big_bytes-AllBytes : (value : ℕ) → AllBytes (big_bytes 4 value)
unfolding big_bytes
big_bytes-AllBytes value = omega arith

-- A number that `put` writes, with room for it in memory of bytes, is the number that `getu32` reads
-- there, and both move the pointer by four.
pub getu32-put_u32 :
    (value : ℕ) {ix : Indexer} (mem : Memory ℕ)
    → Fits ix mem
    → AllBytes mem
    → value < 2 ^ 32
    → ix.pointer + 4 ≤ ix.length
    → let (mem', ix') = put_u32 value ix mem in
      (ix' ≡ moved 4 ix) × (getu32 ix mem' ≡ (value, moved 4 ix))
getu32-put_u32 value {ix} mem f b v h =
    let a = ix.buffer + ix.pointer in
    let bytes = big_bytes 4 value in
    let wrote = put_bytes_room true value 4 mem f h in
    let put : put_u32 value ix mem ≡ (overwrite mem a bytes, moved 4 ix) =
      put_u32-put_bytes value mem f h ∙ ap (λ (r : Memory ℕ × Indexer × Bool). (r.0, r.1)) wrote in
    let f' : Fits ix (overwrite mem a bytes) = Fits-resized f (length-overwrite mem a bytes) in
    let b' = overwrite-AllBytes mem a bytes b (big_bytes-AllBytes value) in
    let read : get_u true 4 0 ix (overwrite mem a bytes) ≡ (value % 256 ^ 4, moved 4 ix) =
      ap (λ (r : Memory ℕ × Indexer × Bool). get_u true 4 0 ix r.0) (sym wrote)
      ∙ (get_u-put_bytes true value 4 0 mem f (omega arith) h).2 in
    let whole : value % 256 ^ 4 ≡ value = omega arith in
    rw put (refl, getu32-get_u 0 (overwrite mem a bytes) f' b' h ∙ read ∙ rw whole refl)
