-- ===== src/UrlText/Decoding.antt =====
-- system/urltext.cpp: what becomes of a text that is pushed into the decoder.
use safely.Prelude.{
  ℕ, suc, ◌+◌, ◌<◌, ◌≡◌, refl, sym, ap, ◌∙◌, arith, Bool, true, false, List, [], ◌∷◌, ◌++◌, ltb,
  ◌==◌, length, set,
}
use safely.Indexer
use safely.Indexer.{Indexer, Memory}
use safely.Indexer.Writing.{overwrite}
use safely.Indexer.Putting.{put_all, put_all_room, put_room, moved}
use safely.UrlText.{Decoder, push, push_digit, push_plain, append_digit}

-- a text pushed byte by byte, with the memory that it leaves
pub push_all : List ℕ → Decoder → Memory ℕ → Memory ℕ × Decoder
unfolding push
push_all [] d mem = (mem, d)
push_all (ch ∷ text) d mem = let (mem', d', room) = push ch d mem in push_all text d' mem'

-- a text without the escape character
abbrev pub NoEscape : List ℕ → Type 0
NoEscape [] = Unit {0}
NoEscape (ch ∷ text) = ((ch == b'%') ≡ false) × NoEscape text

abbrev pub plain_decoder : Indexer → ℕ → Decoder
plain_decoder ix packer = record { ix = ix; hidgetting = 0; packer = packer }

abbrev awaiting : Indexer → ℕ → ℕ → Decoder
awaiting ix left packer = record { ix = ix; hidgetting = suc left; packer = packer }

push-awaiting :
    (ch : ℕ) (ix : Indexer) (left packer : ℕ) (mem : Memory ℕ)
    → push ch (awaiting ix left packer) mem
      ≡ (mem, awaiting ix left (append_digit ch packer), Indexer.has_next ix)
unfolding push push_digit
push-awaiting ch ix left packer mem =
    let more : ltb 0 (suc left) ≡ true = ground arith in
    let not_done : (suc left == 0) ≡ false = ground arith in rw more (rw not_done refl)

push-escape :
    (ix : Indexer) (packer : ℕ) (mem : Memory ℕ)
    → ix.pointer < ix.length
    → push b'%' (plain_decoder ix packer) mem ≡ (mem, awaiting ix 1 0, true)
unfolding push push_plain
push-escape ix packer mem h =
    let room : Indexer.has_next ix ≡ true = unfold Indexer.has_next in ground arith in
    rw room (rw room refl)

push-plain :
    (ch : ℕ) (ix : Indexer) (packer : ℕ) (mem : Memory ℕ)
    → (ch == b'%') ≡ false
    → ix.pointer + 1 < ix.length
    → push ch (plain_decoder ix packer) mem
      ≡ (set mem (ix.buffer + ix.pointer) ch, plain_decoder (moved 1 ix) packer, true)
unfolding push push_plain
push-plain ch ix packer mem n h =
    let room : Indexer.has_next ix ≡ true = unfold Indexer.has_next in ground arith in
    let more : Indexer.has_next (moved 1 ix) ≡ true = unfold Indexer.has_next in ground arith in
    rw room (rw n (rw (put_room ch ix mem (omega arith)) (rw more refl)))

push_all-step :
    (ch : ℕ) (text : List ℕ) (d : Decoder) (mem : Memory ℕ) {mem' : Memory ℕ} {d' : Decoder}
    {room : Bool}
    → push ch d mem ≡ (mem', d', room)
    → push_all (ch ∷ text) d mem ≡ push_all text d' mem'
unfolding push_all
push_all-step ch text d mem e = ap (λ (r : Memory ℕ × Decoder × Bool). push_all text r.1 r.0) e

-- while digits are awaited nothing is written
push_all-awaiting :
    (text : List ℕ) (ix : Indexer) (left packer : ℕ) (mem : Memory ℕ)
    → (push_all text (awaiting ix left packer) mem).0 ≡ mem
unfolding push_all
push_all-awaiting [] ix left packer mem = refl
push_all-awaiting (ch ∷ text) ix left packer mem =
    ap (λ (r : Memory ℕ × Decoder). r.0)
      (push_all-step ch text (awaiting ix left packer) mem (push-awaiting ch ix left packer mem))
    ∙ push_all-awaiting text ix left (append_digit ch packer) mem

push_all-put_all :
    (text rest : List ℕ) (ix : Indexer) (packer : ℕ) (mem : Memory ℕ)
    → NoEscape text
    → ix.pointer + length text < ix.length
    → (push_all (text ++ (b'%' ∷ rest)) (plain_decoder ix packer) mem).0 ≡ (put_all text ix mem).0
unfolding put_all
push_all-put_all [] rest ix packer mem n h =
    ap (λ (r : Memory ℕ × Decoder). r.0)
      (push_all-step b'%' rest (plain_decoder ix packer) mem
        (push-escape ix packer mem (omega arith)))
    ∙ push_all-awaiting rest ix 1 0 mem
push_all-put_all (ch ∷ text) rest ix packer mem n h =
    let a = ix.buffer + ix.pointer in
    ap (λ (r : Memory ℕ × Decoder). r.0)
      (push_all-step ch (text ++ (b'%' ∷ rest)) (plain_decoder ix packer) mem
        (push-plain ch ix packer mem n.0 (omega arith)))
    ∙ push_all-put_all text rest (moved 1 ix) packer (set mem a ch) n.1 (omega arith)
    ∙ sym (
        ap (λ (r : Memory ℕ × Indexer). (put_all text r.1 r.0).0)
          (put_room ch ix mem (omega arith)))

-- Of a text with an escape, for which there is room, the decoder writes what stands before the escape,
-- and nothing of the escape or of what follows it.
pub push_all-overwrite :
    (text rest : List ℕ) (ix : Indexer) (mem : Memory ℕ)
    → NoEscape text
    → ix.pointer + length text < ix.length
    → (push_all (text ++ (b'%' ∷ rest)) (plain_decoder ix 0) mem).0
      ≡ overwrite mem (ix.buffer + ix.pointer) text
push_all-overwrite text rest ix mem n h =
    push_all-put_all text rest ix 0 mem n h
    ∙ ap (λ (r : Memory ℕ × Indexer). r.0) (put_all_room text ix mem (omega arith))
