-- ===== src/PathParser/Whole.antt =====
-- system/pathparser.cpp with the base class of cppext/converter.h: pieces go into a path and out again.
use safely.Prelude.{
  ℕ, suc, ◌+◌, ◌-◌, ◌≤◌, ◌<◌, ◌≡◌, refl, sym, ap, ◌∙◌, arith, Bool, true, false, some, List, [],
  ◌∷◌, ltb, length, set, take, drop, u32_mod, sub_u32,
}
use safely.Index.{bad_index}
use safely.Indexer.{Indexer, Memory}
use safely.Indexer.Writing.{overwrite, cat, cat_loop}
use safely.Indexer.Contents.{length-overwrite}
use safely.Indexer.Putting.{put_all, put_room, moved}
use safely.CharScanner.Bytes.{take-drop-overwrite}
use safely.Chain.Scanning.{at_step}
use safely.PathParser.{Rules, base_converter, pack_into, parse_into}
use safely.PathParser.Sizes.{IsFaithful, joined}
use safely.PathParser.Packing.{pack_into-joined}
use safely.PathParser.Words.{is_nil-length}
use safely.PathParser.Splitting.{scan_at}
use safely.PathParser.RoundTrip.{AllPieces, parse_into-joined}

-- `cat` of a text that there is room for, with a limit that is not less, puts its bytes.
cat_step :
    (c : ℕ) (cs : List ℕ) (limit : ℕ) (ix : Indexer) (mem : Memory ℕ)
    → 0 < limit
    → ix.pointer < ix.length
    → cat_loop (c ∷ cs) limit ix mem
      ≡ cat_loop cs (sub_u32 limit 1) (moved 1 ix) (set mem (ix.buffer + ix.pointer) c)
unfolding cat_loop
cat_step c cs limit ix mem h r =
    let room : ltb ix.pointer ix.length ≡ true = ground arith in
    let more : ltb 0 limit ≡ true = ground arith in rw room (rw more refl)

put_all-cons :
    (c : ℕ) (cs : List ℕ) (ix : Indexer) (mem : Memory ℕ)
    → ix.pointer < ix.length
    → put_all (c ∷ cs) ix mem ≡ put_all cs (moved 1 ix) (set mem (ix.buffer + ix.pointer) c)
unfolding put_all
put_all-cons c cs ix mem h =
    ap (λ (q : Memory ℕ × Indexer). put_all cs q.1 q.0) (put_room c ix mem h)

cat_loop-put_all :
    (text : List ℕ) (limit : ℕ) (ix : Indexer) (mem : Memory ℕ)
    → length text ≤ limit
    → limit < u32_mod
    → ix.pointer + length text ≤ ix.length
    → (let (m, jx, at_null, left) = cat_loop text limit ix mem in (m, jx)) ≡ put_all text ix mem
cat_loop-put_all [] limit ix mem h l r = unfold cat_loop put_all in refl
cat_loop-put_all (c ∷ cs) limit ix mem h l r =
    let a = ix.buffer + ix.pointer in
    ap (λ (q : Memory ℕ × Indexer × Bool × ℕ). (q.0, q.1))
      (cat_step c cs limit ix mem (omega arith) (omega arith))
    ∙ cat_loop-put_all cs (sub_u32 limit 1) (moved 1 ix) (set mem a c) (omega arith) (omega arith)
        (omega arith)
    ∙ sym (put_all-cons c cs ix mem (omega arith))

pub base_converter-IsFaithful : IsFaithful base_converter (λ text. text)
unfolding base_converter
base_converter-IsFaithful = record {
  sizes = λ text. refl;
  writes = λ text ix mem l h.
      unfold cat in cat_loop-put_all text bad_index ix mem (omega arith) (omega arith) h;
}

-- The path that `packInto` writes of some pieces, none of them empty or with a slash in it, into a buffer
-- of the path's size, is taken apart by `parseInto` into those pieces and the rules it was written by.
pub parse_into-pack_into :
    (rule : Rules) (text : List ℕ) (texts : List (List ℕ)) (packer : Indexer) (mem : Memory ℕ)
    → let pieces = text ∷ texts in
      AllPieces rule.slash pieces
      → length pieces < u32_mod
      → packer.length < bad_index
      → packer.buffer + packer.length ≤ length mem
      → packer.length ≡ length (joined rule (λ t. t) pieces)
      → (mem' : Memory ℕ) × (packer' : Indexer) × (pack_into base_converter rule
            (suc (length pieces))
            (at_step 0 false)
            pieces
            (scan_at packer 0)
            mem
          ≡ some (mem', packer'))
        × (parse_into (suc packer.length) rule.slash [] (scan_at packer 0) mem'
            ≡ some (rule, pieces))
parse_into-pack_into rule text texts packer mem h w l k e =
    let path = joined rule (λ t. t) (text ∷ texts) in
    let some_text = is_nil-length text in
    let packed =
      pack_into-joined base_converter (λ t. t) base_converter-IsFaithful rule text texts
        {packer = scan_at packer 0} mem w (omega arith) refl e (ground (arith, h.0.1, some_text)) in
    let mem' = overwrite mem packer.buffer path in
    let written : take (packer.length - 0) (drop (packer.buffer + 0) mem') ≡ path =
      let whole : packer.length - 0 ≡ length path = omega arith in
      let at0 : packer.buffer + 0 ≡ packer.buffer = omega arith in
      rw whole (rw at0 (take-drop-overwrite mem packer.buffer path (omega arith))) in
    (
      mem',
      moved (length path) (scan_at packer 0),
      packed,
      parse_into-joined rule text texts packer mem' h l
          (omega (arith, length-overwrite mem packer.buffer path)) written,
    )
