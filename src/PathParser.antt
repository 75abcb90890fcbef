-- ===== src/PathParser.antt =====
-- system/pathparser.h and pathparser.cpp: paths put together from pieces, and taken apart again.
--
-- A piece is the list of its bytes. The chain of pieces that is read is the list of what its pointers
-- lead to, with a scanner over it; the one that is written is that list. Loops are on fuel, and `none`
-- is a loop that has not ended.
pub mod Sizes
pub mod Packing
pub mod Words
pub mod Splitting
pub mod RoundTrip
pub mod Whole
use mathlib.Core.Option
use safely.Prelude.{
  ℕ, zero, suc, ◌+◌, ◌-◌, ◌*◌, ◌%◌, ◌^◌, Bool, true, false, not, ◌&&◌, ◌||◌, Option, none, some,
  List, [], ◌∷◌, ◌++◌, ltb, leb, ◌==◌, if◌then◌else◌, length, get_or, take, drop, add_u32, sub_u32,
}
use safely.Index.{bad_index, add_assign}
use safely.Ordinator
use safely.Span
use safely.Span.{Span, cleared}
use safely.Indexer
use safely.Indexer.{Indexer, Memory, peek, skip}
use safely.Indexer.Writing.{cat}
use safely.Indexer.Putting.{put, fetch, value_at}
use safely.Chain
use safely.Chain.{Scanner}

pub record Rules : Type 0 where
  pub slash : ℕ
  pub after : Bool
  pub before : Bool

unfoldable pub is_slash : Rules → ℕ → Bool
is_slash rules token = token == rules.slash

-- `Converter` of cppext/converter.h: the length of what it makes of a text, and the making of it
pub record Converter : Type 0 where
  pub size : List ℕ → ℕ
  pub convert : List ℕ → Indexer → Memory ℕ → Memory ℕ × Indexer

-- the base class, which copies
unfoldable pub base_converter : Converter
base_converter = record {
  size = length;
  convert = λ source target mem.
      (let (mem', target', whole) = cat (some source) bad_index target mem in (mem', target'));
}

abbrev one_if : Bool → ℕ
one_if b = if b then 1 else 0

-- the loop of `length`
unfoldable pub length_loop : Converter → ℕ → Scanner → List (List ℕ) → ℕ → Option ℕ
unfolding Chain.has_next Chain.next
length_loop converter zero s pieces quantity = none
length_loop converter (suc fuel) s pieces quantity =
    let (place, s') = Chain.next s in
    let rest =
      length_loop converter fuel s' pieces
        (add_u32 quantity (add_u32 1 (converter.size (get_or pieces place [])))) in
    if Chain.has_next pieces s then rest else some quantity

unfoldable pub length_of : Converter → Rules → ℕ → Scanner → List (List ℕ) → Option ℕ
unfolding length_loop Chain.has_next
length_of converter rule fuel s pieces =
    if not (Chain.has_next pieces s)
    then some 0
    else Option.map (λ quantity. if rule.before then quantity else sub_u32 quantity 1)
        (length_loop converter fuel s pieces (one_if rule.after))

-- one round of the loop of `packInto`
unfoldable pub pack_piece :
    Converter → Rules → Scanner → List ℕ → Indexer → Memory ℕ → Memory ℕ × Indexer
unfolding Chain.ordinal put
pack_piece converter rule s piece packer mem =
    let (mem', packer') =
      if ltb 0 (Chain.ordinal s) || rule.before then put rule.slash packer mem else (mem, packer) in
    converter.convert piece packer' mem'

unfoldable pub pack_loop :
    Converter
    → Rules
    → ℕ
    → Scanner
    → List (List ℕ)
    → Indexer
    → Memory ℕ
    → Option (Memory ℕ × Indexer)
unfolding Chain.has_next Chain.next pack_piece
pack_loop converter rule zero s pieces packer mem = none
pack_loop converter rule (suc fuel) s pieces packer mem =
    let (place, s') = Chain.next s in
    let (mem', packer') = pack_piece converter rule s (get_or pieces place []) packer mem in
    let rest = pack_loop converter rule fuel s' pieces packer' mem' in
    if Chain.has_next pieces s then rest else some (mem, packer)

-- what `packInto` does after its loop
unfoldable pub pack_end : Rules → Indexer → Memory ℕ → Memory ℕ × Indexer
unfolding put Indexer.has_next
pack_end rule packer mem =
    let (mem', packer') =
      if rule.after && ltb 0 packer.pointer then put rule.slash packer mem else (mem, packer) in
    if Indexer.has_next packer' then put 0 packer' mem' else (mem', packer')

unfoldable pub pack_into :
    Converter
    → Rules
    → ℕ
    → Scanner
    → List (List ℕ)
    → Indexer
    → Memory ℕ
    → Option (Memory ℕ × Indexer)
unfolding pack_loop pack_end
pack_into converter rule fuel s pieces packer mem =
    Option.map (λ (r : Memory ℕ × Indexer). pack_end rule r.1 r.0)
      (pack_loop converter rule fuel s pieces packer mem)

-- the text that a span of the scanned buffer covers; no byte of it is null, at which the copy would stop
abbrev pub text_of : Indexer → Memory ℕ → Span → List ℕ
text_of scan mem cutter = take (Span.extent cutter) (drop (scan.buffer + cutter.lowest) mem)

-- what `parseInto` works on: the buffer, the cutter and the pieces
pub record Cutting : Type 0 where
  pub scan : Indexer
  pub cutter : Span
  pub pieces : List (List ℕ)

-- `pieces.suffix(cutter(leap))`
unfoldable pub cut : ℕ → Memory ℕ → Cutting → Cutting
unfolding Span.leapfrog Span.extent
cut leap mem w = record w {
  cutter = Span.leapfrog leap w.cutter;
  pieces = w.pieces ++ (text_of w.scan mem w.cutter ∷ []);
}

-- one round of the loop of `parseInto`, after `scan.next()`
unfoldable pub cut_on : ℕ → Memory ℕ → Cutting → ℕ × Indexer → Cutting
unfolding cut Span.empty Ordinator.ordinal add_assign
cut_on seperator mem w (c, scan') =
    let ended = record w {
      scan = scan';
      cutter = record (w.cutter) { highest = sub_u32 (Ordinator.ordinal scan'.ord) 1 };
    } in
    if c == seperator
    then (if Span.empty ended.cutter
        then record ended {
          cutter = record (ended.cutter) { lowest = add_assign ended.cutter.lowest 1 };
        }
        else cut 1 mem ended)
    else record w { scan = scan' }

unfoldable pub cut_round : ℕ → Memory ℕ → Cutting → Cutting
unfolding fetch cut_on
cut_round seperator mem w = cut_on seperator mem w (fetch w.scan mem)

unfoldable pub cut_loop : ℕ → ℕ → Memory ℕ → Cutting → Option Cutting
unfolding cut_round Indexer.has_next
cut_loop seperator zero mem w = none
cut_loop seperator (suc fuel) mem w =
    let rest = cut_loop seperator fuel mem (cut_round seperator mem w) in
    if Indexer.has_next w.scan then rest else some w

-- what `parseInto` does after its loop: whether there is a trailing seperator, and the pieces
unfoldable pub cut_end : Memory ℕ → Cutting → Bool × List (List ℕ)
unfolding cut Span.empty Ordinator.contains Ordinator.ordinal
cut_end mem w =
    if Ordinator.contains (w.scan.ord) w.cutter.lowest
    then (let ended = record w {
      cutter = record (w.cutter) { highest = Ordinator.ordinal (w.scan.ord) };
    } in
        if Span.empty ended.cutter then (true, w.pieces) else (false, (cut 0 mem ended).pieces))
    else (ltb 0 (Ordinator.ordinal (w.scan.ord)), w.pieces)

-- the rest of `parseInto`, once it knows whether a seperator leads and has passed it
unfoldable pub parse_rest :
    ℕ → ℕ → List (List ℕ) → Bool → Indexer → Memory ℕ → Option (Rules × List (List ℕ))
unfolding cut_loop cut_end Indexer.has_next Ordinator.ordinal
parse_rest fuel seperator pieces leads scan mem =
    if leads && not (Indexer.has_next scan)
    then some (record { slash = seperator; after = false; before = true }, pieces)
    else Option.map
        (λ w.
          (let (after, found) = cut_end mem w in
            (record { slash = seperator; after = after; before = leads }, found)))
        (cut_loop seperator fuel mem (record {
          scan = scan;
          cutter = record cleared { lowest = Ordinator.ordinal scan.ord };
          pieces = pieces;
        }))

-- `parseInto`: the rules and the pieces
unfoldable pub parse_into :
    ℕ → ℕ → List (List ℕ) → Indexer → Memory ℕ → Option (Rules × List (List ℕ))
unfolding parse_rest fetch Indexer.has_next peek
parse_into fuel seperator pieces scan mem =
    let leads = Indexer.has_next scan && value_at (peek scan) mem == seperator in
    parse_rest fuel seperator pieces leads (if leads then (fetch scan mem).1 else scan) mem
