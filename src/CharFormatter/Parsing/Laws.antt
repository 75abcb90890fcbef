-- ===== src/CharFormatter/Parsing/Laws.antt =====
-- cppext/charformatter.cpp: the parsing loop ends, with what the number parser makes of the characters.
use mathlib.Core.Option
use safely.Prelude.{
  ℕ, zero, suc, ◌+◌, ◌-◌, ◌≤◌, ◌<◌, ◌≡◌, ◌≢◌, refl, ap, ◌∙◌, arith, Bool, true, false, Option, none,
  some, List, [], ◌∷◌, leb, ◌==◌, if◌then◌else◌, u32_mod, length, take, drop, drop-get_or, get_or,
  subst, ℕ_discrete,
}
use safely.Prelude.Int.{pos}
use safely.Indexer.{Indexer, Memory, has_next, peek, skip}
use safely.Indexer.Writing.{overwrite}
use safely.Indexer.Contents.{Fits, length-overwrite}
use safely.Indexer.Putting.{value_at, moved}
use safely.CharScanner.Bytes.{skip_room, take-drop-overwrite}
use safely.NumberParser.{Parser, reset, next, feed, before_decimal}
use safely.NumberParser.Digits.{AllDigits, decimal, feed-cons, feed-integer}
use safely.NumberParser.Number.{next-first, next-zero, with_first}
use safely.CharFormatter.{print_unsigned}
use safely.CharFormatter.Unsigned.{shown, shown-IsNumeral, print_unsigned_lem}
use safely.CharFormatter.Parsing.{
  seems_ok, parse_number, integer_of, parse64, check_unsigned, parse_unsigned,
}

-- the characters that are left of a buffer
abbrev pub remaining : Indexer → Memory ℕ → List ℕ
remaining ix mem = take (ix.length - ix.pointer) (drop (ix.buffer + ix.pointer) mem)

peek_value :
    (ix : Indexer) (mem : Memory ℕ)
    → ix.pointer < ix.length
    → value_at (peek ix) mem ≡ get_or mem (ix.buffer + ix.pointer) 0
unfolding peek
peek_value ix mem h = ground arith

ended_or_on :
    (more : Bool) (q : Parser) (o : Option (Parser × Indexer)) (t : Bool × Parser) (jx : Indexer)
    → Option.map (λ (r : Parser × Indexer). r.0) o ≡ some t.1
    → Option.map (λ (r : Parser × Indexer). r.0) (if more then o else some (q, jx))
      ≡ some (if more then t else (false, q)).1
ended_or_on true q o t jx e = e
ended_or_on false q o t jx e = refl

-- More rounds than there are characters left are enough for `parseNumber`, and the parser is the one that
-- is fed those characters until one ends the number.
pub parse_number-feed :
    (left fuel : ℕ) (p : Parser) (ix : Indexer) (mem : Memory ℕ)
    → ix.pointer + left ≡ ix.length
    → left < fuel
    → ix.buffer + ix.length ≤ length mem
    → ix.length < u32_mod
    → Option.map (λ (r : Parser × Indexer). r.0) (parse_number fuel p ix mem)
      ≡ some (feed (take left (drop (ix.buffer + ix.pointer) mem)) p).1
unfolding parse_number feed
parse_number-feed left zero p ix mem e h k w = absurd (omega arith)
parse_number-feed zero (suc fuel) p ix mem e h k w =
    let ended : has_next ix ≡ false = unfold has_next in ground arith in rw ended refl
parse_number-feed (suc left) (suc fuel) p ix mem e h k w =
    let a = ix.buffer + ix.pointer in
    let c = get_or mem a 0 in
    let ahead : ix.buffer + (ix.pointer + 1) ≡ suc a = omega arith in
    let tail = take left (drop (suc a) mem) in
    let more : has_next ix ≡ true = unfold has_next in ground arith in
    let here : value_at (peek ix) mem ≡ c = peek_value ix mem (omega arith) in
    let step : skip 1 ix ≡ moved 1 ix = skip_room 1 ix (omega arith) w in
    let rest : Option.map (λ (r : Parser × Indexer). r.0)
          (parse_number fuel (next c p).1 (moved 1 ix) mem)
        ≡ some (feed tail (next c p).1).1 =
      parse_number-feed left fuel (next c p).1 (moved 1 ix) mem (omega arith) (omega arith) k w
      ∙ rw ahead refl in
    rw (drop-get_or mem a 0 (omega arith)) (
      rw more (
        rw here
          (rw step (ended_or_on (next c p).0 (next c p).1 _ (feed tail (next c p).1) ix rest))))

-- what a fresh parser makes of a numeral
abbrev counted : ℕ → List ℕ → Parser
counted value ds = record reset {
  is_zero = value == 0;
  predecimal = value;
  phase = before_decimal;
  processed = length ds;
}

feed-shown :
    (value : ℕ) → value < u32_mod → feed (shown value) reset ≡ (true, counted value (shown value))
feed-shown value h = elim (ℕ_discrete value 0) [
  | yes z ↦
      let e : shown value ≡ b'0' ∷ [] = unfold shown in ground arith in
      rw e (feed-cons b'0' [] reset next-zero ∙ (unfold feed in ground arith))
  | no nz ↦
      let n = shown-IsNumeral value h in
      let (c, cs, split, only) = n.first in
      let digits = subst AllDigits split n.digits in
      let makes : decimal 0 (c ∷ cs) ≡ value = subst (λ ds. decimal 0 ds ≡ value) split n.makes in
      let size : length (c ∷ cs) ≤ 10 = subst (λ ds. length ds ≤ 10) split n.short in
      let high : c ≢ b'0' = λ z.
        let alone : decimal 0 (b'0' ∷ []) ≡ value =
          subst (λ d. decimal 0 (d ∷ []) ≡ value) z
            (subst (λ r. decimal 0 (c ∷ r) ≡ value) (only z) makes) in
        absurd (omega arith) in
      rw split (
        feed-cons c cs reset (next-first c reset refl refl high digits.0)
        ∙ feed-integer cs (with_first c reset) refl refl refl (omega arith) digits.1 (omega arith)
        ∙ ground arith)
]

map_first :
    {A B C : Type 0} (g : A → B) (o : Option (A × C))
    → Option.map (λ (r : B × C). r.0) (Option.map (λ (r : A × C). (g r.0, r.1)) o)
      ≡ Option.map g (Option.map (λ (r : A × C). r.0) o)
map_first g none = refl
map_first g (some a) = refl

counted-value :
    (value def : ℕ) (ds : List ℕ)
    → value < u32_mod
    → check_unsigned def
        (if seems_ok (counted value ds) then integer_of (counted value ds) else pos def)
      ≡ value
unfolding check_unsigned seems_ok integer_of
counted-value value def ds h = ground arith

-- `parseUnsigned` of exactly what `printUnsigned` has printed gives the value that was printed, whatever
-- its default; eleven rounds of its loop are enough.
pub parse_unsigned-print_unsigned :
    (value def : ℕ) {ix : Indexer} (mem : Memory ℕ)
    → Fits ix mem
    → value < u32_mod
    → length (shown value) ≤ ix.length - ix.pointer
    → let (mem', ix', told) = print_unsigned value ix mem in
      let reader : Indexer = record {
        ord = record { pointer = ix.pointer; length = ix'.pointer };
        buffer = ix.buffer;
      } in
      Option.map (λ (r : ℕ × Indexer). r.0) (parse_unsigned 11 def reader mem') ≡ some value
parse_unsigned-print_unsigned value def {ix} mem f h room =
    let ds = shown value in
    let a = ix.buffer + ix.pointer in
    let m' = overwrite mem a ds in
    let fits : leb (length ds) (ix.length - ix.pointer) ≡ true = ground arith in
    let wrote : print_unsigned value ix mem ≡ (m', moved (length ds) ix, true) =
      print_unsigned_lem value mem f h ∙ rw fits refl in
    let reader : Indexer = record {
      ord = record { pointer = ix.pointer; length = ix.pointer + length ds };
      buffer = ix.buffer;
    } in
    let back = take-drop-overwrite mem a ds (omega arith) in
    let parsed : Option.map (λ (r : Parser × Indexer). r.0) (parse_number 11 reset reader m')
        ≡ some (counted value ds) =
      parse_number-feed (length ds) 11 reset reader m' refl
        (omega (arith, (shown-IsNumeral value h).short)) (omega (arith, length-overwrite mem a ds))
        (omega arith)
      ∙ ap (λ cs. some (feed cs reset).1) back
      ∙ ap (λ (r : Bool × Parser). some r.1) (feed-shown value h) in
    rw wrote (
      unfold parse_unsigned parse64 in
      map_first (check_unsigned def) _
      ∙ ap (λ o. Option.map (check_unsigned def) o)
          (map_first (λ q. if seems_ok q then integer_of q else pos def) _
            ∙ ap (λ o. Option.map (λ q. if seems_ok q then integer_of q else pos def) o) parsed)
      ∙ ap some (counted-value value def ds h))
