-- ===== src/PathParser/RoundTrip.antt =====
-- system/pathparser.cpp: a path that `packInto` writes is taken apart into its pieces by `parseInto`.
use mathlib.Core.Option
use safely.Prelude.{
  ℕ, suc, ◌+◌, ◌-◌, ◌≤◌, ◌<◌, ◌≡◌, refl, sym, ap, ◌∙◌, arith, Bool, true, false, not, ◌&&◌, Option,
  none, some, List, [], ◌∷◌, ◌++◌, ltb, ◌==◌, length, get_or, length-take, length-drop, drop,
  append_assoc, append-nil, length-append,
}
use safely.Index.{bad_index}
use safely.Ordinator
use safely.Span.{Span}
use safely.Indexer
use safely.Indexer.{Indexer, Memory, peek}
use safely.Indexer.Putting.{fetch, value_at}
use safely.PathParser.{Rules, cut_loop, cut_end, parse_rest, parse_into}
use safely.PathParser.Sizes.{following, slash_if, joined}
use safely.PathParser.Words.{words, ends_apart, is_nil, is_nil-length, window, next_byte, no_bytes}
use safely.PathParser.Splitting.{at_place, scan_at, fetched, cut_loop-words}

-- a piece of a path has no slash in it, and is not empty
abbrev pub NoSlash : ℕ → List ℕ → Type 0
NoSlash slash [] = Unit {0}
NoSlash slash (c ∷ cs) = ((c == slash) ≡ false) × NoSlash slash cs

abbrev pub IsPiece : ℕ → List ℕ → Type 0
IsPiece slash text = NoSlash slash text × (is_nil text ≡ false)

abbrev pub AllPieces : ℕ → List (List ℕ) → Type 0
AllPieces slash [] = Unit {0}
AllPieces slash (text ∷ texts) = IsPiece slash text × AllPieces slash texts

through_piece :
    (slash : ℕ) (w text cs : List ℕ)
    → NoSlash slash text
    → (words slash w (text ++ cs) ≡ words slash (w ++ text) cs)
      × (ends_apart slash w (text ++ cs) ≡ ends_apart slash (w ++ text) cs)
unfolding words ends_apart
through_piece slash w [] cs h = rw (append-nil w) (refl, refl)
through_piece slash w (c ∷ text) cs h =
    let (found, ended) = through_piece slash (w ++ (c ∷ [])) text cs h.1 in
    let longer = append_assoc w (c ∷ []) text in
    rw h.0
      (found ∙ ap (λ v. words slash v cs) longer, ended ∙ ap (λ v. ends_apart slash v cs) longer)

same_slash : (slash : ℕ) → (slash == slash) ≡ true
same_slash slash = ground arith

-- From a word on, the texts that follow it are found, and the slash at the end.
through_following :
    (slash : ℕ) (after : Bool) (w : List ℕ) (texts : List (List ℕ))
    → is_nil w ≡ false
    → AllPieces slash texts
    → let cs = following slash (λ t. t) texts ++ slash_if after slash in
      (words slash w cs ≡ w ∷ texts) × (ends_apart slash w cs ≡ after)
unfolding words ends_apart following
through_following slash true w [] n h = rw (same_slash slash) (rw n (refl, refl))
through_following slash false w [] n h = rw n (refl, refl)
through_following slash after w (text ∷ texts) n h =
    let rest = following slash (λ t. t) texts in
    let trail = slash_if after slash in
    let (found, ended) = through_piece slash [] text (rest ++ trail) h.0.0 in
    let (more, at_last) = through_following slash after text texts h.0.1 h.1 in
    rw (same_slash slash)
      (rw (append_assoc text rest trail) (rw n (ap (λ ws. w ∷ ws) (found ∙ more), ended ∙ at_last)))

-- the same of the whole path, without a slash before it
through_path :
    (slash : ℕ) (after : Bool) (text : List ℕ) (texts : List (List ℕ))
    → AllPieces slash (text ∷ texts)
    → let cs = text ++ (following slash (λ t. t) texts ++ slash_if after slash) in
      (words slash [] cs ≡ text ∷ texts) × (ends_apart slash [] cs ≡ after)
through_path slash after text texts h =
    let cs = following slash (λ t. t) texts ++ slash_if after slash in
    let (found, ended) = through_piece slash [] text cs h.0.0 in
    let (more, at_last) = through_following slash after text texts h.0.1 h.1 in
    (found ∙ more, ended ∙ at_last)

map_through :
    {A B C : Type 0} (f : A → B) (g : B → C) (o : Option A)
    → Option.map (λ a. g (f a)) o ≡ Option.map g (Option.map f o)
map_through f g none = refl
map_through f g (some a) = refl

-- The rest of `parseInto`, from a place at which there is something left or nothing has led.
parse_rest_lem :
    (seperator i left fuel : ℕ) (leads : Bool) (scan : Indexer) (mem : Memory ℕ)
    → i + left ≡ scan.length
    → left < fuel
    → 0 < left
    → scan.length < bad_index
    → scan.buffer + scan.length ≤ length mem
    → let cs = window scan mem i scan.length in
      parse_rest fuel seperator [] leads (scan_at scan i) mem
      ≡ some (
        record { slash = seperator; after = ends_apart seperator [] cs; before = leads },
        words seperator [] cs,
      )
parse_rest_lem seperator i left fuel leads scan mem e q p l k =
    let cs = window scan mem i scan.length in
    let more : Indexer.has_next (scan_at scan i) ≡ true = unfold Indexer.has_next in ground arith in
    let on : (leads && not (Indexer.has_next (scan_at scan i))) ≡ false = rw more (and_not leads) in
    let place : Ordinator.ordinal (record { pointer = i; length = scan.length }) ≡ i =
      unfold Ordinator.ordinal in refl in
    let cutter : Span = record { lowest = i; highest = bad_index } in
    let looped = cut_loop-words seperator left fuel i scan mem cutter [] e q l k (omega arith) in
    let some_bytes : ltb 0 scan.length ≡ true = ground arith in
    let found : Option.map (cut_end mem) (cut_loop seperator fuel mem (at_place scan i cutter []))
        ≡ some (ends_apart seperator [] cs, words seperator [] cs) =
      looped
      ∙ rw (no_bytes scan mem i)
          (rw some_bytes (rw (and_true (ends_apart seperator [] cs)) refl)) in
    let rules : Bool × List (List ℕ) → Rules × List (List ℕ) =
      λ r. (record { slash = seperator; after = r.0; before = leads }, r.1) in
    unfold parse_rest in
    rw on (rw place (map_through (cut_end mem) rules _ ∙ ap (Option.map rules) found))
  where
    and_not : (b : Bool) → (b && not true) ≡ false
    and_not true = refl
    and_not false = refl

    and_true : (b : Bool) → (b && true) ≡ b
    and_true true = refl
    and_true false = refl

peek_first :
    (scan : Indexer) (mem : Memory ℕ)
    → 0 < scan.length
    → (Indexer.has_next (scan_at scan 0) ≡ true)
      × (value_at (peek (scan_at scan 0)) mem ≡ get_or mem scan.buffer 0)
peek_first scan mem h = (unfold Indexer.has_next in ground arith, unfold peek in ground arith)

parse_plain :
    (seperator : ℕ) (scan : Indexer) (mem : Memory ℕ)
    → 0 < scan.length
    → scan.length < bad_index
    → scan.buffer + scan.length ≤ length mem
    → (get_or mem scan.buffer 0 == seperator) ≡ false
    → let cs = window scan mem 0 scan.length in
      parse_into (suc scan.length) seperator [] (scan_at scan 0) mem
      ≡ some (
        record { slash = seperator; after = ends_apart seperator [] cs; before = false },
        words seperator [] cs,
      )
parse_plain seperator scan mem p l k n =
    let (more, first) = peek_first scan mem p in
    unfold parse_into in
    rw more (
      rw first (
        rw n (
          parse_rest_lem seperator 0 scan.length (suc scan.length) false scan mem (omega arith)
            (omega arith) p l k)))

parse_led :
    (seperator : ℕ) (scan : Indexer) (mem : Memory ℕ)
    → 1 < scan.length
    → scan.length < bad_index
    → scan.buffer + scan.length ≤ length mem
    → (get_or mem scan.buffer 0 == seperator) ≡ true
    → let cs = window scan mem 1 scan.length in
      parse_into (suc scan.length) seperator [] (scan_at scan 0) mem
      ≡ some (
        record { slash = seperator; after = ends_apart seperator [] cs; before = true },
        words seperator [] cs,
      )
parse_led seperator scan mem p l k n =
    let (more, first) = peek_first scan mem (omega arith) in
    let passed : (fetch (scan_at scan 0) mem).1 ≡ scan_at scan 1 =
      ap (λ (r : ℕ × Indexer). r.1) (fetched scan mem 0 (omega arith)) in
    unfold parse_into in
    rw more (
      rw first (
        rw n (
          rw passed (
            parse_rest_lem seperator 1 (scan.length - 1) (suc scan.length) true scan mem
              (omega arith) (omega arith) (omega arith) l k))))

first_of_piece :
    (slash : ℕ) (text cs : List ℕ) → IsPiece slash text → (get_or (text ++ cs) 0 0 == slash) ≡ false
first_of_piece slash [] cs h = absurd (ground (arith, h.1))
first_of_piece slash (c ∷ text) cs h = h.0.0

window-size :
    (scan : Indexer) (mem : Memory ℕ)
    → scan.buffer + scan.length ≤ length mem
    → length (window scan mem 0 scan.length) ≡ scan.length
window-size scan mem k = omega (
  arith,
  length-take (scan.length - 0) (drop (scan.buffer + 0) mem),
  length-drop (scan.buffer + 0) mem,
)

-- with what is in the buffer written out
parse_written :
    (slash : ℕ) (after before : Bool) (text : List ℕ) (texts : List (List ℕ)) (scan : Indexer)
    (mem : Memory ℕ)
    → AllPieces slash (text ∷ texts)
    → scan.length < bad_index
    → scan.buffer + scan.length ≤ length mem
    → window scan mem 0 scan.length
      ≡ slash_if before slash ++ (text ++ (following slash (λ t. t) texts ++ slash_if after slash))
    → parse_into (suc scan.length) slash [] (scan_at scan 0) mem
      ≡ some (record { slash = slash; after = after; before = before }, text ∷ texts)
parse_written slash after true text texts scan mem h l k e =
    let rest = following slash (λ t. t) texts ++ slash_if after slash in
    let body = text ++ rest in
    let size = ap (λ (cs : List ℕ). length cs) e in
    let some_text = is_nil-length text in
    let long : 1 < scan.length =
      ground (arith, window-size scan mem k, length-append text rest, size, h.0.1, some_text) in
    let bytes = sym (next_byte scan mem 0 (omega arith) k) ∙ e in
    let at0 : scan.buffer + 0 ≡ scan.buffer = omega arith in
    let first : get_or mem scan.buffer 0 ≡ slash =
      ap (λ a. get_or mem a 0) (sym at0) ∙ ap (λ (cs : List ℕ). get_or cs 0 0) bytes in
    let tail : window scan mem 1 scan.length ≡ body = ap (λ (cs : List ℕ). drop 1 cs) bytes in
    let (found, ended) = through_path slash after text texts h in
    parse_led slash scan mem long l k (rw first (same_slash slash))
    ∙ rw tail (rw found (rw ended refl))
parse_written slash after false text texts scan mem h l k e =
    let rest = following slash (λ t. t) texts ++ slash_if after slash in
    let size = ap (λ (cs : List ℕ). length cs) e in
    let some_text = is_nil-length text in
    let long : 0 < scan.length =
      ground (arith, window-size scan mem k, length-append text rest, size, h.0.1, some_text) in
    let bytes = sym (next_byte scan mem 0 (omega arith) k) ∙ e in
    let at0 : scan.buffer + 0 ≡ scan.buffer = omega arith in
    let first : get_or mem scan.buffer 0 ≡ get_or (text ++ rest) 0 0 =
      ap (λ a. get_or mem a 0) (sym at0) ∙ ap (λ (cs : List ℕ). get_or cs 0 0) bytes in
    let (found, ended) = through_path slash after text texts h in
    parse_plain slash scan mem long l k (rw first (first_of_piece slash text rest h.0))
    ∙ rw e (rw found (rw ended refl))

-- `parseInto` of a buffer that holds the path of some pieces, none of them empty or with a slash in it,
-- gives the pieces, and the rules of the path: whether a slash leads and whether one trails.
pub parse_into-joined :
    (rule : Rules) (text : List ℕ) (texts : List (List ℕ)) (scan : Indexer) (mem : Memory ℕ)
    → AllPieces rule.slash (text ∷ texts)
    → scan.length < bad_index
    → scan.buffer + scan.length ≤ length mem
    → window scan mem 0 scan.length ≡ joined rule (λ t. t) (text ∷ texts)
    → parse_into (suc scan.length) rule.slash [] (scan_at scan 0) mem ≡ some (rule, text ∷ texts)
parse_into-joined rule text texts scan mem h l k e =
    parse_written rule.slash rule.after rule.before text texts scan mem h l k
      (e ∙ (unfold joined in refl))
