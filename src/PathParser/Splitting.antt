-- ===== src/PathParser/Splitting.antt =====
-- system/pathparser.cpp: what `parseInto` finds: the words between the seperators.
use mathlib.Core.Option
use safely.Prelude.{
  ℕ, zero, suc, ◌+◌, ◌-◌, ◌≤◌, ◌<◌, ◌≡◌, refl, ap, ◌∙◌, arith, true, false, ◌&&◌, some, List, [],
  ◌∷◌, ◌++◌, ltb, ◌==◌, if◌then◌else◌, length, get_or, add_u32, sub_u32, append-nil, Bool-cases,
  inl, inr, dec_lt,
}
use safely.Index.{bad_index, add_assign}
use safely.Ordinator
use safely.Span
use safely.Span.{Span}
use safely.Indexer
use safely.Indexer.{Indexer, Memory}
use safely.Indexer.Putting.{fetch, fetch_room}
use safely.PathParser.{Cutting, cut, cut_on, cut_round, cut_loop, cut_end}
use safely.PathParser.Words.{
  is_nil, prepend_full, words, ends_apart, window, window-more, is_nil-window, prepended, next_byte,
  no_bytes,
}

-- the state of the loop at a place, of a word that begins at another
abbrev pub at_place : Indexer → ℕ → Span → List (List ℕ) → Cutting
at_place scan i cutter ps = record {
  scan = record { ord = record { pointer = i; length = scan.length }; buffer = scan.buffer };
  cutter = cutter;
  pieces = ps;
}

abbrev pub scan_at : Indexer → ℕ → Indexer
scan_at scan i = record { ord = record { pointer = i; length = scan.length }; buffer = scan.buffer }

pub fetched :
    (scan : Indexer) (mem : Memory ℕ) (i : ℕ)
    → i < scan.length
    → fetch (scan_at scan i) mem ≡ (get_or mem (scan.buffer + i) 0, scan_at scan (suc i))
fetched scan mem i h =
    let next : i + 1 ≡ suc i = omega arith in fetch_room (scan_at scan i) mem h ∙ rw next refl

extent_to :
    (low i : ℕ)
    → low ≤ i
    → i < bad_index
    → Span.extent (record { lowest = low; highest = i }) ≡ i - low
extent_to low i h k = unfold Span.extent Span.ordered in ground arith

round_fetched :
    (seperator : ℕ) (scan : Indexer) (mem : Memory ℕ) (i : ℕ) (cutter : Span) (ps : List (List ℕ))
    → i < scan.length
    → cut_round seperator mem (at_place scan i cutter ps)
      ≡ cut_on seperator mem
          (at_place scan i cutter ps)
          (get_or mem (scan.buffer + i) 0, scan_at scan (suc i))
round_fetched seperator scan mem i cutter ps h =
    let opened : cut_round seperator mem (at_place scan i cutter ps)
        ≡ cut_on seperator mem (at_place scan i cutter ps) (fetch (scan_at scan i) mem) =
      unfold cut_round in refl in
    opened ∙ ap (λ r. cut_on seperator mem (at_place scan i cutter ps) r) (fetched scan mem i h)

-- One round, by the byte and by whether a word has begun.
round_on :
    (seperator : ℕ) (scan : Indexer) (mem : Memory ℕ) (i : ℕ) (cutter : Span) (ps : List (List ℕ))
    → i < scan.length
    → scan.length < bad_index
    → (get_or mem (scan.buffer + i) 0 == seperator) ≡ false
    → cut_round seperator mem (at_place scan i cutter ps) ≡ at_place scan (suc i) cutter ps
round_on seperator scan mem i cutter ps h l n =
    round_fetched seperator scan mem i cutter ps h ∙ (unfold cut_on in rw n refl)

round_apart :
    (seperator : ℕ) (scan : Indexer) (mem : Memory ℕ) (i : ℕ) (cutter : Span) (ps : List (List ℕ))
    → i < scan.length
    → scan.length < bad_index
    → cutter.lowest ≤ i
    → (get_or mem (scan.buffer + i) 0 == seperator) ≡ true
    → (high : ℕ) × (cut_round seperator mem (at_place scan i cutter ps)
        ≡ at_place scan
            (suc i)
            (record { lowest = suc i; highest = high })
            (if i - cutter.lowest == 0 then ps else ps ++ (window scan mem cutter.lowest i ∷ [])))
round_apart seperator scan mem i cutter ps h l k y =
    let here = round_fetched seperator scan mem i cutter ps h in
    let high : sub_u32 (Ordinator.ordinal (record { pointer = suc i; length = scan.length })) 1
        ≡ i =
      unfold Ordinator.ordinal in ground arith in
    let size = extent_to cutter.lowest i k (omega arith) in
    elim (dec_lt cutter.lowest i) [
      | yes begun ↦
          let full : (i - cutter.lowest == 0) ≡ false = ground arith in
          let test : Span.empty (record { lowest = cutter.lowest; highest = i }) ≡ false =
            unfold Span.empty in rw size full in
          let on : add_u32 i 1 ≡ suc i = ground arith in
          (
            bad_index,
            here
                ∙ rw full (
                    unfold cut_on in
                    rw y (rw high (rw test (unfold cut Span.leapfrog in rw size (rw on refl))))),
          )
      | no fresh ↦
          let nil : (i - cutter.lowest == 0) ≡ true = ground arith in
          let test : Span.empty (record { lowest = cutter.lowest; highest = i }) ≡ true =
            unfold Span.empty in rw size nil in
          let on : add_assign cutter.lowest 1 ≡ suc i = unfold add_assign in ground arith in
          (i, here ∙ rw nil (unfold cut_on in rw y (rw high (rw test (rw on refl)))))
    ]

loop_end :
    (seperator fuel : ℕ) (mem : Memory ℕ) (w : Cutting)
    → Indexer.has_next w.scan ≡ false
    → cut_loop seperator (suc fuel) mem w ≡ some w
unfolding cut_loop
loop_end seperator fuel mem w h = rw h refl

loop_step :
    (seperator fuel : ℕ) (mem : Memory ℕ) (w : Cutting)
    → Indexer.has_next w.scan ≡ true
    → cut_loop seperator (suc fuel) mem w ≡ cut_loop seperator fuel mem (cut_round seperator mem w)
unfolding cut_loop
loop_step seperator fuel mem w h = rw h refl

-- After the loop a word that has begun is taken, and otherwise a seperator was trailing.
ended_lem :
    (scan : Indexer) (mem : Memory ℕ) (cutter : Span) (ps : List (List ℕ))
    → scan.length < bad_index
    → scan.buffer + scan.length ≤ length mem
    → cutter.lowest ≤ scan.length
    → cut_end mem (at_place scan scan.length cutter ps) ≡ (
        let w = window scan mem cutter.lowest scan.length in
        (is_nil w && ltb 0 scan.length, ps ++ prepend_full w []))
ended_lem scan mem cutter ps l k h =
    let n = scan.length in
    let w = window scan mem cutter.lowest n in
    let nil = is_nil-window scan mem cutter.lowest n h k in
    let at_end : Ordinator.ordinal (record { pointer = n; length = n }) ≡ n =
      unfold Ordinator.ordinal in refl in
    let size = extent_to cutter.lowest n h l in
    elim (dec_lt cutter.lowest n) [
      | yes begun ↦
          let inside : Ordinator.contains (record { pointer = n; length = n }) cutter.lowest
              ≡ true =
            unfold Ordinator.contains in ground arith in
          let full : (n - cutter.lowest == 0) ≡ false = ground arith in
          let test : Span.empty (record { lowest = cutter.lowest; highest = n }) ≡ false =
            unfold Span.empty in rw size full in
          let no : is_nil w ≡ false = nil ∙ full in
          rw no (unfold cut_end in rw inside (rw at_end (rw test (unfold cut in rw size refl))))
      | no fresh ↦
          let outside : Ordinator.contains (record { pointer = n; length = n }) cutter.lowest
              ≡ false =
            unfold Ordinator.contains in ground arith in
          let yes_nil : is_nil w ≡ true = nil ∙ ground arith in
          rw yes_nil (rw (append-nil ps) (unfold cut_end in rw outside (rw at_end refl)))
    ]

-- Through the rest of the buffer: the words that are still found, and whether a seperator trails.
pub cut_loop-words :
    (seperator left fuel i : ℕ) (scan : Indexer) (mem : Memory ℕ) (cutter : Span)
    (ps : List (List ℕ))
    → i + left ≡ scan.length
    → left < fuel
    → scan.length < bad_index
    → scan.buffer + scan.length ≤ length mem
    → cutter.lowest ≤ i
    → let w = window scan mem cutter.lowest i in
      let cs = window scan mem i scan.length in
      Option.map (cut_end mem) (cut_loop seperator fuel mem (at_place scan i cutter ps))
      ≡ some (ends_apart seperator w cs && ltb 0 scan.length, ps ++ words seperator w cs)
cut_loop-words seperator left zero i scan mem cutter ps e q l k h = absurd (omega arith)
cut_loop-words seperator zero (suc fuel) i scan mem cutter ps e q l k h =
    let n = scan.length in
    let here : i ≡ n = omega arith in
    let stop : Indexer.has_next (scan_at scan i) ≡ false =
      unfold Indexer.has_next in ground arith in
    let none_left : window scan mem i n ≡ [] = rw here (no_bytes scan mem n) in
    ap (Option.map (cut_end mem)) (loop_end seperator fuel mem (at_place scan i cutter ps) stop)
    ∙ rw none_left (
        rw here (
          ap some (ended_lem scan mem cutter ps l k (omega arith))
          ∙ (unfold words ends_apart in refl)))
cut_loop-words seperator (suc left) (suc fuel) i scan mem cutter ps e q l k h =
    let c = get_or mem (scan.buffer + i) 0 in
    let cs = window scan mem (suc i) scan.length in
    let w = window scan mem cutter.lowest i in
    let more : Indexer.has_next (scan_at scan i) ≡ true = unfold Indexer.has_next in ground arith in
    let step = loop_step seperator fuel mem (at_place scan i cutter ps) more in
    let bytes = next_byte scan mem i (omega arith) k in
    elim (Bool-cases (c == seperator)) [
      | inl apart ↦
          let (high, round) = round_apart seperator scan mem i cutter ps (omega arith) l h apart in
          let ps' = if i - cutter.lowest == 0 then ps else ps ++ (w ∷ []) in
          let rest =
            cut_loop-words seperator left fuel (suc i) scan mem
              (record { lowest = suc i; highest = high }) ps' (omega arith) (omega arith) l k
              (omega arith) in
          let nil = is_nil-window scan mem cutter.lowest i h (omega arith) in
          let found = prepended (i - cutter.lowest == 0) ps w (words seperator [] cs) nil in
          let opened : (words seperator w (c ∷ cs) ≡ prepend_full w (words seperator [] cs))
              × (ends_apart seperator w (c ∷ cs) ≡ ends_apart seperator [] cs) =
            unfold words ends_apart in rw apart (refl, refl) in
          ap (Option.map (cut_end mem)) (step ∙ ap (λ v. cut_loop seperator fuel mem v) round)
          ∙ rest
          ∙ rw (no_bytes scan mem (suc i)) (rw bytes (rw opened.0 (rw opened.1 (rw found refl))))
      | inr on ↦
          let round = round_on seperator scan mem i cutter ps (omega arith) l on in
          let rest =
            cut_loop-words seperator left fuel (suc i) scan mem cutter ps (omega arith)
              (omega arith) l k (omega arith) in
          let longer = window-more scan mem cutter.lowest i h (omega arith) in
          let opened : (words seperator w (c ∷ cs) ≡ words seperator (w ++ (c ∷ [])) cs)
              × (ends_apart seperator w (c ∷ cs) ≡ ends_apart seperator (w ++ (c ∷ [])) cs) =
            unfold words ends_apart in rw on (refl, refl) in
          ap (Option.map (cut_end mem)) (step ∙ ap (λ v. cut_loop seperator fuel mem v) round)
          ∙ rest
          ∙ rw longer (rw bytes (rw opened.0 (rw opened.1 refl)))
    ]
