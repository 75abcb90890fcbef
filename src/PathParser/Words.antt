-- ===== src/PathParser/Words.antt =====
-- system/pathparser.cpp: the words of a text, and the bytes of a buffer between two places.
use safely.Prelude.{
  ℕ, zero, suc, ◌+◌, ◌-◌, ◌≤◌, ◌<◌, ◌≡◌, refl, ap, ◌∙◌, arith, Bool, true, false, List, [], ◌∷◌,
  ◌++◌, ◌==◌, if◌then◌else◌, length, get_or, take, drop, drop-get_or, append_assoc, length-take,
  length-drop,
}
use safely.Indexer.{Indexer, Memory}

abbrev pub is_nil : List ℕ → Bool
is_nil [] = true
is_nil (c ∷ cs) = false

abbrev pub prepend_full : List ℕ → List (List ℕ) → List (List ℕ)
prepend_full w ws = if is_nil w then ws else w ∷ ws

-- the words of a text that are not empty, where a word has begun
unfoldable pub words : ℕ → List ℕ → List ℕ → List (List ℕ)
words seperator w [] = prepend_full w []
words seperator w (c ∷ cs) =
    let apart = words seperator [] cs in
    let on = words seperator (w ++ (c ∷ [])) cs in
    if c == seperator then prepend_full w apart else on

-- whether the text ends where no word has begun
unfoldable pub ends_apart : ℕ → List ℕ → List ℕ → Bool
ends_apart seperator w [] = is_nil w
ends_apart seperator w (c ∷ cs) =
    let apart = ends_apart seperator [] cs in
    let on = ends_apart seperator (w ++ (c ∷ [])) cs in if c == seperator then apart else on

-- the bytes of a buffer between two places
abbrev pub window : Indexer → Memory ℕ → ℕ → ℕ → List ℕ
window scan mem low high = take (high - low) (drop (scan.buffer + low) mem)

take-more :
    (n b i : ℕ) (mem : List ℕ)
    → i ≡ b + n
    → i < length mem
    → take (suc n) (drop b mem) ≡ take n (drop b mem) ++ (get_or mem i 0 ∷ [])
take-more n b i [] e h = absurd (omega arith)
take-more zero zero zero (x ∷ xs) e h = refl
take-more (suc n) zero (suc i) (x ∷ xs) e h =
    ap (λ r. x ∷ r) (take-more n zero i xs (omega arith) (omega arith))
take-more n (suc b) (suc i) (x ∷ xs) e h = take-more n b i xs (omega arith) (omega arith)
take-more zero zero (suc i) (x ∷ xs) e h = absurd (omega arith)
take-more (suc n) zero zero (x ∷ xs) e h = absurd (omega arith)
take-more n (suc b) zero (x ∷ xs) e h = absurd (omega arith)

pub window-more :
    (scan : Indexer) (mem : Memory ℕ) (low i : ℕ)
    → low ≤ i
    → scan.buffer + i < length mem
    → window scan mem low (suc i) ≡ window scan mem low i ++ (get_or mem (scan.buffer + i) 0 ∷ [])
window-more scan mem low i h k =
    let more : suc i - low ≡ suc (i - low) = omega arith in
    rw more (take-more (i - low) (scan.buffer + low) (scan.buffer + i) mem (omega arith) k)

pub is_nil-length : (w : List ℕ) → is_nil w ≡ (length w == 0)
is_nil-length [] = refl
is_nil-length (c ∷ cs) = ground arith

pub is_nil-window :
    (scan : Indexer) (mem : Memory ℕ) (low i : ℕ)
    → low ≤ i
    → scan.buffer + i ≤ length mem
    → is_nil (window scan mem low i) ≡ (i - low == 0)
is_nil-window scan mem low i h k =
    let start = drop (scan.buffer + low) mem in
    let size : length (take (i - low) start) ≡ i - low =
      omega (arith, length-take (i - low) start, length-drop (scan.buffer + low) mem) in
    is_nil-length (take (i - low) start) ∙ ap (λ n. n == 0) size

pub prepended :
    (b : Bool) (ps : List (List ℕ)) (w : List ℕ) (ws : List (List ℕ))
    → is_nil w ≡ b
    → (if b then ps else ps ++ (w ∷ [])) ++ ws ≡ ps ++ prepend_full w ws
prepended true ps w ws h = rw h refl
prepended false ps w ws h = rw h (append_assoc ps (w ∷ []) ws)

pub next_byte :
    (scan : Indexer) (mem : Memory ℕ) (i : ℕ)
    → i < scan.length
    → scan.buffer + scan.length ≤ length mem
    → window scan mem i scan.length
      ≡ get_or mem (scan.buffer + i) 0 ∷ window scan mem (suc i) scan.length
next_byte scan mem i h k =
    let more : scan.length - i ≡ suc (scan.length - suc i) = omega arith in
    let ahead : scan.buffer + suc i ≡ suc (scan.buffer + i) = omega arith in
    rw more (rw ahead (rw (drop-get_or mem (scan.buffer + i) 0 (omega arith)) refl))

pub no_bytes : (scan : Indexer) (mem : Memory ℕ) (i : ℕ) → window scan mem i i ≡ []
no_bytes scan mem i = let none_left : i - i ≡ 0 = omega arith in rw none_left refl
