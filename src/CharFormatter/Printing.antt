-- ===== src/CharFormatter/Printing.antt =====
-- cppext/charformatter.cpp: the digits that `printUnsigned` and `printAtWidth` put.
use native.Mathlib.Nat.{mod-lt, div-add-mod, div-add-mod', div-lt_iff_lt-mul, mod-le}
use safely.MiniMath.Laws.{i32_pow10-eq}
use safely.Prelude.{
  ℕ, zero, suc, ◌+◌, ◌-◌, ◌*◌, ◌/◌, ◌%◌, ◌^◌, ◌≤◌, ◌<◌, ◌≡◌, refl, sym, ap, ◌∙◌, arith, Bool, true,
  false, List, [], ◌∷◌, leb, if◌then◌else◌, u32_mod, length, dec_le, dec_lt, set, sub_u32,
}
use safely.Ordinator
use safely.Indexer
use safely.Indexer.Writing.{overwrite}
use safely.Indexer.Contents.{Fits}
use safely.CharScanner.Bytes.{still_has_enough, still_has_short}
use safely.Indexer.{Indexer, Memory}
use safely.Indexer.Putting.{put, put_all, put_all_room, put_room, moved}
use safely.MiniMath.{i32_pow10, revolutions}
use safely.NumberParser.Digits.{AllDigits, decimal}
use safely.CharFormatter.{
  print_char, print_digit, digit_char, unsigned_loop, width_loop, digits_above,
}

-- With room a character is put, and that is told.
pub print_char_room :
    (ch : ℕ) (ix : Indexer) (mem : Memory ℕ)
    → ix.pointer < ix.length
    → print_char ch ix mem ≡ ((put ch ix mem).0, (put ch ix mem).1, true)
print_char_room ch ix mem h =
    let room : Indexer.has_next ix ≡ true = unfold Indexer.has_next in ground arith in
    unfold print_char in rw room refl

pub print_digit_room :
    (d : ℕ) (ix : Indexer) (mem : Memory ℕ)
    → ix.pointer < ix.length
    → print_digit d ix mem ≡ (set mem (ix.buffer + ix.pointer) (digit_char d), moved 1 ix, true)
unfolding print_digit
print_digit_room d ix mem h =
    print_char_room (digit_char d) ix mem h
    ∙ ap (λ (r : Memory ℕ × Indexer). (r.0, r.1, true)) (put_room (digit_char d) ix mem h)

-- the digits of a number, a count of them
unfoldable pub numeral : ℕ → ℕ → List ℕ
numeral zero value = []
numeral (suc n) value = digit_char (value / 10 ^ n) ∷ numeral n (value % 10 ^ n)

pub length-numeral : (n value : ℕ) → length (numeral n value) ≡ n
unfolding numeral
length-numeral zero value = refl
length-numeral (suc n) value = ap suc (length-numeral n (value % 10 ^ n))

tenfold : (n : ℕ) → 10 ^ suc n ≡ 10 * 10 ^ n
tenfold n = grind arith

pub pow10_positive : (n : ℕ) → 0 < 10 ^ n
pow10_positive zero = omega arith
pow10_positive (suc n) = omega (arith, tenfold n, pow10_positive n)

pub leading : (n value : ℕ) → value < 10 ^ suc n → value / 10 ^ n < 10
leading n value h = (div-lt_iff_lt-mul (pow10_positive n)).1 (omega (arith, tenfold n))

-- Digits of a number that is less than the power of ten for their count are digits, and make the number.
pub numeral-AllDigits : (n value : ℕ) → value < 10 ^ n → AllDigits (numeral n value)
unfolding numeral
numeral-AllDigits zero value h = ground arith
numeral-AllDigits (suc n) value h =
    let d = leading n value h in
    (ground arith, numeral-AllDigits n (value % 10 ^ n) (mod-lt value (pow10_positive n)))

regroup : (acc d p : ℕ) → (acc * 10 + d) * p ≡ acc * (10 * p) + p * d
regroup acc d p = grind arith

pub decimal-numeral :
    (n value acc : ℕ) → value < 10 ^ n → decimal acc (numeral n value) ≡ acc * 10 ^ n + value
unfolding numeral
decimal-numeral zero value acc h = omega arith
decimal-numeral (suc n) value acc h =
    let d = value / 10 ^ n in
    let less = leading n value h in
    let shown : digit_char d - b'0' ≡ d = ground arith in
    ap (λ x. decimal (acc * 10 + x) (numeral n (value % 10 ^ n))) shown
    ∙ decimal-numeral n (value % 10 ^ n) (acc * 10 + d) (mod-lt value (pow10_positive n))
    ∙ (let more = regroup acc d (10 ^ n) in
        let power = ap (λ t. acc * t) (tenfold n) in
        omega (arith, more, power, div-add-mod value (10 ^ n)))

-- The loops of `printUnsigned` and `printAtWidth` put these digits.
pub unsigned_loop-put_all :
    (n value : ℕ) (ix : Indexer) (mem : Memory ℕ)
    → n ≤ 10
    → ix.pointer + n ≤ ix.length
    → unsigned_loop n value ix mem ≡ put_all (numeral n value) ix mem
unfolding unsigned_loop put_all numeral
unsigned_loop-put_all zero value ix mem h k = refl
unsigned_loop-put_all (suc n) value ix mem h k =
    let d = value / 10 ^ n in
    let rest = value % 10 ^ n in
    let split : revolutions value (i32_pow10 n) ≡ (d, rest) =
      rw (i32_pow10-eq n (omega arith)) (unfold revolutions in ground (arith, pow10_positive n)) in
    let a = ix.buffer + ix.pointer in
    ap (λ (r : ℕ × ℕ). let (m, i, told) = print_digit r.0 ix mem in unsigned_loop n r.1 i m) split
    ∙ ap (λ (r : Memory ℕ × Indexer × Bool). unsigned_loop n rest r.1 r.0)
        (print_digit_room d ix mem (omega arith))
    ∙ unsigned_loop-put_all n rest (moved 1 ix) (set mem a (digit_char d)) (omega arith)
        (omega arith)
    ∙ sym (
        ap (λ (r : Memory ℕ × Indexer). put_all (numeral n rest) r.1 r.0)
          (put_room (digit_char d) ix mem (omega arith)))

pub width_loop-put_all :
    (n value : ℕ) (ix : Indexer) (mem : Memory ℕ)
    → n ≤ 10
    → value < u32_mod
    → ix.pointer + n ≤ ix.length
    → width_loop n value ix mem ≡ put_all (numeral n value) ix mem
unfolding width_loop put_all numeral
width_loop-put_all zero value ix mem h w k = refl
width_loop-put_all (suc n) value ix mem h w k =
    let d = value / 10 ^ n in
    let rest = value % 10 ^ n in
    let split : digits_above value n ≡ (d, rest) =
      unfold digits_above in
      rw (i32_pow10-eq n (omega arith)) (
        let left : sub_u32 value (d * 10 ^ n % u32_mod) ≡ rest =
          omega (arith, div-add-mod' value (10 ^ n)) in
        rw left refl) in
    let a = ix.buffer + ix.pointer in
    ap (λ (r : ℕ × ℕ). let (m, i, told) = print_digit r.0 ix mem in width_loop n r.1 i m) split
    ∙ ap (λ (r : Memory ℕ × Indexer × Bool). width_loop n rest r.1 r.0)
        (print_digit_room d ix mem (omega arith))
    ∙ width_loop-put_all n rest (moved 1 ix) (set mem a (digit_char d)) (omega arith)
        (omega (arith, mod-le value (10 ^ n))) (omega arith)
    ∙ sym (
        ap (λ (r : Memory ℕ × Indexer). put_all (numeral n rest) r.1 r.0)
          (put_room (digit_char d) ix mem (omega arith)))

-- the memory, the indexer and the result of printing some characters
abbrev pub printed : List ℕ → Indexer → Memory ℕ → Memory ℕ × Indexer × Bool
printed ds ix mem =
    if leb (length ds) (ix.length - ix.pointer)
    then (overwrite mem (ix.buffer + ix.pointer) ds, moved (length ds) ix, true)
    else (mem, ix, false)

-- A loop that puts some characters, guarded by the test for their number, prints them or nothing.
pub printed_loop :
    (ds : List ℕ) {n : ℕ} {loop : Memory ℕ × Indexer} {ix : Indexer}
    → length ds ≡ n
    → (mem : Memory ℕ) → Fits ix mem
    → (ix.pointer + n ≤ ix.length → loop ≡ put_all ds ix mem)
    → (if Ordinator.still_has ix.ord n then (loop.0, loop.1, true) else (mem, ix, false))
      ≡ printed ds ix mem
printed_loop ds {n} {loop} {ix} size mem f puts = elim (dec_le (ix.pointer + n) ix.length) [
  | yes room ↦
      let e : leb (length ds) (ix.length - ix.pointer) ≡ true = ground arith in
      rw e (
        rw (still_has_enough n mem f room) (
          ap (λ (r : Memory ℕ × Indexer). (r.0, r.1, true))
            (puts room ∙ put_all_room ds ix mem (omega arith))))
  | no full ↦
      let e : leb (length ds) (ix.length - ix.pointer) ≡ false = ground arith in
      rw e (rw (still_has_short n mem f (omega arith)) refl)
]

pub print_char_lem :
    (ch : ℕ) {ix : Indexer} (mem : Memory ℕ)
    → Fits ix mem
    → print_char ch ix mem ≡ printed (ch ∷ []) ix mem
print_char_lem ch {ix} mem f = elim (dec_lt ix.pointer ix.length) [
  | yes room ↦
      let e : leb 1 (ix.length - ix.pointer) ≡ true = ground arith in
      let one : ((put ch ix mem).0, (put ch ix mem).1) ≡ put_all (ch ∷ []) ix mem =
        unfold put_all in refl in
      rw e (
        print_char_room ch ix mem room
        ∙ ap (λ (r : Memory ℕ × Indexer). (r.0, r.1, true))
            (one ∙ put_all_room (ch ∷ []) ix mem (omega arith)))
  | no full ↦
      let e : leb 1 (ix.length - ix.pointer) ≡ false = ground arith in
      let ended : Indexer.has_next ix ≡ false = unfold Indexer.has_next in ground arith in
      rw e (unfold print_char in rw ended refl)
]
