-- ===== src/CharFormatter/Fields.antt =====
-- cppext/charformatter.cpp: `printChar` of a run, `printAtWidth`, `printHex` and `printString`.
use native.Mathlib.Nat.{pow-le-pow_right, mul-le-mul_left, mul-le-mul_right}
use safely.Prelude.{
  ℕ, zero, suc, ◌+◌, ◌-◌, ◌*◌, ◌/◌, ◌%◌, ◌^◌, ◌≤◌, ◌<◌, ◌≡◌, refl, sym, ap, ◌∙◌, arith, Bool, true,
  false, List, [], ◌∷◌, leb, u32_mod, subst, length, take, drop, length-take, replicate,
  length-replicate, set,
}
use safely.Indexer
use safely.Indexer.{Indexer, Memory}
use safely.Indexer.Writing.{overwrite}
use safely.Indexer.Contents.{Fits}
use safely.Indexer.Putting.{put_all, put_all_room, put_room, moved}
use safely.CharScanner.Bytes.{take-drop-overwrite}
use safely.Prelude.Int.{pos}
use safely.TransactionalBuffer.Laws.{commit-make}
use safely.Prelude.Bits.{or_apart, twice_pow, pow_positive, mod_split}
use safely.Unescaper.{append_hex, hex_digit}
use safely.Unescaper.Laws.{hex_digit-hex_nibble}
use safely.Utf8.{hex_nibble}
use safely.CharFormatter.{
  print_char, print_loop, print_chars, digit_char, hex_loop, print_hex, string_loop, print_string,
}
use safely.CharFormatter.Printing.{printed, printed_loop, print_char_room, print_digit_room}

print_loop-put_all :
    (ch n : ℕ) (ix : Indexer) (mem : Memory ℕ)
    → ix.pointer + n ≤ ix.length
    → print_loop ch n ix mem ≡ put_all (replicate n ch) ix mem
unfolding print_loop put_all
print_loop-put_all ch zero ix mem h = refl
print_loop-put_all ch (suc n) ix mem h =
    let room : Indexer.has_next ix ≡ true = unfold Indexer.has_next in ground arith in
    let a = ix.buffer + ix.pointer in
    rw room (
      ap (λ (r : Memory ℕ × Indexer). print_loop ch n r.1 r.0) (put_room ch ix mem (omega arith))
      ∙ print_loop-put_all ch n (moved 1 ix) (set mem a ch) (omega arith)
      ∙ sym (
          ap (λ (r : Memory ℕ × Indexer). put_all (replicate n ch) r.1 r.0)
            (put_room ch ix mem (omega arith))))

-- A run of a character is printed where there is room for all of it.
pub print_chars_lem :
    (ch n : ℕ) {ix : Indexer} (mem : Memory ℕ)
    → Fits ix mem
    → print_chars ch n ix mem ≡ printed (replicate n ch) ix mem
unfolding print_chars
print_chars_lem ch n {ix} mem f =
    printed_loop (replicate n ch) (length-replicate n ch) mem f (print_loop-put_all ch n ix mem)

-- the digits of a number in base sixteen, a count of them
unfoldable pub hexes : ℕ → ℕ → List ℕ
hexes zero value = []
hexes (suc width) value = digit_char (value / 2 ^ (4 * width) % 16) ∷ hexes width value

length-hexes : (width value : ℕ) → length (hexes width value) ≡ width
unfolding hexes
length-hexes zero value = refl
length-hexes (suc width) value = ap suc (length-hexes width value)

hex_loop-put_all :
    (width value : ℕ) (ix : Indexer) (mem : Memory ℕ)
    → ix.pointer + width ≤ ix.length
    → hex_loop width value ix mem ≡ put_all (hexes width value) ix mem
unfolding hex_loop put_all hexes
hex_loop-put_all zero value ix mem h = refl
hex_loop-put_all (suc width) value ix mem h =
    let d = value / 2 ^ (4 * width) % 16 in
    let a = ix.buffer + ix.pointer in
    ap (λ (r : Memory ℕ × Indexer × Bool). hex_loop width value r.1 r.0)
      (print_digit_room d ix mem (omega arith))
    ∙ hex_loop-put_all width value (moved 1 ix) (set mem a (digit_char d)) (omega arith)
    ∙ sym (
        ap (λ (r : Memory ℕ × Indexer). put_all (hexes width value) r.1 r.0)
          (put_room (digit_char d) ix mem (omega arith)))

print_hex_lem :
    (value width : ℕ) {ix : Indexer} (mem : Memory ℕ)
    → Fits ix mem
    → print_hex value width ix mem ≡ printed (hexes width value) ix mem
unfolding print_hex
print_hex_lem value width {ix} mem f =
    printed_loop (hexes width value) (length-hexes width value) mem f
      (hex_loop-put_all width value ix mem)

-- as many characters as there is room for, k of them
string_loop_lem :
    (s : List ℕ) (k : ℕ) (ix : Indexer) (mem : Memory ℕ)
    → ix.pointer + k ≡ ix.length
    → string_loop s ix mem ≡ put_all (take k s) ix mem
unfolding string_loop put_all
string_loop_lem [] zero ix mem h = refl
string_loop_lem [] (suc k) ix mem h = refl
string_loop_lem (c ∷ cs) zero ix mem h =
    let ended : Indexer.has_next ix ≡ false = unfold Indexer.has_next in ground arith in
    let stopped : print_char c ix mem ≡ (mem, ix, false) = unfold print_char in rw ended refl in
    rw stopped refl
string_loop_lem (c ∷ cs) (suc k) ix mem h =
    let a = ix.buffer + ix.pointer in
    let wrote = put_room c ix mem (omega arith) in
    rw (print_char_room c ix mem (omega arith)) (
      ap (λ (r : Memory ℕ × Indexer). string_loop cs r.1 r.0) wrote
      ∙ string_loop_lem cs k (moved 1 ix) (set mem a c) (omega arith)
      ∙ sym (ap (λ (r : Memory ℕ × Indexer). put_all (take k cs) r.1 r.0) wrote))

-- `printString` prints the characters that there is room for, and tells of success even where it leaves
-- others out: the buffer that it watches is a copy.
pub print_string_lem :
    (s : List ℕ) {ix : Indexer} (mem : Memory ℕ)
    → Fits ix mem
    → let kept = take (ix.length - ix.pointer) s in
      print_string s ix mem
      ≡ (overwrite mem (ix.buffer + ix.pointer) kept, moved (length kept) ix, true)
unfolding print_string
print_string_lem s {ix} mem f =
    let room = ix.length - ix.pointer in
    let told = commit-make (Indexer.clipped ix (pos 0)) in
    let put =
      string_loop_lem s room ix mem (omega arith)
      ∙ put_all_room (take room s) ix mem (omega (arith, length-take room s)) in
    rw told (ap (λ (r : Memory ℕ × Indexer). (r.0, r.1, true)) put)

-- the number that hexadecimal digits make of an accumulator, as `Char::hexDigit(uch)` adds them
unfoldable pub hex_value : ℕ → List ℕ → ℕ
unfolding append_hex
hex_value uch [] = uch
hex_value uch (c ∷ cs) = hex_value (append_hex c uch) cs

hex_digit-digit_char : (d : ℕ) → d < 16 → hex_digit (digit_char d) ≡ d
hex_digit-digit_char d h =
    let same : digit_char d ≡ hex_nibble d 0 = unfold hex_nibble in ground arith in
    rw same (hex_digit-hex_nibble d 0 ∙ omega arith)

append_hex_lem : (d uch : ℕ) → d < 16 → uch < 2 ^ 28 → append_hex (digit_char d) uch ≡ uch * 16 + d
append_hex_lem d uch h k =
    let fits : uch * 16 % u32_mod ≡ uch * 2 ^ 4 = omega arith in
    unfold append_hex in
    rw (hex_digit-digit_char d h) (rw fits (or_apart 4 32 uch d h (omega arith)))

sixteenfold : (width : ℕ) → 2 ^ (4 * suc width) ≡ 16 * 2 ^ (4 * width)
sixteenfold width =
    let e : 4 * suc width ≡ suc (suc (suc (suc (4 * width)))) = omega arith in
    let p = 4 * width in
    rw e (
      omega (
        arith,
        twice_pow (suc (suc (suc p))),
        twice_pow (suc (suc p)),
        twice_pow (suc p),
        twice_pow p,
      ))

hex_regroup : (uch d r p : ℕ) → (uch * 16 + d) * p + r ≡ uch * (16 * p) + (d * p + r)
hex_regroup uch d r p = grind arith

hex_bound :
    (uch d p : ℕ)
    → d < 16
    → 0 < p
    → (uch + 1) * (16 * p) ≤ u32_mod
    → (uch * 16 + d + 1) * p ≤ u32_mod
hex_bound uch d p h k b =
    let digit : (uch * 16 + d + 1) * p ≤ (uch + 1) * 16 * p = mul-le-mul_right p (omega arith) in
    let same : (uch + 1) * 16 * p ≡ (uch + 1) * (16 * p) = grind arith in omega arith

hex_small : (uch p : ℕ) → 0 < p → (uch + 1) * (16 * p) ≤ u32_mod → uch < 2 ^ 28
hex_small uch p k b =
    let most : (uch + 1) * 16 ≤ (uch + 1) * (16 * p) = mul-le-mul_left (uch + 1) (omega arith) in
    omega arith

hex_value_from :
    (width value uch : ℕ)
    → (uch + 1) * 2 ^ (4 * width) ≤ u32_mod
    → hex_value uch (hexes width value) ≡ uch * 2 ^ (4 * width) + value % 2 ^ (4 * width)
unfolding hex_value hexes
hex_value_from zero value uch h = omega arith
hex_value_from (suc width) value uch h =
    let p = 2 ^ (4 * width) in
    let d = value / p % 16 in
    let bound : (uch + 1) * (16 * p) ≤ u32_mod =
      subst (λ m. (uch + 1) * m ≤ u32_mod) (sixteenfold width) h in
    let less : d < 16 = omega arith in
    let positive = pow_positive (4 * width) in
    ap (λ u. hex_value u (hexes width value))
      (append_hex_lem d uch less (hex_small uch p positive bound))
    ∙ hex_value_from width value (uch * 16 + d) (hex_bound uch d p less positive bound)
    ∙ hex_regroup uch d (value % p) p
    ∙ ap (λ r. uch * (16 * p) + r) (sym (mod_split value p positive))
    ∙ ap (λ m. uch * m + value % m) (sym (sixteenfold width))

-- The digits of a number make, digit by digit, the number modulo sixteen to the width, which
-- is eight at most.
hex_value-hexes :
    (width value : ℕ) → width ≤ 8 → hex_value 0 (hexes width value) ≡ value % 2 ^ (4 * width)
hex_value-hexes width value h =
    let most : 2 ^ (4 * width) ≤ 2 ^ 32 = pow-le-pow_right (omega arith) {j = 32} (omega arith) in
    hex_value_from width value 0 (omega (arith, most)) ∙ omega arith

-- `printHex` at a width of eight or less, where there is room for that many, prints so many digits, and
-- `Char::hexDigit` makes of them the number modulo sixteen to the width.
pub print_hex-hex_value :
    (value width : ℕ) {ix : Indexer} (mem : Memory ℕ)
    → Fits ix mem
    → width ≤ 8
    → ix.pointer + width ≤ ix.length
    → let (mem', ix', told) = print_hex value width ix mem in
      (told ≡ true)
      × (ix' ≡ moved width ix)
      × (hex_value 0 (take width (drop (ix.buffer + ix.pointer) mem')) ≡ value % 2 ^ (4 * width))
print_hex-hex_value value width {ix} mem f h k =
    let a = ix.buffer + ix.pointer in
    let ds = hexes width value in
    let size = length-hexes width value in
    let room : leb (length ds) (ix.length - ix.pointer) ≡ true = ground (arith, size) in
    let shows : print_hex value width ix mem ≡ (overwrite mem a ds, moved width ix, true) =
      print_hex_lem value width mem f ∙ rw room (rw size refl) in
    let there : take width (drop a (overwrite mem a ds)) ≡ ds =
      ap (λ n. take n (drop a (overwrite mem a ds))) (sym size)
      ∙ take-drop-overwrite mem a ds (omega (arith, size, f.inside)) in
    rw shows (refl, refl, ap (hex_value 0) there ∙ hex_value-hexes width value h)
