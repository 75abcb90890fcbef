-- ===== src/CharFormatter/Unsigned.antt =====
-- cppext/charformatter.cpp: `printUnsigned` and `printSigned`, and the number parser on what they print.
use native.Mathlib.Nat.{pow-le-pow_right, le-div_iff_mul-le}
use safely.Prelude.{
  ℕ, suc, ◌+◌, ◌/◌, ◌%◌, ◌^◌, ◌≤◌, ◌<◌, ◌≡◌, ◌≢◌, refl, ap, ◌∙◌, arith, true, false, List, [], ◌∷◌,
  ◌==◌, if◌then◌else◌, u32_mod, length, ℕ_discrete, dec_lt, subst,
}
use safely.Prelude.Int.{ℤ, pos, negsuc, ◌+ℤ◌, pos_part}
use safely.Indexer.{Indexer, Memory}
use safely.Indexer.Contents.{Fits}
use safely.MiniMath.{ilog10_u32}
use safely.MiniMath.Laws.{ilog10_u32-IsLog10, IsLog10}
use safely.NumberParser.Digits.{AllDigits, decimal}
use safely.CharFormatter.{print_unsigned, digit_char, digits_for}
use safely.CharFormatter.Printing.{
  printed, printed_loop, print_char_lem, numeral, length-numeral, leading, pow10_positive,
  numeral-AllDigits, decimal-numeral, unsigned_loop-put_all,
}

-- the numeral of a value: digits, of which the first is not zero unless it is the only one
pub record IsNumeral (value : ℕ) (ds : List ℕ) : Type 0 where
  pub digits : AllDigits ds
  pub makes : decimal 0 ds ≡ value
  pub short : length ds ≤ 10
  pub first : (c : ℕ) × (cs : List ℕ) × (ds ≡ c ∷ cs) × ((c ≡ b'0') → cs ≡ [])

-- the digits that `printUnsigned` prints
unfoldable pub shown : ℕ → List ℕ
shown value = if value == 0 then b'0' ∷ [] else numeral (digits_for value) value

-- what is known of the logarithm of a value that is not zero
abbrev pub DigitsFor : ℕ → ℕ → Type 0
DigitsFor value digits =
    (n : ℕ) × (digits ≡ suc n) × (10 ^ n ≤ value) × (value < 10 ^ suc n) × (n < 10)

digits_of_log :
    (value : ℕ) (log : ℤ)
    → 0 < value
    → value < u32_mod
    → IsLog10 value log
    → DigitsFor value (pos_part (log +ℤ pos 1))
digits_of_log value (negsuc n) h k l = absurd (omega arith)
digits_of_log value (pos log) h k (low, high) =
    let next : log + 1 ≡ suc log = omega arith in
    let small : log < 10 = elim (dec_lt log 10) [
      | yes less ↦ less
      | no more ↦
          let ten : 10 ^ 10 ≤ 10 ^ log = pow-le-pow_right (omega arith) {i = 10} (omega arith) in
          absurd (omega (arith, ten))
    ] in
    (log, (unfold ◌+ℤ◌ in ground arith), low, subst (λ m. value < 10 ^ m) next high, small)

pub digits_for_lem : (value : ℕ) → 0 < value → value < u32_mod → DigitsFor value (digits_for value)
digits_for_lem value h k = digits_of_log value (ilog10_u32 value) h k (ilog10_u32-IsLog10 value k)

numeral-IsNumeral :
    (n value : ℕ)
    → 10 ^ n ≤ value
    → value < 10 ^ suc n
    → n < 10
    → IsNumeral value (numeral (suc n) value)
numeral-IsNumeral n value low high k = record {
  digits = numeral-AllDigits (suc n) value high;
  makes = decimal-numeral (suc n) value 0 high ∙ omega arith;
  short = omega (arith, length-numeral (suc n) value);
  first =
      let d = value / 10 ^ n in
      let least : 1 ≤ d = (le-div_iff_mul-le (pow10_positive n)).1 (omega arith) in
      let most = leading n value high in
      let same : numeral (suc n) value ≡ digit_char d ∷ numeral n (value % 10 ^ n) =
        unfold numeral in refl in
      (digit_char d, numeral n (value % 10 ^ n), same, λ z. absurd (ground arith));
}

shown_positive :
    (value : ℕ) {n : ℕ} → digits_for value ≡ n → value ≢ 0 → shown value ≡ numeral n value
unfolding shown
shown_positive value {n} count nz =
    let no_zero : (value == 0) ≡ false = ground arith in
    rw no_zero (ap (λ k. numeral k value) count)

-- What `printUnsigned` prints is the numeral of the value.
pub shown-IsNumeral : (value : ℕ) → value < u32_mod → IsNumeral value (shown value)
shown-IsNumeral value h = elim (ℕ_discrete value 0) [
  | yes z ↦
      let e : shown value ≡ b'0' ∷ [] = unfold shown in ground arith in
      rw e (record {
        digits = ground arith;
        makes = omega arith;
        short = omega arith;
        first = (b'0', [], refl, λ _. refl);
      })
  | no nz ↦
      let (n, count, low, high, small) = digits_for_lem value (omega arith) h in
      let e : shown value ≡ numeral (suc n) value = shown_positive value count nz in
      rw e (numeral-IsNumeral n value low high small)
]

print_zero :
    (value : ℕ) {ix : Indexer} (mem : Memory ℕ)
    → Fits ix mem
    → value ≡ 0
    → print_unsigned value ix mem ≡ printed (shown value) ix mem
print_zero value {ix} mem f z =
    let digits : shown value ≡ b'0' ∷ [] = unfold shown in ground arith in
    let test : (value == 0) ≡ true = ground arith in
    rw digits (unfold print_unsigned in rw test (print_char_lem b'0' mem f))

print_positive :
    (value : ℕ) {ix : Indexer} (mem : Memory ℕ) {n : ℕ}
    → Fits ix mem
    → value ≢ 0
    → digits_for value ≡ n
    → n ≤ 10
    → print_unsigned value ix mem ≡ printed (shown value) ix mem
print_positive value {ix} mem {n} f nz count small =
    let test : (value == 0) ≡ false = ground arith in
    rw (shown_positive value count nz) (
      unfold print_unsigned in
      rw test (
        rw count (
          printed_loop (numeral n value) (length-numeral n value) mem f
            (λ room. unsigned_loop-put_all n value ix mem small room))))

pub print_unsigned_lem :
    (value : ℕ) {ix : Indexer} (mem : Memory ℕ)
    → Fits ix mem
    → value < u32_mod
    → print_unsigned value ix mem ≡ printed (shown value) ix mem
print_unsigned_lem value {ix} mem f h = elim (ℕ_discrete value 0) [
  | yes z ↦ print_zero value mem f z
  | no nz ↦
      let (n, count, low, high, small) = digits_for_lem value (omega arith) h in
      print_positive value mem f nz count (omega arith)
]
