-- ===== src/CharFormatter/Width.antt =====
-- cppext/charformatter.cpp: `printAtWidth`, of the padding and the digits.
use safely.Prelude.{
  ℕ, ◌+◌, ◌-◌, ◌≤◌, ◌<◌, ◌≡◌, refl, sym, ap, ◌∙◌, arith, Bool, true, false, ◌++◌, ltb, leb, ◌==◌,
  if◌then◌else◌, u32_mod, length, replicate, length-append, length-replicate, ℕ_discrete, dec_le,
  dec_lt,
}
use safely.Indexer.{Indexer, Memory}
use safely.Indexer.Writing.{overwrite}
use safely.Indexer.Contents.{Fits}
use safely.Indexer.Putting.{put_all, put_all_room, put_all-append, moved}
use safely.CharScanner.Bytes.{still_has_enough, still_has_short}
use safely.CharFormatter.{print_chars, digits_for, width_loop, print_at_width}
use safely.CharFormatter.Unsigned.{digits_for_lem}
use safely.CharFormatter.Printing.{printed, numeral, length-numeral, width_loop-put_all}
use safely.CharFormatter.Fields.{print_chars_lem}

-- The padding and the digits, where there is room for them.
padded_room :
    (value n k padding : ℕ) {ix : Indexer} (mem : Memory ℕ)
    → Fits ix mem
    → value < u32_mod
    → n ≤ 10
    → ix.pointer + (k + n) ≤ ix.length
    → (let (mem', ix', told) = print_chars padding k ix mem in width_loop n value ix' mem') ≡ (
      overwrite mem (ix.buffer + ix.pointer) (replicate k padding ++ numeral n value),
      moved (length (replicate k padding ++ numeral n value)) ix,
    )
padded_room value n k padding {ix} mem f h small room =
    let pads = replicate k padding in
    let digits = numeral n value in
    let m1 = overwrite mem (ix.buffer + ix.pointer) pads in
    let fits : leb (length pads) (ix.length - ix.pointer) ≡ true =
      ground (arith, length-replicate k padding) in
    let jx : Indexer = moved k ix in
    let size = length-replicate k padding in
    let first : print_chars padding k ix mem ≡ (m1, jx, true) =
      print_chars_lem padding k mem f ∙ rw fits (rw size refl) in
    let whole : put_all pads ix mem ≡ (m1, jx) =
      put_all_room pads ix mem (omega arith) ∙ rw size refl in
    ap (λ (r : Memory ℕ × Indexer × Bool). width_loop n value r.1 r.0) first
    ∙ width_loop-put_all n value jx m1 small h (omega arith)
    ∙ sym (ap (λ (r : Memory ℕ × Indexer). put_all digits r.1 r.0) whole)
    ∙ sym (put_all-append pads digits ix mem)
    ∙ put_all_room (pads ++ digits) ix mem
        (omega (arith, size, length-append pads digits, length-numeral n value))

at_width_count :
    (value width padding : ℕ) {n : ℕ} {ix : Indexer} (mem : Memory ℕ)
    → Fits ix mem
    → value < u32_mod
    → (if value == 0 then 1 else digits_for value) ≡ n
    → n ≤ 10
    → let (mem', ix', starred) = printed (replicate width b'*') ix mem in
      print_at_width value width padding ix mem ≡ (
        if ltb width n
        then (mem', ix', false)
        else printed (replicate (width - n) padding ++ numeral n value) ix mem)
at_width_count value width padding {n} {ix} mem f h count small =
    let text = replicate (width - n) padding ++ numeral n value in
    let size : n ≤ width → length text ≡ width = λ le. omega (
      arith,
      length-append (replicate (width - n) padding) (numeral n value),
      length-numeral n value,
      length-replicate (width - n) padding,
    ) in
    elim (dec_lt width n) [
      | yes narrow ↦
          let e : ltb width n ≡ true = ground arith in
          rw e (
            unfold print_at_width in
            rw count (
              rw e (
                ap (λ (r : Memory ℕ × Indexer × Bool). (r.0, r.1, false))
                  (print_chars_lem b'*' width mem f))))
      | no wide ↦
          let e : ltb width n ≡ false = ground arith in
          elim (dec_le (ix.pointer + width) ix.length) [
            | yes room ↦
                let fits : leb (length text) (ix.length - ix.pointer) ≡ true =
                  ground (arith, size (omega arith)) in
                rw e (
                  rw fits (
                    unfold print_at_width in
                    rw count (
                      rw e (
                        rw (still_has_enough width mem f room) (
                          ap (λ (r : Memory ℕ × Indexer). (r.0, r.1, true))
                            (padded_room value n (width - n) padding mem f h small
                              (omega arith)))))))
            | no full ↦
                let fits : leb (length text) (ix.length - ix.pointer) ≡ false =
                  ground (arith, size (omega arith)) in
                rw e (
                  rw fits (
                    unfold print_at_width in
                    rw count (rw e (rw (still_has_short width mem f (omega arith)) refl))))
          ]
    ]

count_small : (value : ℕ) → value < u32_mod → (if value == 0 then 1 else digits_for value) ≤ 10
count_small value h = elim (ℕ_discrete value 0) [
  | yes z ↦ ground arith
  | no nz ↦ let (n, count, low, high, less) = digits_for_lem value (omega arith) h in ground arith
]

-- `printAtWidth` of a value whose digits do not fit the width fills the width with stars and tells of
-- failure; otherwise it prints the padding and the digits, together as wide as was asked, or nothing.
pub print_at_width_lem :
    (value width padding : ℕ) {ix : Indexer} (mem : Memory ℕ)
    → Fits ix mem
    → value < u32_mod
    → let n = if value == 0 then 1 else digits_for value in
      let (mem', ix', starred) = printed (replicate width b'*') ix mem in
      print_at_width value width padding ix mem ≡ (
        if ltb width n
        then (mem', ix', false)
        else printed (replicate (width - n) padding ++ numeral n value) ix mem)
print_at_width_lem value width padding {ix} mem f h =
    at_width_count value width padding mem f h refl (count_small value h)
