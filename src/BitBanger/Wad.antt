-- ===== src/BitBanger/Wad.antt =====
-- cppext/bitbanger.h: `BitWad`, a group of bits that need not be neighbours. It has a first position and
-- a list of others, as the template's parameters are.
use Prim.Native.Nat.{bit_and, bit_or, bit_and-bitwise, bit_or-bitwise}
use safely.Prelude.{
  ℕ, zero, suc, ◌+◌, ◌*◌, ◌/◌, ◌%◌, ◌^◌, ◌<◌, min, max, ◌≡◌, refl, ap, ◌∙◌, arith, Bool, true,
  false, not, ◌&&◌, ◌||◌, List, [], ◌∷◌, ltb, leb, ◌==◌,
}
use safely.Prelude.Bits.{and_halves, or_halves, or-lt, and_comm, twice_pow, pow_positive}
use safely.Prelude.Digit.{digit, and-pow}
use safely.BitBanger.{one_at, bit}
use safely.BitBanger.Single.{bit-digit, one_at-eq}

unfoldable wad_mask : ℕ → List ℕ → ℕ
wad_mask pos [] = one_at pos
wad_mask pos (next ∷ poss) = bit_or (one_at pos) (wad_mask next poss)

unfoldable extract : ℕ → List ℕ → ℕ → ℕ
unfolding wad_mask
extract pos poss varble = bit_and (wad_mask pos poss) varble

unfoldable exactly : ℕ → List ℕ → ℕ → ℕ → Bool
unfolding extract
exactly pos poss varble match = extract pos poss varble == extract pos poss match

unfoldable pub all : ℕ → List ℕ → ℕ → Bool
unfolding extract
all pos poss varble = extract pos poss varble == wad_mask pos poss

unfoldable pub any : ℕ → List ℕ → ℕ → Bool
unfolding extract
any pos poss varble = not (extract pos poss varble == 0)

unfoldable pub no_bit : ℕ → List ℕ → ℕ → Bool
unfolding extract
no_bit pos poss varble = extract pos poss varble == 0

-- whether each bit, and whether some bit, of the group is set
abbrev pub each_bit : ℕ → List ℕ → ℕ → Bool
each_bit pos [] x = bit x pos
each_bit pos (next ∷ poss) x = bit x pos && each_bit next poss x

abbrev pub some_bit : ℕ → List ℕ → ℕ → Bool
some_bit pos [] x = bit x pos
some_bit pos (next ∷ poss) x = bit x pos || some_bit next poss x

abbrev pub AllBelow : ℕ → List ℕ → Type 0
AllBelow pos [] = pos < 32
AllBelow pos (next ∷ poss) = (pos < 32) × AllBelow next poss

-- A mask lies in a word, and meets it, as its halves and lowest digits do.
inside : ℕ → ℕ → Bool
inside m x = bit_and m x == m

meets : ℕ → ℕ → Bool
meets m x = not (bit_and m x == 0)

inside_halves : (m x : ℕ) → inside m x ≡ inside (m / 2) (x / 2) && leb (m % 2) (x % 2)
unfolding inside
inside_halves m x = ground (arith, and_halves m x)

meets_halves : (m x : ℕ) → meets m x ≡ meets (m / 2) (x / 2) || ltb 0 (min (m % 2) (x % 2))
unfolding meets
meets_halves m x = ground (arith, and_halves m x)

inside-or : (n a b x : ℕ) → a < 2 ^ n → b < 2 ^ n → inside (bit_or a b) x ≡ inside a x && inside b x
inside-or zero zero b x h k =
    unfold inside in ground (arith, bit_or-bitwise 0 b, bit_and-bitwise 0 x)
inside-or zero (suc a) b x h k = absurd (omega arith)
inside-or (suc n) a b x h k =
    let o = bit_or a b in
    let half : o / 2 ≡ bit_or (a / 2) (b / 2) = omega (arith, or_halves a b) in
    let least : o % 2 ≡ max (a % 2) (b % 2) = omega (arith, or_halves a b) in
    let rest : inside (o / 2) (x / 2) ≡ inside (a / 2) (x / 2) && inside (b / 2) (x / 2) = rw half (
      inside-or n (a / 2) (b / 2) (x / 2) (omega (arith, twice_pow n))
        (omega (arith, twice_pow n))) in
    ground (arith, inside_halves o x, inside_halves a x, inside_halves b x, rest, least)

meets-or : (n a b x : ℕ) → a < 2 ^ n → b < 2 ^ n → meets (bit_or a b) x ≡ meets a x || meets b x
meets-or zero zero b x h k = unfold meets in ground (arith, bit_or-bitwise 0 b, bit_and-bitwise 0 x)
meets-or zero (suc a) b x h k = absurd (omega arith)
meets-or (suc n) a b x h k =
    let o = bit_or a b in
    let half : o / 2 ≡ bit_or (a / 2) (b / 2) = omega (arith, or_halves a b) in
    let least : o % 2 ≡ max (a % 2) (b % 2) = omega (arith, or_halves a b) in
    let rest : meets (o / 2) (x / 2) ≡ meets (a / 2) (x / 2) || meets (b / 2) (x / 2) = rw half (
      meets-or n (a / 2) (b / 2) (x / 2) (omega (arith, twice_pow n))
        (omega (arith, twice_pow n))) in
    ground (arith, meets_halves o x, meets_halves a x, meets_halves b x, rest, least)

one_product : (d m : ℕ) → 0 < m → d < 2 → (d * m == m) ≡ (d == 1)
one_product zero m h k = ground arith
one_product (suc zero) m h k = ground arith
one_product (suc (suc d)) m h k = absurd (omega arith)

single-inside : (pos x : ℕ) → pos < 32 → inside (one_at pos) x ≡ bit x pos
single-inside pos x h =
    let m = 2 ^ pos in
    let picked : bit_and m x ≡ digit pos x * m =
      and_comm (m + x) m x (omega arith) (omega arith) ∙ and-pow x pos in
    rw (one_at-eq pos h) (
      rw (bit-digit x pos h)
        (unfold inside in rw picked (one_product (digit pos x) m (pow_positive pos) (omega arith))))

single-meets : (pos x : ℕ) → pos < 32 → meets (one_at pos) x ≡ bit x pos
single-meets pos x h =
    let m = one_at pos in
    unfold meets bit in ap (λ v. not (v == 0)) (and_comm (m + x) m x (omega arith) (omega arith))

wad_mask-lt : (pos : ℕ) (poss : List ℕ) → AllBelow pos poss → wad_mask pos poss < 2 ^ 32
unfolding wad_mask
wad_mask-lt pos [] h = omega arith
wad_mask-lt pos (next ∷ poss) h =
    or-lt 32 (one_at pos) (wad_mask next poss) (omega arith) (wad_mask-lt next poss h.1)

inside-wad :
    (pos : ℕ) (poss : List ℕ) (x : ℕ)
    → AllBelow pos poss
    → inside (wad_mask pos poss) x ≡ each_bit pos poss x
unfolding wad_mask
inside-wad pos [] x h = single-inside pos x h
inside-wad pos (next ∷ poss) x h =
    inside-or 32 (one_at pos) (wad_mask next poss) x (omega arith) (wad_mask-lt next poss h.1)
    ∙ rw (single-inside pos x h.0) (rw (inside-wad next poss x h.1) refl)

meets-wad :
    (pos : ℕ) (poss : List ℕ) (x : ℕ)
    → AllBelow pos poss
    → meets (wad_mask pos poss) x ≡ some_bit pos poss x
unfolding wad_mask
meets-wad pos [] x h = single-meets pos x h
meets-wad pos (next ∷ poss) x h =
    meets-or 32 (one_at pos) (wad_mask next poss) x (omega arith) (wad_mask-lt next poss h.1)
    ∙ rw (single-meets pos x h.0) (rw (meets-wad next poss x h.1) refl)

not_twice : (b : Bool) → b ≡ not (not b)
not_twice true = refl
not_twice false = refl

-- A group of bits at places below 32: `all` tells whether each of them is set, `any` whether one is, and
-- `none` the opposite of that.
pub wad-bits :
    (pos : ℕ) (poss : List ℕ) (x : ℕ)
    → AllBelow pos poss
    → (all pos poss x ≡ each_bit pos poss x)
      × (any pos poss x ≡ some_bit pos poss x)
      × (no_bit pos poss x ≡ not (some_bit pos poss x))
wad-bits pos poss x h =
    let met = meets-wad pos poss x h in
    (
      unfold all extract inside in inside-wad pos poss x h,
      unfold any extract meets in met,
      unfold no_bit extract meets in not_twice (bit_and (wad_mask pos poss) x == 0) ∙ ap not met,
    )
