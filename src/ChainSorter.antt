-- ===== src/ChainSorter.antt =====
-- system/chainsorter.h: the search of a sorted chain.
--
-- The function that a caller searches by is a parameter: what it gives for a thing is negative where the
-- target is above the thing. The places are `int`s: `none` is a sum or a difference that an `int` does not
-- hold, or a loop on fuel that has not ended.
pub mod Search
pub mod Resort
use mathlib.Core.Option
use safely.Prelude.{
  ℕ, zero, suc, ◌+◌, ◌-◌, ◌/◌, Bool, true, false, Option, none, some, ltb, leb, ◌==◌, ◌&&◌,
  if◌then◌else◌, int_max,
}
use safely.Prelude.Int.{ℤ, pos, negsuc}
use safely.Chain
use safely.Chain.{Chain}

-- a call whose move may leave the array
infixl 5 ◌>>=◌
abbrev ◌>>=◌ {ℓ} : {A B : Type ℓ} → Option A → (A → Option B) → Option B
none >>= f = none
some a >>= f = f a

-- `cmp < 0`, `cmp > 0` and `cmp == 0`
abbrev below_zero : ℤ → Bool
below_zero (pos n) = false
below_zero (negsuc n) = true

abbrev above_zero : ℤ → Bool
above_zero (pos n) = ltb 0 n
above_zero (negsuc n) = false

abbrev is_zero : ℤ → Bool
is_zero (pos n) = n == 0
is_zero (negsuc n) = false

-- the loop of `indexFor`: where its two ends meet
unfoldable narrow : (ℕ → ℤ) → ℕ → Chain → ℕ → ℕ → Option ℕ
unfolding Chain.nth
narrow ordinator zero list bot top = none
narrow ordinator (suc fuel) list bot top =
    let middle = (top + bot) / 2 in
    let above = narrow ordinator fuel list (middle + 1) top in
    let at_or_below = narrow ordinator fuel list bot middle in
    if ltb bot top && leb int_max (top + bot)
    then none
    else if ltb bot top
    then (if below_zero (ordinator (Chain.nth middle list)) then above else at_or_below)
    else some bot

-- `indexFor` behind its loop; `~n` of an `int` that is not negative is -(n + 1)
unfoldable place_for : (ℕ → ℤ) → Chain → ℕ → ℤ
unfolding Chain.nth
place_for ordinator list bot =
    let cmp = ordinator (Chain.nth bot list) in
    if is_zero cmp then pos bot else if below_zero cmp then negsuc (bot + 1) else negsuc bot

-- `indexFor`; a number of items past 2^31 is a negative `int`, and the loop is not entered
pub index_for : (ℕ → ℤ) → ℕ → Chain → Option ℤ
unfolding Chain.quantity narrow place_for
index_for ordinator fuel list =
    if Chain.quantity list == 0
    then some (negsuc 0)
    else if Chain.quantity list == int_max
    then none
    else if ltb int_max (Chain.quantity list)
    then some (place_for ordinator list 0)
    else Option.map (place_for ordinator list)
        (narrow ordinator fuel list 0 (Chain.quantity list - 1))

-- `resort`: the scan upwards from one item, for the places that are left; it goes on behind a move
unfoldable scan_up : (ℕ → ℕ → ℤ) → ℕ → ℕ → ℕ → ℕ → Chain → Option Chain
unfolding Chain.nth Chain.relocate
scan_up comparator thing i zero j list = some list
scan_up comparator thing i (suc left) j list = do
  list' ←
      if above_zero (comparator thing (Chain.nth j list))
      then some list
      else Option.map (λ (r : Chain × Bool). r.0) (Chain.relocate i j list)
  scan_up comparator thing i left (suc j) list'

-- its loop downwards, with the count of the items that it moves
unfoldable resort_from : (ℕ → ℕ → ℤ) → ℕ → ℕ → ℕ → Chain → Option (Chain × ℕ)
unfolding Chain.nth scan_up
resort_from comparator top zero swaps list = some (list, swaps)
resort_from comparator top (suc i) swaps list = do
  let thing = Chain.nth i list
  let out_of_order = above_zero (comparator thing (Chain.nth (suc i) list))
  list' ← if out_of_order then scan_up comparator thing i (top - suc i) (suc i) list else some list
  resort_from comparator top i (if out_of_order then suc swaps else swaps) list'

unfoldable resort : (ℕ → ℕ → ℤ) → Chain → Option (Chain × ℕ)
unfolding Chain.quantity resort_from
resort comparator list = resort_from comparator (Chain.quantity list) (Chain.quantity list) 0 list
