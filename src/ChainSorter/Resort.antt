-- ===== src/ChainSorter/Resort.antt =====
-- system/chainsorter.h: `resort` of a chain that is in order.
use safely.Prelude.{ℕ, zero, suc, ◌≤◌, ◌<◌, ◌≡◌, refl, arith, false, some, length}
use safely.Prelude.Int.{ℤ}
use safely.Chain
use safely.Chain.{Chain}
use safely.ChainSorter.{above_zero, resort_from, resort}

-- Each thing compares with the next, and the last with the null pointer behind the chain, as not above.
abbrev InOrder : (ℕ → ℕ → ℤ) → Chain → Type 0
InOrder comparator list =
    (i : ℕ)
    → i < length list.items
    → above_zero (comparator (Chain.nth i list) (Chain.nth (suc i) list)) ≡ false

resort_from-InOrder :
    (comparator : ℕ → ℕ → ℤ) (top i swaps : ℕ) (list : Chain)
    → InOrder comparator list
    → i ≤ length list.items
    → resort_from comparator top i swaps list ≡ some (list, swaps)
unfolding resort_from
resort_from-InOrder comparator top zero swaps list ordered h = refl
resort_from-InOrder comparator top (suc i) swaps list ordered h =
    rw (ordered i (omega arith))
      (resort_from-InOrder comparator top i swaps list ordered (omega arith))

-- `resort` of a chain in order, in which its last thing compares with the null pointer behind it as not
-- above, moves nothing and counts nothing.
resort-InOrder :
    (comparator : ℕ → ℕ → ℤ) (list : Chain)
    → InOrder comparator list
    → resort comparator list ≡ some (list, 0)
unfolding resort Chain.quantity
resort-InOrder comparator list ordered =
    resort_from-InOrder comparator (length list.items) (length list.items) 0 list ordered
      (omega arith)
