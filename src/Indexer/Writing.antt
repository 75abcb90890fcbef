-- ===== src/Indexer/Writing.antt =====
-- cppext/buffer.h: the operations of an indexer that write to its memory, and those that search it.
use safely.Prelude.{
  ℕ, zero, suc, ◌+◌, ◌-◌, Bool, true, false, ◌&&◌, ◌||◌, Option, none, some, List, [], ◌∷◌, ltb,
  leb, ◌==◌, if◌then◌else◌, get_elem?, set, take, drop, add_u32, sub_u32,
}
use safely.Prelude.Int.{pos, negsuc}
use safely.Index.{bad_index}
use safely.Ordinator
use safely.Ordinator.{Ordinator}
use safely.Indexer.{Indexer, Memory, clipped, skip, dump}

-- `copyObject`, which is `memmove`: the items are read before any is written.
unfoldable pub overwrite {ℓ} : {A : Type ℓ} → Memory A → ℕ → List A → Memory A
overwrite [] a vs = []
overwrite (x ∷ xs) zero [] = x ∷ xs
overwrite (x ∷ xs) zero (v ∷ vs) = v ∷ overwrite xs zero vs
overwrite (x ∷ xs) (suc a) vs = x ∷ overwrite xs a vs

unfoldable pub copy_object {ℓ} : {A : Type ℓ} → ℕ → ℕ → ℕ → Memory A → Memory A
unfolding overwrite
copy_object source target n mem = overwrite mem target (take n (drop source mem))

module _ {ℓ} {A : Type ℓ} where
  abbrev movem : Indexer → ℕ → ℕ → ℕ → Memory A → Memory A
  movem ix from to amount mem = copy_object (ix.buffer + from) (ix.buffer + to) amount mem

  -- the memory, the source and this indexer
  unfoldable pub cat_from : Indexer → Indexer → ℕ → Memory A → Memory A × Indexer × Indexer
  unfolding Ordinator.still_has skip
  cat_from this source qty mem =
      if Ordinator.still_has this.ord qty && leb qty source.pointer
      then (copy_object source.buffer this.buffer qty mem, skip qty source, skip qty this)
      else (mem, source, this)

  unfoldable pub remove : ℕ → Indexer → Memory A → Memory A × Indexer
  unfolding Ordinator.remove
  remove amount ix mem =
      let gone = if ltb ix.pointer amount then ix.pointer else amount in
      (
        movem ix ix.pointer (ix.pointer - gone) (sub_u32 ix.length ix.pointer) mem,
        record ix { ord = Ordinator.remove gone ix.ord },
      )

  unfoldable pub remove_head : ℕ → Indexer → Memory A → Memory A × Indexer
  remove_head amount ix mem =
      if leb ix.pointer amount
      then (mem, record ix { ord = record { pointer = 0; length = ix.length } })
      else (
        movem ix amount 0 (ix.pointer - amount) mem,
        record ix { ord = record { pointer = ix.pointer - amount; length = ix.length } },
      )

  unfoldable remove_next : ℕ → Bool → Indexer → Memory A → Memory A × Indexer × Bool
  unfolding Ordinator.can_contain Ordinator.free_space
  remove_next amount and_shrink ix mem =
      let start = add_u32 ix.pointer amount in
      let quantity = sub_u32 (Ordinator.free_space ix.ord) amount in
      if Ordinator.can_contain ix.ord start && Ordinator.can_contain ix.ord quantity
      then (
        movem ix start ix.pointer quantity mem,
        (if and_shrink
            then record ix { ord = record { pointer = ix.pointer; length = ix.length - quantity } }
            else ix),
        true,
      )
      else (mem, ix, false)

  unfoldable replace_previous : A → Indexer → Memory A → Memory A
  replace_previous item ix mem =
      if ltb 0 ix.pointer then set mem (ix.buffer + (ix.pointer - 1)) item else mem

  unfoldable pub append_used : Indexer → Indexer → Memory A → Memory A × Indexer
  unfolding cat_from Ordinator.still_has clipped Ordinator.clipped
  append_used this other mem =
      if Ordinator.still_has this.ord other.pointer
      then (let (m, _, t) = cat_from this (clipped other (negsuc 0)) other.pointer mem in (m, t))
      else (mem, this)

  unfoldable pub append_all : Indexer → Indexer → Memory A → Memory A × Indexer × Bool
  unfolding cat_from Ordinator.still_has clipped Ordinator.clipped dump
  append_all this other mem =
      if Ordinator.still_has this.ord other.length
      then (let (m, _, t) = cat_from this (dump (clipped other (pos 0))) other.length mem in
          (m, t, true))
      else (mem, this, false)

  -- `cat(source)`; the two counts are `int`s, of which none is negative here
  unfoldable pub cat_indexer : Indexer → Indexer → Memory A → Memory A × Indexer × Indexer
  cat_indexer this source mem =
      let free = Ordinator.free_space this.ord in
      cat_from this source (if leb source.pointer free then source.pointer else free) mem

  -- `appendRemaining`, likewise
  unfoldable append_remaining : Indexer → Indexer → Memory A → Memory A × Indexer × Indexer
  append_remaining this other mem =
      let qty = Ordinator.free_space other.ord in
      if Ordinator.still_has this.ord qty then cat_from this other qty mem else (mem, other, this)

  -- `cat(prefilled, limit)` at a series that ends before a null; the list is what stands before the
  -- null, and the flag says whether the loop met the null
  unfoldable pub cat_loop : List A → ℕ → Indexer → Memory A → Memory A × Indexer × Bool × ℕ
  cat_loop [] limit ix mem = (mem, ix, true, limit)
  cat_loop (v ∷ vs) limit ix mem =
      let rest =
        cat_loop vs (sub_u32 limit 1)
          (record ix { ord = record { pointer = ix.pointer + 1; length = ix.length } })
          (set mem (ix.buffer + ix.pointer) v) in
      if ltb ix.pointer ix.length
      then (if ltb 0 limit then rest else (mem, ix, false, bad_index))
      else (mem, ix, false, limit)

  -- `none` for a null series
  unfoldable pub cat : Option (List A) → ℕ → Indexer → Memory A → Memory A × Indexer × Bool
  unfolding cat_loop
  cat none limit ix mem = (mem, ix, true)
  cat (some prefilled) limit ix mem =
      let (m, ix', at_null, left) = cat_loop prefilled limit ix mem in
      (m, ix', at_null || left == bad_index)

  -- `buffer[i] = 0` for i from a start, a number of times
  unfoldable pub fill : A → ℕ → ℕ → Memory A → Memory A
  fill z a zero mem = mem
  fill z a (suc n) mem = fill z (a + 1) n (set mem a z)

  unfoldable pub truncate : A → ℕ → Indexer → Memory A → Memory A
  unfolding fill
  truncate z ender ix mem = fill z (ix.buffer + ender) (ix.pointer - ender) mem

  unfoldable pub clear_unused : A → Indexer → Memory A → Memory A
  unfolding fill
  clear_unused z ix mem = fill z (ix.buffer + ix.pointer) (ix.length - ix.pointer) mem

  -- `zguard`: the loop on the amount, which it counts past 0 where it ends by that test
  unfoldable pub zguard : A → ℕ → Indexer → Memory A → Memory A × Indexer × ℕ
  zguard z zero ix mem = (mem, ix, bad_index)
  zguard z (suc amount) ix mem =
      let rest =
        zguard z amount
          (record ix { ord = record { pointer = ix.pointer; length = ix.length - 1 } })
          (set mem (ix.buffer + (ix.length - 1)) z) in
      if ltb ix.pointer ix.length then rest else (mem, ix, amount)

  module _ (same : A → A → Bool) where
    -- the loop of `findInHead` and `findInTail`, from an index on, for a number of rounds
    unfoldable pub find_from : A → Indexer → ℕ → ℕ → Memory A → ℕ
    find_from item ix i zero mem = bad_index
    find_from item ix i (suc n) mem =
        let rest = find_from item ix (i + 1) n mem in
        elim (get_elem? mem (ix.buffer + i)) [
          | none ↦ rest
          | some v ↦ if same item v then i else rest
        ]

    unfoldable pub find_in_head : A → Indexer → Memory A → ℕ
    unfolding find_from
    find_in_head item ix mem = find_from item ix 0 ix.pointer mem

    unfoldable pub find_in_tail : A → Indexer → Memory A → ℕ
    unfolding find_from
    find_in_tail item ix mem = find_from item ix ix.pointer (ix.length - ix.pointer) mem
