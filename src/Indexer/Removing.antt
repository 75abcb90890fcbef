-- ===== src/Indexer/Removing.antt =====
-- cppext/buffer.h: `remove`, `removeHead`, `removeNext` and `trimLeading`, which take items out of
-- a view.
use safely.Prelude.{ℕ, ◌+◌, ◌-◌, ◌≡◌, arith, ltb, if◌then◌else◌, min}
use safely.Indexer.{Indexer, Memory, trim_leading}
use safely.Indexer.Writing.{remove, remove_head, copy_object}
use safely.Indexer.Contents.{Fits, item, used_item, length-copy_object, get_elem?-copy_object}

module _ {A : Type 0} where
  remove-eq :
      (amount : ℕ) {ix : Indexer} (mem : Memory A)
      → Fits ix mem
      → let gone = min amount ix.pointer in
        remove amount ix mem ≡ (
          copy_object
              (ix.buffer + ix.pointer)
              (ix.buffer + (ix.pointer - gone))
              (ix.length - ix.pointer)
              mem,
          record {
            ord = record { pointer = ix.pointer - gone; length = ix.length - gone };
            buffer = ix.buffer;
          },
        )
  unfolding remove
  remove-eq amount {ix} mem f = ground arith

  -- `remove` takes out the given number of items just before the pointer, or all of those before it
  -- if there are fewer: what precedes them stays, what follows moves down, and the view still fits.
  pub remove_items :
      (amount i : ℕ) {ix : Indexer} (mem : Memory A)
      → Fits ix mem
      → let (mem', ix') = remove amount ix mem in
        (ix'.pointer ≡ ix.pointer - amount)
        × (ix'.length ≡ ix.length - min amount ix.pointer)
        × Fits ix' mem'
        × (item ix' mem' i
            ≡ item ix mem (if ltb i ix'.pointer then i else i + min amount ix.pointer))
  remove_items amount i {ix} mem f = rw (remove-eq amount mem f) (
    ground arith,
    ground arith,
    ground (
      arith,
      length-copy_object (ix.buffer + ix.pointer) (ix.buffer + (ix.pointer - min amount ix.pointer))
          (ix.length - ix.pointer) mem,
    ),
    ground (
      arith,
      get_elem?-copy_object (ix.buffer + ix.pointer)
          (ix.buffer + (ix.pointer - min amount ix.pointer)) (ix.length - ix.pointer) mem
          (ix.buffer + i),
    ),
  )

  -- `removeHead` takes out the first items and moves the rest of the used part down; at an amount
  -- that is not less than the pointer it leaves nothing used. The view keeps its length.
  pub remove_head_items :
      (amount i : ℕ) {ix : Indexer} (mem : Memory A)
      → Fits ix mem
      → let (mem', ix') = remove_head amount ix mem in
        (ix'.pointer ≡ ix.pointer - amount)
        × (ix'.length ≡ ix.length)
        × Fits ix' mem'
        × (used_item ix' mem' i ≡ used_item ix mem (i + amount))
  unfolding remove_head
  remove_head_items amount i {ix} mem f = (
    ground arith,
    ground arith,
    ground
        (arith, length-copy_object (ix.buffer + amount) (ix.buffer + 0) (ix.pointer - amount) mem),
    ground (
      arith,
      get_elem?-copy_object (ix.buffer + amount) (ix.buffer + 0) (ix.pointer - amount) mem
          (ix.buffer + i),
    ),
  )

  -- `trimLeading` moves the start of the view and leaves memory alone: the items are those from the
  -- amount on, and the pointer stays at its item, or goes to the first that is left.
  pub trim_leading_items :
      (how_many i : ℕ) {ix : Indexer} (mem : Memory A)
      → Fits ix mem
      → let ix' = trim_leading how_many ix in
        (ix'.pointer ≡ ix.pointer - how_many)
        × (ix'.length ≡ ix.length - how_many)
        × Fits ix' mem
        × (item ix' mem i ≡ item ix mem (i + how_many))
  unfolding trim_leading
  trim_leading_items how_many i {ix} mem f =
      (ground arith, ground arith, ground arith, ground arith)
