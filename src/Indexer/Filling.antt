-- ===== src/Indexer/Filling.antt =====
-- cppext/buffer.h: `truncate`, `clearUnused` and `zguard`, which set items to zero.
use safely.Prelude.{
  ℕ, zero, suc, ◌+◌, ◌-◌, ◌≤◌, ◌<◌, ◌≡◌, arith, ◌&&◌, some, ltb, leb, if◌then◌else◌, length,
  get_elem?, set, length-set,
}
use safely.Index.{bad_index}
use safely.Indexer.{Indexer, Memory}
use safely.Indexer.Writing.{zguard, fill, truncate, clear_unused}
use safely.Indexer.Contents.{Fits, item, get_elem?-set}

module _ {A : Type 0} where
  fill-at :
      (z : A) (a n : ℕ) (mem : Memory A) (j : ℕ)
      → a + n ≤ length mem
      → get_elem? (fill z a n mem) j
        ≡ (if leb a j && ltb j (a + n) then some z else get_elem? mem j)
  unfolding fill
  fill-at z a zero mem j h = ground arith
  fill-at z a (suc n) mem j h =
      ground
        (arith, fill-at z (a + 1) n (set mem a z) j, length-set mem a z, get_elem?-set mem a z j)

  -- `truncate` and `clearUnused` set the items from an index up to the pointer, and from the pointer
  -- up to the length, and leave the others.
  pub fills :
      (z : A) (ender i : ℕ) {ix : Indexer} (mem : Memory A)
      → Fits ix mem
      → i < ix.length
      → (item ix (truncate z ender ix mem) i
          ≡ (if leb ender i && ltb i ix.pointer then some z else item ix mem i))
        × (item ix (clear_unused z ix mem) i ≡ (if leb ix.pointer i then some z else item ix mem i))
  unfolding truncate clear_unused
  fills z ender i {ix} mem f h = (
    ground (arith, fill-at z (ix.buffer + ender) (ix.pointer - ender) mem (ix.buffer + i)),
    ground (arith, fill-at z (ix.buffer + ix.pointer) (ix.length - ix.pointer) mem (ix.buffer + i)),
  )

  -- `zguard` of an amount that fits in the free space takes that many items off the end of the view,
  -- and sets them to zero; the result of that success is all ones.
  pub zguard_lem :
      (z : A) (amount j : ℕ) (ix : Indexer) (mem : Memory A)
      → ix.buffer + ix.length ≤ length mem
      → ix.pointer + amount ≤ ix.length
      → let (mem', ix', left) = zguard z amount ix mem in
        (ix'.length ≡ ix.length - amount)
        × (ix'.pointer ≡ ix.pointer)
        × (left ≡ bad_index)
        × (get_elem? mem' j ≡ (
            if leb (ix.buffer + (ix.length - amount)) j && ltb j (ix.buffer + ix.length)
            then some z
            else get_elem? mem j))
  unfolding zguard
  zguard_lem z zero j ix mem h p = ground arith
  zguard_lem z (suc n) j ix mem h p =
      let a = ix.buffer + (ix.length - 1) in
      let ix' : Indexer = record {
        ord = record { pointer = ix.pointer; length = ix.length - 1 };
        buffer = ix.buffer;
      } in
      ground
        (arith, zguard_lem z n j ix' (set mem a z), length-set mem a z, get_elem?-set mem a z j)
