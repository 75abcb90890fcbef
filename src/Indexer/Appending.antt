-- ===== src/Indexer/Appending.antt =====
-- cppext/buffer.h: `cat` of an indexer, `appendUsed`, `appendRemaining` and `appendAll`.
use safely.Prelude.{
  u32_mod, ◌*◌, min, ◌==◌, ℕ, zero, suc, ◌+◌, ◌-◌, ◌<◌, ◌≡◌, refl, ap, arith, ◌&&◌, [], ◌∷◌, ltb,
  leb, if◌then◌else◌, length, get_elem?,
}
use safely.Indexer.{Indexer, Memory}
use safely.Indexer.Writing.{cat_indexer, cat_from, append_used, append_all, copy_object, overwrite}
use safely.Indexer.Contents.{Fits, get_elem?-copy_object}

module _ {A : Type 0} where
  overwrite_nil : (mem : Memory A) (t : ℕ) → overwrite mem t [] ≡ mem
  unfolding overwrite
  overwrite_nil [] t = refl
  overwrite_nil (x ∷ xs) zero = refl
  overwrite_nil (x ∷ xs) (suc t) = ap (◌∷◌ x) (overwrite_nil xs t)

  copy_object_none : (s t n : ℕ) (mem : Memory A) → n ≡ 0 → copy_object s t n mem ≡ mem
  unfolding copy_object
  copy_object_none s t zero mem e = overwrite_nil mem t
  copy_object_none s t (suc n) mem e = absurd (omega arith)

  -- Between views that fit memory `appendUsed` changes nothing: the indexer that it makes over the
  -- used part of the other has its pointer at 0, and the copy is refused for more than the source's
  -- pointer.
  pub append_used_nothing :
      {this other : Indexer} (mem : Memory A)
      → Fits this mem
      → Fits other mem
      → append_used this other mem ≡ (mem, this)
  unfolding append_used
  append_used_nothing {this} {other} mem f g =
      ground (arith, copy_object_none other.buffer this.buffer other.pointer mem)

  -- `appendAll` reports success whenever the other's length fits in the free space. If then the other's
  -- pointer is at its start it copies all of its items, to the start of this buffer and not behind the
  -- used part, and counts them as used; else it copies nothing.
  pub append_all_lem :
      {this other : Indexer} (mem : Memory A) (j : ℕ)
      → Fits this mem
      → Fits other mem
      → j < length mem
      → let (mem', this', done) = append_all this other mem in
        let copies = leb other.length (this.length - this.pointer) && other.pointer == 0 in
        (done ≡ leb other.length (this.length - this.pointer))
        × (this'.pointer ≡ (if copies then this.pointer + other.length else this.pointer))
        × (get_elem? mem' j ≡ (
            if copies && leb this.buffer j && ltb j (this.buffer + other.length)
            then get_elem? mem (other.buffer + (j - this.buffer))
            else get_elem? mem j))
  unfolding append_all
  append_all_lem {this} {other} mem j f g h = (
    ground arith,
    ground arith,
    ground (arith, get_elem?-copy_object other.buffer this.buffer other.length mem j),
  )

  -- `cat` of another indexer copies as many items as that has used and this has free, to the start of
  -- this buffer, and counts them as used here and as passed over there: what it copies is the start of
  -- the other, and what it overwrites is the start of this one. The sum of the skip must be an `unsigned`.
  pub cat_indexer_lem :
      {this source : Indexer} (mem : Memory A) (j : ℕ)
      → Fits this mem
      → Fits source mem
      → j < length mem
      → 2 * source.pointer < u32_mod
      → let (mem', source', this') = cat_indexer this source mem in
        let qty = min source.pointer (this.length - this.pointer) in
        (this'.pointer ≡ this.pointer + qty)
        × (source'.pointer ≡ min (source.pointer + qty) source.length)
        × (get_elem? mem' j ≡ (
            if leb this.buffer j && ltb j (this.buffer + qty)
            then get_elem? mem (source.buffer + (j - this.buffer))
            else get_elem? mem j))
  unfolding cat_indexer cat_from
  cat_indexer_lem {this} {source} mem j f g h w = (
    ground arith,
    ground arith,
    ground (
      arith,
      get_elem?-copy_object source.buffer this.buffer
          (min source.pointer (this.length - this.pointer)) mem j,
    ),
  )
