-- ===== src/Indexer/Copying.antt =====
-- cppext/buffer.h: the `cat` of a series into the free space.
use safely.Prelude.{
  Bool, ◌||◌, ◌∙◌, ltb, leb, ◌==◌, ℕ, zero, suc, ◌+◌, ◌-◌, ◌≤◌, ◌<◌, ◌≡◌, refl, arith, false, some,
  List, [], ◌∷◌, u32_mod, sub_u32, length, get_elem?, set, min, ◌⊎◌, length-set, dec_lt, ◌&&◌,
}
use safely.Index.{bad_index}
use safely.Indexer.{Indexer, Memory}
use safely.Indexer.Writing.{cat, cat_loop}
use safely.Indexer.Contents.{Fits, get_elem?-set}

-- the indexer after one item is copied
abbrev advanced : Indexer → Indexer
advanced ix = record {
  ord = record { pointer = ix.pointer + 1; length = ix.length };
  buffer = ix.buffer;
}

-- whether `cat` reports success, by the number of items, the free space and the limit
abbrev reported : ℕ → ℕ → ℕ → Bool
reported count free limit =
    leb count (min free limit) || (ltb limit free || (free == 0 && limit == bad_index))

module _ {A : Type 0} where
  -- the memory with a block written at an address, item by item
  pub record Writes (mem : Memory A) (a : ℕ) (vs : List A) (n : ℕ) (mem' : Memory A) : Type 0 where
    pub same_size : length mem' ≡ length mem
    pub written : (j : ℕ) → j < n → get_elem? mem' (a + j) ≡ get_elem? vs j
    pub kept : (j : ℕ) → (j < a) ⊎ (a + n ≤ j) → get_elem? mem' j ≡ get_elem? mem j

  -- how many items the loop of `cat` copies
  abbrev copied : List A → ℕ → Indexer → ℕ
  copied vs limit ix = min (length vs) (min (ix.length - ix.pointer) limit)

  Writes-none : (mem : Memory A) (a : ℕ) (vs : List A) {n : ℕ} → n ≡ 0 → Writes mem a vs n mem
  Writes-none mem a vs e = record {
    same_size = refl;
    written = λ j q. absurd (omega arith);
    kept = λ j q. refl;
  }

  Writes-cons-at :
      (mem : Memory A) (a : ℕ) (v : A) (vs : List A) (n : ℕ) {mem' : Memory A}
      → a < length mem
      → Writes (set mem a v) (a + 1) vs n mem'
      → (j : ℕ) → j < suc n
      → get_elem? mem' (a + j) ≡ get_elem? (v ∷ vs) j
  Writes-cons-at mem a v vs n h w zero q =
      ground (arith, w.kept (a + 0), get_elem?-set mem a v (a + 0))
  Writes-cons-at mem a v vs n h w (suc j) q =
      let e : a + suc j ≡ a + 1 + j = omega arith in rw e (w.written j (omega arith))

  Writes-cons :
      (mem : Memory A) (a : ℕ) (v : A) (vs : List A) (n : ℕ) {mem' : Memory A}
      → a < length mem
      → Writes (set mem a v) (a + 1) vs n mem'
      → Writes mem a (v ∷ vs) (suc n) mem'
  Writes-cons mem a v vs n {mem'} h w = record {
    same_size = omega (arith, w.same_size, length-set mem a v);
    written = λ j q. Writes-cons-at mem a v vs n h w j q;
    kept = λ j q. ground (arith, w.kept j, get_elem?-set mem a v j);
  }

  module _ (v : A) (vs : List A) (limit : ℕ) (ix : Indexer) (mem : Memory A) where
    cat_loop-full :
        ¬ (ix.pointer < ix.length) → cat_loop (v ∷ vs) limit ix mem ≡ (mem, ix, false, limit)
    unfolding cat_loop
    cat_loop-full h = ground arith

    cat_loop-spent :
        ix.pointer < ix.length
        → ¬ (0 < limit)
        → cat_loop (v ∷ vs) limit ix mem ≡ (mem, ix, false, bad_index)
    unfolding cat_loop
    cat_loop-spent h l = ground arith

    cat_loop-more :
        ix.pointer < ix.length
        → 0 < limit
        → cat_loop (v ∷ vs) limit ix mem
          ≡ cat_loop vs (sub_u32 limit 1) (advanced ix) (set mem (ix.buffer + ix.pointer) v)
    unfolding cat_loop
    cat_loop-more h l = ground arith

  cat_loop-Writes :
      (vs : List A) (limit : ℕ) (ix : Indexer) (mem : Memory A)
      → ix.buffer + ix.length ≤ length mem
      → ix.pointer ≤ ix.length
      → limit < u32_mod
      → Writes mem (ix.buffer + ix.pointer) vs (copied vs limit ix) (cat_loop vs limit ix mem).0
        × ((cat_loop vs limit ix mem).1 ≡ record {
          ord = record { pointer = ix.pointer + copied vs limit ix; length = ix.length };
          buffer = ix.buffer;
        })
  unfolding cat_loop
  cat_loop-Writes [] limit ix mem h p l = (
    record { same_size = refl; written = λ j q. absurd (omega arith); kept = λ j q. refl },
    ground arith,
  )
  cat_loop-Writes (v ∷ vs) limit ix mem h p l = elim (dec_lt ix.pointer ix.length) [
    | no full ↦
        rw (cat_loop-full v vs limit ix mem full)
          (Writes-none mem (ix.buffer + ix.pointer) (v ∷ vs) (omega arith), ground arith)
    | yes room ↦ elim (dec_lt 0 limit) [
      | no spent ↦
          rw (cat_loop-spent v vs limit ix mem room spent)
            (Writes-none mem (ix.buffer + ix.pointer) (v ∷ vs) (omega arith), ground arith)
      | yes more ↦
          let a = ix.buffer + ix.pointer in
          let (w, e) =
            cat_loop-Writes vs (sub_u32 limit 1) (advanced ix) (set mem a v)
              (omega (arith, length-set mem a v)) (omega arith) (omega arith) in
          let next_a : ix.buffer + (ix.pointer + 1) ≡ a + 1 = omega arith in
          let count : copied (v ∷ vs) limit ix ≡ suc (copied vs (sub_u32 limit 1) (advanced ix)) =
            omega arith in
          rw (cat_loop-more v vs limit ix mem room more, count)
            (Writes-cons mem a v vs _ (omega arith) (rw next_a at w), ground arith)
    ]
  ]

  cat_loop-reported :
      (vs : List A) (limit : ℕ) (ix : Indexer) (mem : Memory A)
      → ix.pointer ≤ ix.length
      → limit < u32_mod
      → ((cat_loop vs limit ix mem).2 || (cat_loop vs limit ix mem).3 == bad_index)
        ≡ reported (length vs) (ix.length - ix.pointer) limit
  cat_loop-reported [] limit ix mem p l = unfold cat_loop in ground arith
  cat_loop-reported (v ∷ vs) limit ix mem p l = elim (dec_lt ix.pointer ix.length) [
    | no full ↦ rw (cat_loop-full v vs limit ix mem full) (ground arith)
    | yes room ↦ elim (dec_lt 0 limit) [
      | no spent ↦ rw (cat_loop-spent v vs limit ix mem room spent) (ground arith)
      | yes more ↦ rw (cat_loop-more v vs limit ix mem room more) (
          cat_loop-reported vs (sub_u32 limit 1) (advanced ix) (set mem (ix.buffer + ix.pointer) v)
            (omega arith) (omega arith)
          ∙ ground arith)
    ]
  ]

  -- `cat` of a series copies, in order and from the pointer on, as many of its items as the free space
  -- and the limit allow, moves the pointer past them, and leaves the rest of memory alone. It reports
  -- success where all of them fit, where the limit is less than the free space, and also where nothing
  -- is free and the limit is the default one; else it reports failure.
  pub cat_lem :
      (vs : List A) (limit : ℕ) {ix : Indexer} (mem : Memory A)
      → Fits ix mem
      → limit < u32_mod
      → let (mem', ix', done) = cat (some vs) limit ix mem in
        Writes mem (ix.buffer + ix.pointer) vs (copied vs limit ix) mem'
        × (ix' ≡ record {
          ord = record { pointer = ix.pointer + copied vs limit ix; length = ix.length };
          buffer = ix.buffer;
        })
        × (done ≡ reported (length vs) (ix.length - ix.pointer) limit)
  unfolding cat
  cat_lem vs limit {ix} mem f l =
      let (w, e) = cat_loop-Writes vs limit ix mem f.inside f.valid.within l in
      (w, e, cat_loop-reported vs limit ix mem f.valid.within l)
