-- ===== src/Indexer/Reading.antt =====
-- cppext/buffer.h: the reading side of an indexer: `next` and the accessors, the visiting loops, the
-- views and the searches.
use safely.Prelude.{
  get_elem?, ltb, ℕ, zero, suc, ◌+◌, ◌-◌, ◌*◌, ◌/◌, ◌%◌, ◌≤◌, ◌<◌, ◌≡◌, refl, arith, Bool, true,
  false, Option, none, some, List, [], ◌∷◌, if◌then◌else◌, u32_mod, length, min, ◌⊎◌, inl, inr,
  Bool-cases, dec_lt, ℕ_discrete,
}
use safely.Prelude.Int.{pos, negsuc}
use safely.Index.{bad_index}
use safely.Ordinator.Laws.{free_space-lem, IsValid}
use safely.Indexer.{
  null, Indexer, Memory, nothing, next, at, deref, peek, previous, visit, for_each, for_used, view,
  get_head, get_tail, clipped,
}
use safely.Indexer.Writing.{find_from, find_in_head, find_in_tail}
use native.Mathlib.Nat.{mul-div_cancel, mod-eq_of_lt}
use safely.Indexer.Contents.{Fits}

-- what a reference of a view may be: the null one if the view is empty, else an address within it
abbrev pub InView : Indexer → Option ℕ → Type 0
InView ix none = ix.length ≡ 0
InView ix (some a) = (0 < a) × (ix.buffer ≤ a) × (a < ix.buffer + ix.length)

module _ {A : Type 0} where
  -- Whatever the pointer and the index are, each accessor of a view that fits memory refers to an
  -- item of the view, never to null; or it gives the null reference, and the view is empty.
  pub accessors-InView :
      (index : ℕ) {ix : Indexer} (mem : Memory A)
      → Fits ix mem
      → InView ix (next ix).0
        × InView ix (at ix index)
        × InView ix (deref ix)
        × InView ix (peek ix)
        × InView ix (previous ix)
  unfolding next at deref peek previous
  accessors-InView index {ix} mem f =
      (ground arith, ground arith, ground arith, ground arith, ground arith)

  -- `next` gives the item at the pointer and moves past it, so that it is then the previous item;
  -- past the last item it gives that one again and stays.
  pub next_lem :
      {ix : Indexer} (mem : Memory A)
      → Fits ix mem
      → 0 < ix.length
      → let (reference, ix') = next ix in
        (reference ≡ some (ix.buffer + min ix.pointer (ix.length - 1)))
        × (ix'.pointer ≡ min (ix.pointer + 1) ix.length)
        × (previous ix' ≡ reference)
        × Fits ix' mem
  unfolding next previous
  next_lem mem f h = ground arith

-- the addresses from one on, a number of them
abbrev addresses : ℕ → ℕ → List (Option ℕ)
addresses a zero = []
addresses a (suc n) = some a ∷ addresses (a + 1) n

visit-addresses :
    (n fuel : ℕ) (ix : Indexer)
    → n < fuel
    → ix.pointer + n ≡ ix.length
    → visit fuel ix ≡ some (addresses (ix.buffer + ix.pointer) n)
unfolding visit
visit-addresses n zero ix h e = absurd (omega arith)
visit-addresses zero (suc fuel) ix h e = ground arith
visit-addresses (suc n) (suc fuel) ix h e =
    let ix' : Indexer = record ix {
      ord = record { pointer = ix.pointer + 1; length = ix.length };
    } in
    let same : ix.buffer + (ix.pointer + 1) ≡ ix.buffer + ix.pointer + 1 = omega arith in
    ground (arith, rw same at (visit-addresses n fuel ix' (omega arith) (omega arith)))

from_start :
    (n : ℕ) {b : ℕ} (list : Indexer)
    → n ≡ list.length
    → list.pointer ≡ 0
    → list.buffer ≡ b
    → visit (suc n) list ≡ some (addresses b n)
from_start n {b} list e start base =
    let same : list.buffer + list.pointer ≡ b = omega arith in
    rw same at (visit-addresses n (suc n) list (omega arith) (omega arith))

bytes_roundtrip :
    (item_size n length : ℕ)
    → 0 < item_size
    → length * item_size < u32_mod
    → n ≤ length
    → (n * item_size) % u32_mod / item_size ≡ n
bytes_roundtrip item_size n length h small le =
    let fits : n * item_size < u32_mod = grind arith in rw (mod-eq_of_lt fits) (mul-div_cancel n h)

module _ {A : Type 0} {ix : Indexer} (mem : Memory A) (f : Fits ix mem) where
  -- The loop of `forUsed` ends, and visits the items below the pointer, each once and in order. The
  -- loop of `forEach` ends too; it starts at the first item whatever the pointer is, and visits as
  -- many items as are above the pointer.
  pub for_used-for_each :
      (for_used (suc ix.pointer) ix ≡ some (addresses ix.buffer ix.pointer))
      × (for_each (suc (ix.length - ix.pointer)) ix
          ≡ some (addresses ix.buffer (ix.length - ix.pointer)))
  unfolding for_used for_each
  for_used-for_each = (
    from_start ix.pointer (clipped ix (negsuc 0)) (ground arith) refl refl,
    from_start (ix.length - ix.pointer) (clipped ix (pos 0))
        (ground (arith, free_space-lem f.valid)) refl refl,
  )

view-eq :
    (item_size start end : ℕ) (ix : Indexer)
    → IsValid ix.ord
    → 0 < item_size
    → ix.length * item_size < u32_mod
    → start < ix.length
    → start ≤ end
    → view item_size start end ix ≡ record {
      ord = record { pointer = 0; length = min end ix.length - start };
      buffer = ix.buffer + start;
    }
unfolding view
view-eq item_size start end ix v hs hb h1 h2 = ground (
  arith,
  bytes_roundtrip item_size (ix.length - start) ix.length hs hb,
  bytes_roundtrip item_size (end - start) ix.length hs hb,
)

view_past :
    (item_size start end : ℕ) (ix : Indexer)
    → ix.length ≤ start
    → view item_size start end ix ≡ nothing
unfolding view
view_past item_size start end ix h = ground arith

module _ {A : Type 0} {ix : Indexer} (mem : Memory A) (f : Fits ix mem) (item_size : ℕ) where
  -- The view of a range that starts in the buffer, and does not end before it starts, runs from its
  -- first item to its last, or to the end of the buffer, if an `unsigned` can count the bytes of the
  -- buffer. The views of the used part and of the rest meet at the pointer and make up the whole; if
  -- there is no rest its view is at null.
  pub view_range :
      (start end : ℕ)
      → 0 < item_size
      → ix.length * item_size < u32_mod
      → start < ix.length
      → start ≤ end
      → (view item_size start end ix ≡ record {
        ord = record { pointer = 0; length = min end ix.length - start };
        buffer = ix.buffer + start;
      })
        × ((get_head item_size ix).buffer + (get_head item_size ix).length ≡ ix.buffer + ix.pointer)
        × ((get_head item_size ix).length + (get_tail item_size ix).length ≡ ix.length)
        × ((get_tail item_size ix).buffer
            ≡ (if ltb ix.pointer ix.length then ix.buffer + ix.pointer else null))
  unfolding get_head get_tail
  view_range start end hs hb h1 h2 =
      let head = view-eq item_size 0 ix.pointer ix f.valid hs hb (omega arith) (omega arith) in
      let tail = λ (p : ix.pointer < ix.length).
        view-eq item_size ix.pointer ix.length ix f.valid hs hb p (omega arith) in
      (
        view-eq item_size start end ix f.valid hs hb h1 h2,
        ground arith,
        elim (dec_lt ix.pointer ix.length) [
          | yes p ↦ ground (arith, tail p)
          | no p ↦ ground (arith, view_past item_size ix.pointer ix.length ix)
        ],
        elim (dec_lt ix.pointer ix.length) [
          | yes p ↦ ground (arith, tail p)
          | no p ↦ ground (arith, view_past item_size ix.pointer ix.length ix)
        ],
      )

-- whether the item at an index of the view is there and is the same as the one sought
unfoldable pub hit : {A : Type 0} → (A → A → Bool) → A → Indexer → Memory A → ℕ → Bool
hit same sought ix mem i = elim (get_elem? mem (ix.buffer + i)) [
  | none ↦ false
  | some v ↦ same sought v
]

module _ {A : Type 0} (same : A → A → Bool) (sought : A) (ix : Indexer) (mem : Memory A) where
  -- the first index of a range whose item is the one sought, or the invalid index if there is none
  pub record IsFirst (low high found : ℕ) : Type 0 where
    pub earlier : (j : ℕ) → low ≤ j → j < high → j < found → hit same sought ix mem j ≡ false
    pub at_found :
        (found ≡ bad_index)
        ⊎ ((low ≤ found) × (found < high) × (hit same sought ix mem found ≡ true))

  find_from_step :
      (n i : ℕ)
      → find_from same sought ix i (suc n) mem
        ≡ (if hit same sought ix mem i then i else find_from same sought ix (i + 1) n mem)
  unfolding find_from hit
  find_from_step n i = ground arith

  find_from-IsFirst :
      (n i high : ℕ)
      → i + n ≡ high
      → high ≤ bad_index
      → IsFirst i high (find_from same sought ix i n mem)
  find_from-IsFirst zero i high e hb = record {
    earlier = λ j l h _. absurd (omega arith);
    at_found = inl (unfold find_from in refl);
  }
  find_from-IsFirst (suc n) i high e hb =
      let ih = find_from-IsFirst n (i + 1) high (omega arith) hb in
      rw (find_from_step n i) (elim (Bool-cases (hit same sought ix mem i)) [
        | inl yes_hit ↦ rw yes_hit (record {
          earlier = λ j l h b. absurd (omega arith);
          at_found = inr (omega arith, omega arith, yes_hit);
        })
        | inr no_hit ↦ rw no_hit (record {
          earlier = λ j l h b. elim (ℕ_discrete i j) [
            | yes p ↦ rw p at no_hit
            | no p ↦ ih.earlier j (omega arith) h b
          ];
          at_found = elim ih.at_found [ inl p ↦ inl p | inr p ↦ inr (omega arith, p.1, p.2) ];
        })
      ])

  -- `findInHead` and `findInTail` give the first index, below the pointer and from it on, whose item
  -- is the one sought, and the invalid index exactly where there is none.
  pub find-IsFirst :
      Fits ix mem
      → IsFirst 0 ix.pointer (find_in_head same sought ix mem)
        × IsFirst ix.pointer ix.length (find_in_tail same sought ix mem)
  unfolding find_in_head find_in_tail
  find-IsFirst f = (
    find_from-IsFirst ix.pointer 0 ix.pointer (omega arith) (omega (arith, f.valid)),
    find_from-IsFirst (ix.length - ix.pointer) ix.pointer ix.length (omega (arith, f.valid))
        (omega (arith, f.valid)),
  )
