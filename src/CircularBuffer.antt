-- ===== src/CircularBuffer.antt =====
-- cppext/circularbuffer.h: `CircularBuffer`, a FIFO over an array allocated elsewhere, with a read
-- pointer, a write position and two flags.
pub mod Queue
pub mod Holding
pub mod Refine
use safely.Prelude.{
  ℕ, ◌+◌, ◌-◌, Bool, true, false, not, List, Option, leb, ◌==◌, if◌then◌else◌, get_elem?, set,
  add_u32,
}
use safely.CircularIndexer
use safely.CircularIndexer.{CircularIndexer}

pub record CircularBuffer {ℓ} (A : Type ℓ) : Type ℓ where
  pub ix : CircularIndexer
  pub open ix use *
  pub buffer : List A
  pub full : Bool
  pub empty : Bool
  pub writer : ℕ

module _ {ℓ} {A : Type ℓ} where
  unfoldable flush : CircularBuffer A → CircularBuffer A
  unfolding CircularIndexer.init
  flush b = record b { ix = CircularIndexer.init b.ix; writer = 0; empty = true; full = false }

  -- the constructor, at a number of items
  unfoldable make : List A → ℕ → CircularBuffer A
  unfolding flush
  make allocation length = flush (record {
    ix = record { pointer = 0; length = length };
    buffer = allocation;
    full = false;
    empty = false;
    writer = 0;
  })

  unfoldable has_next : CircularBuffer A → Bool
  has_next b = not b.empty

  unfoldable not_full : CircularBuffer A → Bool
  not_full b = not b.full

  unfoldable next : CircularBuffer A → Option A × CircularBuffer A
  unfolding CircularIndexer.next CircularIndexer.peek
  next b =
      let (at, ix') = CircularIndexer.next b.ix in
      if not b.empty
      then (
        get_elem? b.buffer at,
        record b { ix = ix'; empty = ix'.pointer == b.writer; full = false },
      )
      else (get_elem? b.buffer (CircularIndexer.peek b.ix), b)

  pub unget : CircularBuffer A → CircularBuffer A
  unfolding CircularIndexer.unget
  unget b = if not b.full then record b { ix = CircularIndexer.unget b.ix } else b

  unfoldable push : A → CircularBuffer A → Bool × CircularBuffer A
  push pushee b =
      let bumped = add_u32 b.writer 1 in
      let wrapped = if leb b.length bumped then 0 else bumped in
      if not b.full
      then (
        true,
        record b {
          buffer = set b.buffer b.writer pushee;
          writer = wrapped;
          full = wrapped == b.pointer;
          empty = false;
        },
      )
      else (false, b)

  unfoldable roll : A → CircularBuffer A → CircularBuffer A
  roll pushee b = (push pushee (if b.full then (next b).1 else b)).1
