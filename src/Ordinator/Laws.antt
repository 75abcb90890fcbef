-- ===== src/Ordinator/Laws.antt =====
-- cppext/ordinator.h: the pointer stays between 0 and the length, and where each operation puts it.
use safely.Prelude.{ℕ, ◌+◌, ◌-◌, ◌≤◌, ◌<◌, min, ◌≡◌, arith, true, ◌↔◌, u32_mod}
use safely.Prelude.Int.{pos, negsuc}
use safely.Ordinator.{
  Ordinator, make, clipped, free_space, has_next, still_has, rewind, skip, dump, remove, grab,
}

-- the pointer is not past the length, and the length is an `unsigned`
pub record IsValid (o : Ordinator) : Type 0 where
  pub within : o.pointer ≤ o.length
  pub small : o.length < u32_mod

make-IsValid : (length pointer : ℕ) → length < u32_mod → IsValid (make length pointer)
unfolding make
make-IsValid length pointer h = ground arith

-- The freespace of a valid ordinator does not wrap, and with the pointer makes up the length.
pub free_space-lem : {o : Ordinator} → IsValid o → free_space o ≡ o.length - o.pointer
unfolding free_space
free_space-lem v = omega arith

-- A clipped copy starts at 0 and covers what is below the other's pointer less the complement of a
-- negative clip, or what is above it less a clip that is not negative.
pub clipped_lem :
    {o : Ordinator} (n : ℕ)
    → IsValid o
    → IsValid (clipped o (negsuc n))
      × IsValid (clipped o (pos n))
      × (clipped o (negsuc n) ≡ record { pointer = 0; length = o.pointer - n })
      × (clipped o (pos n) ≡ record { pointer = 0; length = o.length - o.pointer - n })
unfolding clipped
clipped_lem {o} n v = (ground arith, ground arith, ground arith, ground arith)

-- The operations of an ordinator that change it.
pub data Move : Type 0 where
  rewind_by : ℕ → Move
  skip_by : ℕ → Move
  dump_all : Move
  remove_by : ℕ → Move
  grab_from : Ordinator → Move

abbrev move : Move → Ordinator → Ordinator
move (rewind_by n) o = rewind n o
move (skip_by n) o = skip n o
move dump_all o = dump o
move (remove_by n) o = remove n o
move (grab_from other) o = grab other

abbrev Accepts : Move → Type 0
Accepts (grab_from other) = IsValid other
Accepts _ = Unit {0}

-- Every operation that changes an ordinator leaves the pointer at most the length, where another that it
-- takes over is valid too.
pub move-IsValid : (m : Move) {o : Ordinator} → Accepts m → IsValid o → IsValid (move m o)
unfolding rewind skip dump remove grab
move-IsValid (rewind_by n) a v = ground arith
move-IsValid (skip_by n) a v = ground arith
move-IsValid dump_all a v = ground arith
move-IsValid (remove_by n) a v = ground arith
move-IsValid (grab_from other) a v = ground arith

-- A skip whose sum is an `unsigned` moves by the amount and stops at the length.
skip-eq-min :
    (n : ℕ) {o : Ordinator}
    → IsValid o
    → o.pointer + n < u32_mod
    → (skip n o).pointer ≡ min (o.pointer + n) o.length
unfolding skip
skip-eq-min n v h = ground arith

-- In a valid ordinator, a skip by an `unsigned` whose sum with the pointer is not an `unsigned`
-- moves the pointer back, and not to the length.
pub skip_wraps :
    (n : ℕ) {o : Ordinator}
    → IsValid o
    → n < u32_mod
    → u32_mod ≤ o.pointer + n
    → (skip n o).pointer ≡ o.pointer - (u32_mod - n)
unfolding skip
skip_wraps n v s h = ground arith

-- Rewinding undoes a skip that neither wrapped nor met the length.
pub rewind-skip :
    (n : ℕ) {o : Ordinator} → IsValid o → o.pointer + n ≤ o.length → rewind n (skip n o) ≡ o
unfolding rewind skip
rewind-skip n v h = ground arith

-- There is a next item exactly when at least one is free.
has_next_iff : {o : Ordinator} → IsValid o → (has_next o ≡ true) ↔ (still_has o 1 ≡ true)
unfolding has_next still_has
has_next_iff v = ground arith
