-- ===== src/Span.antt =====
-- cppext/halfopen.h and halfopen.cpp: `Span`, a half-open range of indexes, either end of which may
-- be invalid.
pub mod Laws
use safely.Prelude.{
  ℕ, ◌+◌, ◌-◌, ◌%◌, ◌^◌, Bool, true, false, not, ◌&&◌, ltb, leb, ◌==◌, if◌then◌else◌, add_u32,
}
use safely.Index.{Index, bad_index, is_valid, up, depress, elevate, sub_assign}

pub record Span : Type 0 where
  pub lowest : Index
  pub highest : Index

-- `Span()`, and what `clear` assigns
abbrev pub cleared : Span
cleared = record { lowest = bad_index; highest = bad_index }

-- the override in `Span`, which looks at validity first
unfoldable pub ordered : Span → Bool
ordered s = is_valid s.lowest && is_valid s.highest && leb s.lowest s.highest

-- `span()`, the number of items covered
unfoldable pub extent : Span → ℕ
unfolding ordered
extent s = if ordered s then s.highest - s.lowest else 0

unfoldable pub empty : Span → Bool
unfolding extent
empty s = extent s == 0

unfoldable pub leapfrog : ℕ → Span → Span
leapfrog skip s = record { lowest = add_u32 s.highest skip; highest = bad_index }

unfoldable pub shift : ℕ → Span → Span
unfolding sub_assign
shift offset s = record {
  lowest = sub_assign s.lowest offset;
  highest = sub_assign s.highest offset;
}

-- `take`: what `this` becomes, and what is left in `other`
unfoldable pub take : Span → Span × Span
take other = (other, cleared)

unfoldable started : Span → Bool
started s = is_valid s.lowest && not (is_valid s.highest)

unfoldable non_trivial : Span → Bool
non_trivial s = not (s.lowest == s.highest)

pub overlap : Span → Span → Span
unfolding elevate depress
overlap one other = record {
  lowest = (elevate one.lowest other.lowest).0;
  highest = depress one.highest other.highest;
}

unfoldable pub include : Index → Span → Span × Bool
unfolding elevate
include index s =
    if not (is_valid s.lowest)
    then (record s { lowest = index }, true)
    else (let (h, grown) = elevate s.highest index in (record s { highest = h }, grown))

unfoldable stretch_up : ℕ → Span → Span × Bool
unfolding up
stretch_up more s =
    if is_valid s.lowest
    then (record s { highest = up s.highest more }, false)
    else (record { lowest = 0; highest = more }, true)
