-- ===== src/Span/Laws.antt =====
-- cppext/halfopen.cpp: the span operations against the set of indexes that a span covers.
use safely.Prelude.{ℕ, ◌+◌, ◌≤◌, ◌<◌, ◌≡◌, arith, true, ◌↔◌}
use safely.Index.{Index, bad_index}
use safely.Span.{Span, extent, empty, shift, overlap, include, cleared}

-- the index lies in the half-open range
abbrev pub Covers : Span → Index → Type 0
Covers s i = (s.lowest ≤ i) × (i < s.highest)

-- both ends are indexes
pub record IsClosed (s : Span) : Type 0 where
  pub low : s.lowest < bad_index
  pub high : s.highest < bad_index

-- The overlap of two closed spans is closed and covers exactly the indexes that both cover.
pub overlap_iff :
    (s t : Span) (i : Index)
    → IsClosed s
    → IsClosed t
    → IsClosed (overlap s t) × (Covers (overlap s t) i ↔ (Covers s i × Covers t i))
unfolding overlap
overlap_iff s t i cs ct = ground arith

-- A closed span is empty exactly when it covers no index.
empty_iff : (s : Span) → IsClosed s → (empty s ≡ true) ↔ ((i : Index) → ¬ Covers s i)
unfolding empty
empty_iff s c = (λ e i h. ground arith, λ none_covered. ground (arith, none_covered s.lowest))

-- Shifting by at most the low end keeps the number of indexes, and moves each covered index down.
shift_moves :
    (offset : ℕ) (s : Span) (i : Index)
    → IsClosed s
    → offset ≤ s.lowest
    → offset ≤ s.highest
    → (extent (shift offset s) ≡ extent s) × (Covers s (i + offset) ↔ Covers (shift offset s) i)
unfolding shift extent
shift_moves offset s i c l h = ground arith

-- Including an index in a cleared span only starts it; a second, later index ends the span at that
-- index, so that the span covers the first and not the second.
include_twice :
    (i j : Index)
    → i < j
    → j < bad_index
    → ((include i cleared).0 ≡ record { lowest = i; highest = bad_index })
      × ((include j (include i cleared).0).0 ≡ record { lowest = i; highest = j })
unfolding include
include_twice i j h k = ground arith
