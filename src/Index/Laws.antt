-- ===== src/Index/Laws.antt =====
-- cppext/index.h: what the operations of an index do to valid and to invalid values.
use safely.Prelude.{
  ℕ, zero, suc, ◌+◌, ◌-◌, ◌≤◌, ◌<◌, min, max, ◌≡◌, ◌≢◌, refl, arith, none, some, if◌then◌else◌,
  u32_mod,
}
use safely.Index.{Index, bad_index, is_valid, sub_assign, add_assign, depress, elevate, take_some}

-- The lattice operations treat the invalid index as an absent operand: with two valid operands
-- they are minimum and maximum, with one they return it. The flag of `elevate` tells whether the other operand was
-- assigned.
pub depress-elevate :
    (a b : Index)
    → a < u32_mod
    → b < u32_mod
    → (depress a b ≡ (if is_valid a then (if is_valid b then min a b else a) else b))
      × ((elevate a b).0 ≡ (if is_valid a then (if is_valid b then max a b else a) else b))
      × ((elevate a b).0 ≡ (if (elevate a b).1 then b else a))
unfolding depress elevate
depress-elevate a b ha hb = (ground arith, ground arith, ground arith)

-- At a request that is neither less than the value nor the invalid one, `take` of a value that is
-- not the invalid one never returns, whatever the fuel.
pub take_some_diverges :
    (fuel : ℕ) (raw : Index) (how_many : ℕ)
    → raw ≤ how_many
    → how_many ≢ bad_index
    → raw ≢ bad_index
    → take_some fuel raw how_many ≡ none
unfolding take_some
take_some_diverges zero raw n h v w = refl
take_some_diverges (suc fuel) raw n h v w = ground (arith, take_some_diverges fuel raw raw)

take_some_returns :
    (fuel : ℕ) (raw : Index) (how_many : ℕ)
    → how_many < raw
    → take_some (suc fuel) raw how_many ≡ some (raw - how_many, how_many)
unfolding take_some
take_some_returns fuel raw n h = ground arith

-- `-=` undoes `+=` on a valid index, if the sum stays a valid index.
sub_assign-add_assign : (a : Index) (n : ℕ) → a + n < bad_index → sub_assign (add_assign a n) n ≡ a
unfolding sub_assign add_assign
sub_assign-add_assign a n h = ground arith
