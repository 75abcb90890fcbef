-- ===== src/CountDown.antt =====
-- cppext/countdown.h: `CountDown`, an unsigned that is meant not to wrap. Its one field is the counter.
pub mod Laws
use safely.Prelude.{ℕ, ◌+◌, ◌-◌, Bool, true, false, ltb, ◌==◌, if◌then◌else◌, add_u32, sub_u32}
use safely.Index.{bad_index}

abbrev pub CountDown : Type 0
CountDown = ℕ

unfoldable pub is_done : CountDown → Bool
is_done counter = counter == 0

unfoldable has_next : CountDown → Bool
has_next counter = ltb 0 counter

-- `--counter`: the new value, which is the result too
pub pre_decrement : CountDown → CountDown
pre_decrement counter = if ltb 0 counter then counter - 1 else counter

-- `counter--`: the result and the new value
unfoldable pub post_decrement : CountDown → ℕ × CountDown
post_decrement counter = (counter, sub_u32 counter 1)

pub last : CountDown → Bool × CountDown
last counter = if ltb 0 counter then (counter - 1 == 0, counter - 1) else (false, counter)

pub backup : CountDown → Bool × CountDown
backup counter =
    let raised = add_u32 counter 1 in if raised == 0 then (false, bad_index) else (true, raised)

-- `++counter`, and `counter++` with the result first
pub pre_increment : CountDown → CountDown
unfolding backup
pre_increment counter = (backup counter).1

unfoldable post_increment : CountDown → ℕ × CountDown
unfolding backup
post_increment counter = (counter, (backup counter).1)

-- `nextFrom`: the index that it takes from the array, and the new value
unfoldable next_from : CountDown → ℕ × CountDown
unfolding pre_decrement
next_from counter = (pre_decrement counter, pre_decrement counter)
