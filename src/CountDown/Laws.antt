-- ===== src/CountDown/Laws.antt =====
-- cppext/countdown.h: which operations of a counter stay within its range.
use safely.Prelude.{◌==◌, if◌then◌else◌, ◌+◌, ◌-◌, ◌<◌, ◌≡◌, ◌↔◌, min, arith, true, u32_mod}
use safely.Index.{bad_index}
use safely.CountDown.{CountDown, pre_decrement, post_decrement, last, backup, pre_increment}

-- Decrementing before use stops at 0 and incrementing stops at all ones; `last` tells exactly the
-- step from 1 to 0, and `backup` exactly whether the counter went up.
pub saturates :
    (c : CountDown)
    → c < u32_mod
    → (pre_decrement c ≡ c - 1)
      × (pre_increment c ≡ min (c + 1) bad_index)
      × ((last c).1 ≡ c - 1)
      × (((last c).0 ≡ true) ↔ (c ≡ 1))
      × (((backup c).0 ≡ true) ↔ (c < bad_index))
unfolding pre_decrement pre_increment last backup
saturates c h = (ground arith, ground arith, ground arith, ground arith, ground arith)

-- Decrementing after use wraps at 0, unlike decrementing before use, and leaves the same at any other
-- value.
pub post_decrement_wraps :
    (c : CountDown)
    → c < u32_mod
    → (post_decrement c).1 ≡ (if c == 0 then bad_index else pre_decrement c)
unfolding post_decrement pre_decrement
post_decrement_wraps c h = ground arith
