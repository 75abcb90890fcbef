-- ===== src/Twiddler.antt =====
-- cppext/twiddler.h and twiddler.cpp: a pulse width by two integers, without division.
--
-- The fields are integers; `setRatio` takes two `unsigned`s, which become negative from 2^31 on. A sum past
-- what an `int` holds is not cut off. Ratios by floating point are not modelled.
pub mod Laws
use safely.Prelude.{
  ℕ, zero, suc, ◌+◌, ◌-◌, ◌*◌, ◌/◌, ◌%◌, Bool, true, false, not, ltb, leb, ◌==◌, if◌then◌else◌,
  add_u32, sub_u32,
}
use safely.MiniMath
use safely.Prelude.Int.{ℤ, pos, negsuc, ltb_ℤ, to_int, quotient, ◌+ℤ◌, ◌-ℤ◌}

pub record IntegerTwiddler : Type 0 where
  pub above : ℤ
  pub below : ℤ
  pub twiddle : ℤ

-- `setRatio`; without `center` it keeps what there is, within the new parts
unfoldable pub set_ratio : ℕ → ℕ → Bool → IntegerTwiddler → IntegerTwiddler
set_ratio numer denom center t =
    let above = to_int numer in
    let below = to_int denom in
    let minus_above = pos 0 -ℤ above in
    record {
      above = above;
      below = below;
      twiddle =
          if center
          then quotient (above -ℤ below) 2
          else if ltb_ℤ below t.twiddle
          then below
          else if ltb_ℤ t.twiddle minus_above
          then minus_above
          else t.twiddle;
    }

unfoldable pub freeze : Bool → IntegerTwiddler
freeze on = record { above = pos 0; below = pos 0; twiddle = if on then pos 0 else negsuc 0 }

unfoldable set_divider : ℤ → IntegerTwiddler
unfolding freeze
set_divider rate =
    if not (ltb_ℤ (pos 0) rate)
    then freeze false
    else record { above = pos 1; below = rate; twiddle = quotient (pos 0 -ℤ rate) 2 }

unfoldable pub pwm : IntegerTwiddler → IntegerTwiddler × Bool
pwm t =
    if not (ltb_ℤ t.twiddle (pos 0))
    then (record t { twiddle = t.twiddle -ℤ t.below }, true)
    else (record t { twiddle = t.twiddle +ℤ t.above }, false)

pub record PwmModulator : Type 0 where
  pub twiddler : IntegerTwiddler
  pub quoticks : ℕ

-- its `pwm`, and `quanta` without floating point
unfoldable pub modulate : PwmModulator → PwmModulator × ℕ
unfolding pwm
modulate m =
    let (t, on) = pwm m.twiddler in
    (record m { twiddler = t }, add_u32 m.quoticks (if on then 1 else 0))

unfoldable pub quanta : ℕ → PwmModulator → ℕ
unfolding MiniMath.quanta
quanta chunk m = MiniMath.quanta 32 chunk m.quoticks
