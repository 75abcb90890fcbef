-- ===== src/Cycler.antt =====
-- cppext/cycler.h and cycler.cpp: `Cycler`, a counter modulo a length. The state is the length, which no
-- operation changes, and the value. An `int` is the `unsigned` that has the same bits.
pub mod Laws
use safely.Prelude.{
  ℕ, zero, suc, ◌+◌, ◌-◌, ◌%◌, ◌^◌, Bool, true, false, Option, none, some, ltb, leb, ◌==◌,
  if◌then◌else◌, add_u32, sub_u32, u32_mod,
}
use mathlib.Core.Option
use safely.Index.{bad_index}

pub record Cycler : Type 0 where
  pub length : ℕ
  pub value : ℕ

-- `while (value < 0) value += length;`, on fuel
unfoldable raise_negative : ℕ → ℕ → ℕ → Option ℕ
raise_negative zero length value = none
raise_negative (suc fuel) length value =
    let rest = raise_negative fuel length (add_u32 value length) in
    if leb (2 ^ 31) value then rest else some value

-- `while (value > length) value += length;`, on fuel; the comparison is of `unsigned` values
unfoldable wrap_back : ℕ → ℕ → ℕ → Option ℕ
wrap_back zero length value = none
wrap_back (suc fuel) length value =
    let rest = wrap_back fuel length (add_u32 value length) in
    if ltb length value then rest else some value

-- `unwrap`; the remainder is that of the bits as an `unsigned`
unfoldable unwrap : ℕ → ℕ → ℕ → Option ℕ
unfolding raise_negative wrap_back
unwrap fuel length value =
    if length == 0 then some bad_index else elim (raise_negative fuel length (value % length)) [
      | none ↦ none
      | some raised ↦ wrap_back fuel length raised
    ]

unfoldable make : ℕ → Cycler
make length = record { length = length; value = if length == 0 then bad_index else 0 }

unfoldable contains : Cycler → ℕ → Bool
contains c index = if c.length == 0 then false else ltb index c.length

-- `operator =`
unfoldable assign : ℕ → ℕ → Cycler → Option Cycler
unfolding unwrap
assign fuel force c = Option.map (λ v. record c { value = v }) (unwrap fuel c.length force)

-- `increment`, and `++` before use
unfoldable increment : Cycler → Cycler
increment c =
    let bumped = add_u32 c.value 1 in
    if ltb 0 c.length then record c { value = if leb c.length bumped then 0 else bumped } else c

-- `decrement`, and `--` before use
unfoldable decrement : Cycler → Cycler
decrement c =
    if ltb 0 c.length
    then record c { value = (if c.value == 0 then c.length else c.value) - 1 }
    else c

-- `next`: whether a new cycle starts
unfoldable next : Cycler → Bool × Cycler
unfolding increment
next c = let c' = increment c in (c'.value == 0, c')

unfoldable reset : Cycler → Cycler
reset c = record c { value = if c.length == 0 then bad_index else 0 }

unfoldable preset : Cycler → Cycler
preset c = record c { value = if c.length == 0 then bad_index else c.length - 1 }

-- `operator +` and `-`, of the bits of an offset
pub plus : ℕ → Cycler → ℕ → Option ℕ
unfolding unwrap
plus fuel c offset = unwrap fuel c.length (add_u32 c.value offset)

pub minus : ℕ → Cycler → ℕ → Option ℕ
unfolding unwrap
minus fuel c offset = unwrap fuel c.length (sub_u32 c.value offset)

-- `operator +=`
unfoldable advance : ℕ → ℕ → Cycler → Option Cycler
unfolding assign
advance fuel offset c = assign fuel (add_u32 c.value offset) c

-- `++` and `--` after use: the value before
unfoldable post_increment : Cycler → ℕ × Cycler
unfolding increment
post_increment c = (c.value, increment c)

unfoldable post_decrement : Cycler → ℕ × Cycler
unfolding decrement
post_decrement c = (c.value, decrement c)
