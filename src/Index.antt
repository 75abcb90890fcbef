-- ===== src/Index.antt =====
-- cppext/index.h: an array index, a 32-bit unsigned whose all-ones value marks "no index".
-- An `Index` holds the one field `raw`, so it is that number; an operation that assigns `raw`
-- returns the new value, beside its result where the two differ.
pub mod Laws
use Prim.Native.Nat.{bit_and}
use safely.Prelude.{
  ℕ, zero, suc, ◌+◌, ◌-◌, ◌%◌, ◌^◌, Bool, true, false, not, ◌&&◌, Option, none, some, ltb, leb,
  ◌==◌, if◌then◌else◌, u32_mod, add_u32, sub_u32,
}

abbrev pub Index : Type 0
Index = ℕ

-- `BadIndex`, and `BadLength`, which has the same value
abbrev pub bad_index : Index
bad_index = 2 ^ 32 - 1

abbrev pub is_valid : Index → Bool
is_valid raw = not (raw == bad_index)

unfoldable pub is_odd : Index → Bool
is_odd raw = is_valid raw && bit_and raw 1 == 1

-- `in` and `has`
unfoldable is_in : Index → Index → Bool
is_in raw limit = ltb raw limit

unfoldable has : Index → Index → Bool
has raw other = ltb other raw

-- `operator +=`; the new value and the result are the same, but for an invalid index
unfoldable pub add_assign : Index → ℕ → Index
add_assign raw other = if is_valid raw then add_u32 raw other else bad_index

-- `operator -=`
unfoldable pub sub_assign : Index → ℕ → Index
sub_assign raw other =
    if is_valid raw then (if leb other raw then raw - other else bad_index) else bad_index

-- `operator ++` and `--`, before or after: these wrap
unfoldable increment : Index → Index
increment raw = add_u32 raw 1

unfoldable decrement : Index → Index
decrement raw = sub_u32 raw 1

unfoldable pub up : Index → ℕ → Index
up raw more = if is_valid raw then add_u32 raw more else more

unfoldable pub depress : Index → Index → Index
depress raw other =
    if is_valid raw then (if is_valid other && ltb other raw then other else raw) else other

-- `elevate(unsigned)`: the new value, and whether it was assigned
unfoldable elevate_to : Index → ℕ → Index × Bool
elevate_to raw other = if is_valid raw && leb other raw then (raw, false) else (other, true)

-- `elevate(Index)`
unfoldable pub elevate : Index → Index → Index × Bool
elevate raw other =
    if is_valid raw
    then (if is_valid other && ltb raw other then (other, true) else (raw, false))
    else (other, true)

-- `take(unsigned)`: the new value and the result. It calls itself with its own value, so the
-- recursion is on fuel, and `none` is the call that has not returned.
pub take_some : ℕ → Index → ℕ → Option (Index × ℕ)
take_some zero raw how_many = none
take_some (suc fuel) raw how_many =
    let again = take_some fuel raw raw in
    if ltb how_many raw
    then some (raw - how_many, how_many)
    else if how_many == bad_index
    then some (raw, bad_index)
    else again

-- `take()`
unfoldable take_all : ℕ → Index → Option (Index × ℕ)
take_all fuel raw = take_some fuel raw raw
