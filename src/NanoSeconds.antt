-- ===== src/NanoSeconds.antt =====
-- posix/nanoseconds.h and nanoseconds.cpp: a time in seconds and nanoseconds, as `timespec` holds it.
--
-- Both counts are integers, whose overflow is undefined in the source. The conversions from and to `double`,
-- and the calls of `nanosleep`, are not modelled.
pub mod Laws
use safely.Prelude.{
  ℕ, zero, suc, ◌+◌, ◌-◌, ◌*◌, ◌/◌, ◌%◌, Bool, true, false, not, ◌&&◌, ◌||◌, Option, none, some,
  ltb, leb, ◌==◌, if◌then◌else◌, add_u32, u32_mod,
}
use safely.Prelude.Int.{ℤ, pos, negsuc, ltb_ℤ, equal, to_u32, quotient, ◌+ℤ◌, ◌-ℤ◌, ◌*ℤ◌}

abbrev pub billion : ℕ
billion = 1000000000

abbrev pub one_meg : ℕ
one_meg = 1000000

pub record NanoSeconds : Type 0 where
  pub tv_sec : ℤ
  pub tv_nsec : ℤ

-- `NanoSeconds(Seconds_t, Nanos_t)`, and the assignment of an integer
abbrev pub make : ℤ → ℤ → NanoSeconds
make seconds nanos = record { tv_sec = seconds; tv_nsec = nanos }

unfoldable pub assign : ℤ → NanoSeconds
assign seconds = record { tv_sec = quotient seconds billion; tv_nsec = seconds }

-- `seconds(rounder)`: the comparison binds weaker than the sum, so that what it gives is a truth value
unfoldable pub seconds : ℤ → NanoSeconds → ℤ
seconds rounder t =
    if ltb_ℤ (t.tv_sec +ℤ (t.tv_nsec +ℤ rounder)) (pos billion) then pos 0 else pos 1

unfoldable pub set_millis : ℕ → NanoSeconds
set_millis ms = record { tv_sec = pos (ms / 1000); tv_nsec = pos (ms % 1000 * one_meg) }

abbrev pub is_zero : NanoSeconds → Bool
is_zero t = equal t.tv_sec (pos 0) && equal t.tv_nsec (pos 0)

-- `signabs` without the absolute value
abbrev pub signabs : NanoSeconds → ℤ
signabs t = if ltb_ℤ t.tv_sec (pos 0) then negsuc 0 else if is_zero t then pos 0 else pos 1

unfoldable pub ms : NanoSeconds → ℕ
ms t =
    if not (ltb_ℤ (pos 0) (signabs t))
    then 0
    else add_u32 (to_u32 (t.tv_sec *ℤ pos 1000))
        (to_u32 (quotient (t.tv_nsec +ℤ pos 999999) one_meg))

-- `us`, in the fields of a `MicroSeconds`
unfoldable us : ℕ → NanoSeconds → ℕ × ℕ
us rounder t = (to_u32 t.tv_sec, to_u32 (quotient (t.tv_nsec +ℤ pos rounder) 1000))

unfoldable pub minus : NanoSeconds → NanoSeconds → NanoSeconds
minus t lesser =
    let nanos = t.tv_nsec -ℤ lesser.tv_nsec in
    let secs = t.tv_sec -ℤ lesser.tv_sec in
    if ltb_ℤ nanos (pos 0)
    then record { tv_sec = secs -ℤ pos 1; tv_nsec = nanos +ℤ pos billion }
    else record { tv_sec = secs; tv_nsec = nanos }

unfoldable pub plus : NanoSeconds → NanoSeconds → NanoSeconds
plus t lesser =
    let nanos = t.tv_nsec +ℤ lesser.tv_nsec in
    let secs = t.tv_sec +ℤ lesser.tv_sec in
    if ltb_ℤ (pos billion) nanos
    then record { tv_sec = secs +ℤ pos 1; tv_nsec = nanos -ℤ pos billion }
    else record { tv_sec = secs; tv_nsec = nanos }

-- `operator >`, `>=` and `==`; `<` and `<=` are these with the sides exchanged
abbrev pub is_after : NanoSeconds → NanoSeconds → Bool
is_after t that =
    ltb_ℤ that.tv_sec t.tv_sec || (equal t.tv_sec that.tv_sec && ltb_ℤ that.tv_nsec t.tv_nsec)

abbrev pub is_from : NanoSeconds → NanoSeconds → Bool
is_from t that =
    ltb_ℤ that.tv_sec t.tv_sec || (equal t.tv_sec that.tv_sec && not (ltb_ℤ t.tv_nsec that.tv_nsec))

abbrev pub is_same : NanoSeconds → NanoSeconds → Bool
is_same t that = equal t.tv_nsec that.tv_nsec && equal t.tv_sec that.tv_sec

-- the loop of `modulated`, and `modulated`: what remains, and the cycles
unfoldable pub modulate : ℕ → NanoSeconds → ℕ → NanoSeconds → Option (NanoSeconds × ℕ)
unfolding minus
modulate zero interval cycles t = none
modulate (suc fuel) interval cycles t =
    let rest = modulate fuel interval (add_u32 cycles 1) (minus t interval) in
    if is_from t interval then rest else some (t, cycles)

unfoldable pub modulated : ℕ → NanoSeconds → NanoSeconds → Option (NanoSeconds × ℕ)
unfolding modulate
modulated fuel interval t = if is_zero interval then some (t, 0) else modulate fuel interval 0 t

abbrev never : NanoSeconds
never = record { tv_sec = negsuc 0; tv_nsec = negsuc 0 }

abbrev is_never : NanoSeconds → Bool
is_never t = equal t.tv_sec (negsuc 0) && equal t.tv_nsec (negsuc 0)

abbrev in_future : NanoSeconds → Bool
in_future t = ltb_ℤ (pos 0) t.tv_sec || (equal t.tv_sec (pos 0) && ltb_ℤ (pos 0) t.tv_nsec)

unfoldable at_least : NanoSeconds → NanoSeconds → NanoSeconds
at_least other t = if is_after other t then other else if is_never t then other else t

unfoldable pub at_most : NanoSeconds → NanoSeconds → NanoSeconds
at_most other t = if is_never t then other else if is_after t other then other else t
