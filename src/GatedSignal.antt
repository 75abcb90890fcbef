-- ===== src/GatedSignal.antt =====
-- system/gatedsignal.h and gatedsignal.cpp: a signal that is held back while gates are closed.
--
-- What is connected to the signal does nothing to it, so that the number of emissions stands for the calls.
-- The counter is an integer, whose overflow is undefined in the source.
pub mod Laws
use safely.Prelude.{ℕ, suc, ◌+◌, Bool, true, false, not, ltb, if◌then◌else◌}
use safely.Prelude.Int.{ℤ, pos, equal, ◌+ℤ◌, ◌-ℤ◌}

pub record GatedSignal : Type 0 where
  pub gate_counter : ℤ
  pub do_emit : Bool
  pub emitted : ℕ

abbrev pub make : GatedSignal
make = record { gate_counter = pos 0; do_emit = false; emitted = 0 }

abbrev emit : GatedSignal → GatedSignal
emit g = record g { emitted = suc g.emitted }

unfoldable pub send : GatedSignal → GatedSignal
send g = if equal g.gate_counter (pos 0) then emit g else record g { do_emit = true }

-- `gate`, which is the constructor of `Freezer`
unfoldable pub gate : GatedSignal → GatedSignal
gate g = record g { gate_counter = g.gate_counter +ℤ pos 1 }

-- `ungate`, which is the destructor of `Freezer`
unfoldable pub ungate : GatedSignal → GatedSignal
ungate g =
    let opened = record g { gate_counter = g.gate_counter -ℤ pos 1 } in
    let taken = record opened { do_emit = false } in
    if equal opened.gate_counter (pos 0)
    then (if opened.do_emit then emit taken else taken)
    else opened

unfoldable pub kill : GatedSignal → GatedSignal
kill g = record g { gate_counter = pos 0; do_emit = false }
