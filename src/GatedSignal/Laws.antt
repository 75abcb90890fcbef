-- ===== src/GatedSignal/Laws.antt =====
-- system/gatedsignal.cpp: what is sent behind closed gates, and when it is emitted.
use safely.Prelude.{
  ℕ, zero, suc, ◌≡◌, refl, sym, subst, ap, ◌∙◌, arith, Bool, true, false, ◌||◌, List, [], ◌∷◌,
  if◌then◌else◌,
}
use safely.Prelude.Int.{pos, equal, ◌+ℤ◌, ◌-ℤ◌, int_laws}
use safely.GatedSignal.{GatedSignal, send, gate, ungate}

pub data Op : Type 0 where
  sends : Op
  gates : Op
  ungates : Op

abbrev step : Op → GatedSignal → GatedSignal
step sends g = send g
step gates g = gate g
step ungates g = ungate g

unfoldable pub run : List Op → GatedSignal → GatedSignal
run [] g = g
run (op ∷ ops) g = run ops (step op g)

-- Calls that open no gate which they have not closed, and leave none closed, with some closed at first.
unfoldable pub Balanced : ℕ → List Op → Type 0
Balanced depth [] = depth ≡ 0
Balanced depth (sends ∷ ops) = Balanced depth ops
Balanced depth (gates ∷ ops) = Balanced (suc depth) ops
Balanced zero (ungates ∷ ops) = ⊥
Balanced (suc depth) (ungates ∷ ops) = Balanced depth ops

unfoldable pub is_sent : List Op → Bool
is_sent [] = false
is_sent (sends ∷ ops) = true
is_sent (gates ∷ ops) = is_sent ops
is_sent (ungates ∷ ops) = is_sent ops

abbrev closed : ℕ → Bool → ℕ → GatedSignal
closed depth waiting emitted = record {
  gate_counter = pos depth;
  do_emit = waiting;
  emitted = emitted;
}

send-closed : (d n : ℕ) (w : Bool) → send (closed (suc d) w n) ≡ closed (suc d) true n
unfolding send
send-closed d n w = let test : equal (pos (suc d)) (pos 0) ≡ false = ground arith in rw test refl

gate-closed : (d n : ℕ) (w : Bool) → gate (closed d w n) ≡ closed (suc d) w n
unfolding gate
gate-closed d n w = let more : pos d +ℤ pos 1 ≡ pos (suc d) = omega int_laws in rw more refl

ungate-closed : (d n : ℕ) (w : Bool) → ungate (closed (suc (suc d)) w n) ≡ closed (suc d) w n
unfolding ungate
ungate-closed d n w =
    let less : pos (suc (suc d)) -ℤ pos 1 ≡ pos (suc d) = omega int_laws in
    let test : equal (pos (suc d)) (pos 0) ≡ false = ground arith in rw less (rw test refl)

ungate_last : (n : ℕ) (w : Bool) → ungate (closed 1 w n) ≡ closed 0 false (if w then suc n else n)
unfolding ungate
ungate_last n true = let less : pos 1 -ℤ pos 1 ≡ pos 0 = omega int_laws in rw less (ground arith)
ungate_last n false = let less : pos 1 -ℤ pos 1 ≡ pos 0 = omega int_laws in rw less (ground arith)

waits_too : (w b : Bool) → (true || b) ≡ (w || true)
waits_too true b = refl
waits_too false b = refl

or_false : (w : Bool) → w ≡ (w || false)
or_false true = refl
or_false false = refl

run-Balanced :
    (ops : List Op) (d n : ℕ) (w : Bool)
    → Balanced d ops
    → run ops (closed (suc d) w n) ≡ closed 1 (w || is_sent ops) n
unfolding run Balanced is_sent
run-Balanced [] d n w h = ap (λ k. closed (suc k) w n) h ∙ ap (λ b. closed 1 b n) (or_false w)
run-Balanced (sends ∷ ops) d n w h =
    rw (send-closed d n w)
      (run-Balanced ops d n true h ∙ ap (λ b. closed 1 b n) (waits_too w (is_sent ops)))
run-Balanced (gates ∷ ops) d n w h = rw (gate-closed (suc d) n w) (run-Balanced ops (suc d) n w h)
run-Balanced (ungates ∷ ops) zero n w h = absurd h
run-Balanced (ungates ∷ ops) (suc d) n w h = rw (ungate-closed d n w) (run-Balanced ops d n w h)

run-closed :
    (ops : List Op) (n : ℕ)
    → Balanced 0 ops
    → ((run ops (gate (closed 0 false n))).emitted ≡ n)
      × (ungate (run ops (gate (closed 0 false n)))
          ≡ closed 0 false (if is_sent ops then suc n else n))
run-closed ops n h =
    let ends : run ops (gate (closed 0 false n)) ≡ closed 1 (is_sent ops) n =
      rw (gate-closed 0 n false) (run-Balanced ops 0 n false h) in
    rw ends (refl, ungate_last n (is_sent ops))

-- Between a `gate` of a signal that is open and idle, and the `ungate` that goes with it, nothing is
-- emitted, whatever is sent and whatever gates are closed and opened again; with that `ungate` the signal
-- is emitted once if anything was sent, and otherwise not, and is open and idle again.
pub run-gated :
    (ops : List Op) (g : GatedSignal)
    → Balanced 0 ops
    → g.gate_counter ≡ pos 0
    → g.do_emit ≡ false
    → ((run ops (gate g)).emitted ≡ g.emitted)
      × (ungate (run ops (gate g))
          ≡ record g { emitted = if is_sent ops then suc g.emitted else g.emitted })
run-gated ops g h none_closed idle =
    let same : g ≡ closed 0 false g.emitted = ground arith in
    subst
      (λ i.
        ((run ops (gate i)).emitted ≡ i.emitted)
        × (ungate (run ops (gate i))
            ≡ record i { emitted = if is_sent ops then suc i.emitted else i.emitted }))
      (sym same) (run-closed ops g.emitted h)
