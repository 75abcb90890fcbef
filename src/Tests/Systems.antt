-- ===== src/Tests/Systems.antt =====
-- posix/fdset.cpp, posix/nanoseconds.cpp, cppext/twiddler.cpp, system/gatedsignal.cpp and the `Freezer` of
-- system/storable/storable.cpp at concrete values.
use safely.Prelude.{
  ℕ, suc, ◌+◌, ◌*◌, ◌%◌, ◌≡◌, ◌≢◌, ◌<◌, ◌⊎◌, refl, arith, true, false, some, List, [], ◌∷◌,
  if◌then◌else◌, u32_mod,
}
use safely.Prelude.Int.{pos, negsuc, ◌≤ℤ◌, ◌+ℤ◌}
use safely.FdSet.{make, fd_setsize}
use safely.FdSet.Laws.{Op, add, drop_out, calls, is_member, calls-greatest}
use safely.NanoSeconds
use safely.NanoSeconds.{billion, modulated, minus, plus}
use safely.NanoSeconds.Laws.{modulated_lem, minus-plus, plus_carry}
use safely.Twiddler.{set_ratio, freeze}
use safely.Twiddler.Laws.{pwms, pwms-set_ratio}
use safely.GatedSignal.{GatedSignal, gate, ungate}
use safely.GatedSignal
use safely.GatedSignal.Laws
use safely.GatedSignal.Laws.{sends, gates, ungates, run, Balanced, is_sent, run-gated}
use safely.Storable.Freezing
use safely.Storable.Freezing.{Watchers, thaw, thaw-freeze}

-- 3 and 7 come, 7 goes again, and -1 and 1024 are refused
abbrev script : List Op
script = add (pos 3) ∷ add (pos 7) ∷ add (negsuc 0) ∷ add (pos 1024) ∷ drop_out (pos 7) ∷ []

calls-greatest_example :
    let s = calls script (make (λ n. true)) in
    ((n : ℕ) → s.group n ≡ is_member script n false)
    × ((n : ℕ) → s.group n ≡ true → (pos n ≤ℤ s.maxfd) × (n < fd_setsize))
    × ((s.maxfd ≡ negsuc 0) ⊎ ((n : ℕ) × (s.maxfd ≡ pos n) × (s.group n ≡ true)))
calls-greatest_example = calls-greatest (λ n. true) script

-- two and a half seconds, by one of three quarters
modulated_lem_example :
    (e : ℕ) × (f : ℕ) × (q : ℕ) × (modulated 2500000001
        (NanoSeconds.make (pos 0) (pos 750000000))
        (NanoSeconds.make (pos 2) (pos 500000000))
      ≡ some (NanoSeconds.make (pos e) (pos f), q % u32_mod))
    × (f < billion)
    × (e * billion + f < 0 * billion + 750000000)
    × (q * (0 * billion + 750000000) + (e * billion + f) ≡ 2 * billion + 500000000)
modulated_lem_example =
    modulated_lem 2500000001 2 500000000 0 750000000 (omega arith) (omega arith) (omega arith)
      (omega arith)

minus-plus_example :
    minus
      (plus (NanoSeconds.make (negsuc 4) (pos 999999999)) (NanoSeconds.make (pos 2) (pos 1)))
      (NanoSeconds.make (pos 2) (pos 1))
    ≡ NanoSeconds.make (negsuc 4) (pos 999999999)
minus-plus_example = minus-plus (negsuc 4) (pos 2) 999999999 1 (omega arith) (omega arith)

plus_carry_example :
    let sum = plus (NanoSeconds.make (pos 1) (pos 999999999)) (NanoSeconds.make (pos 2) (pos 1)) in
    (999999999 + 1 ≢ billion → (m : ℕ) × (sum.tv_nsec ≡ pos m) × (m < billion))
    × (999999999 + 1 ≡ billion → sum.tv_nsec ≡ pos billion)
plus_carry_example = plus_carry (pos 1) (pos 2) 999999999 1 (omega arith) (omega arith)

pwms-set_ratio_example :
    let now = (pwms 4 (set_ratio 3 5 true (freeze false))).0 in pwms (3 + 5) now ≡ (now, 3)
pwms-set_ratio_example =
    pwms-set_ratio 4 3 5 (freeze false) (omega arith) (omega arith) (omega arith) (omega arith)

abbrev nested : List GatedSignal.Laws.Op
nested = gates ∷ sends ∷ ungates ∷ sends ∷ []

nested-Balanced : Balanced 0 nested
unfolding Balanced
nested-Balanced = refl

run-gated_example :
    let g = GatedSignal.make in
    ((run nested (gate g)).emitted ≡ g.emitted)
    × (ungate (run nested (gate g))
        ≡ record g { emitted = if is_sent nested then suc g.emitted else g.emitted })
run-gated_example = run-gated nested GatedSignal.make nested-Balanced refl refl

abbrev quiet : Watchers
quiet = record { watchers = GatedSignal.make; childwatchers = GatedSignal.make }

thaw-freeze_example :
    let w' = thaw true true (Freezing.freeze true true quiet) in
    (w'.watchers.gate_counter
      ≡ (if true then quiet.watchers.gate_counter +ℤ pos 1 else quiet.watchers.gate_counter))
    × (w'.childwatchers.gate_counter ≡ (
        if true
        then quiet.childwatchers.gate_counter
        else quiet.childwatchers.gate_counter +ℤ pos 1))
thaw-freeze_example = thaw-freeze true true quiet
