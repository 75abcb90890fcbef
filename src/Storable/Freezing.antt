-- ===== src/Storable/Freezing.antt =====
-- system/storable/storable.cpp: `Freezer`, which holds back what a node tells its watchers and those of its
-- children, as long as it exists.
use safely.Prelude.{◌≡◌, refl, ◌∙◌, ap, arith, Bool, true, false, if◌then◌else◌}
use safely.Prelude.Int.{pos, ◌+ℤ◌, ◌-ℤ◌, int_laws}
use safely.GatedSignal.{GatedSignal, gate, ungate}

-- the two signals of a node
pub record Watchers : Type 0 where
  pub watchers : GatedSignal
  pub childwatchers : GatedSignal

unfoldable freeze_node : Bool → Bool → Watchers → Watchers
unfolding gate
freeze_node children_too only_children w = record {
  watchers = if only_children then w.watchers else gate w.watchers;
  childwatchers = if children_too then gate w.childwatchers else w.childwatchers;
}

-- the constructor, which hands neither of its flags on, and the destructor
unfoldable pub freeze : Bool → Bool → Watchers → Watchers
unfolding freeze_node
freeze children_too only_children w = freeze_node true false w

unfoldable pub thaw : Bool → Bool → Watchers → Watchers
unfolding ungate
thaw children_too only_children w = record {
  watchers = if only_children then w.watchers else ungate w.watchers;
  childwatchers = if children_too then ungate w.childwatchers else w.childwatchers;
}

gate_counter-gate : (g : GatedSignal) → (gate g).gate_counter ≡ g.gate_counter +ℤ pos 1
unfolding gate
gate_counter-gate g = refl

gate_counter-ungate : (g : GatedSignal) → (ungate g).gate_counter ≡ g.gate_counter -ℤ pos 1
unfolding ungate
gate_counter-ungate g = ground arith

gate_counter-ungate-gate : (g : GatedSignal) → (ungate (gate g)).gate_counter ≡ g.gate_counter
gate_counter-ungate-gate g =
    let back : g.gate_counter +ℤ pos 1 -ℤ pos 1 ≡ g.gate_counter = omega int_laws in
    gate_counter-ungate (gate g) ∙ ap (λ n. n -ℤ pos 1) (gate_counter-gate g) ∙ back

-- When a `Freezer` is gone again, the gate of the node's own watchers is as it was, unless the `Freezer` was
-- for the children only; and that of the watchers of its children, only if it was for the children too.
-- Otherwise one gate more is closed, and nothing opens it.
pub thaw-freeze :
    (children_too only_children : Bool) (w : Watchers)
    → let w' = thaw children_too only_children (freeze children_too only_children w) in
      (w'.watchers.gate_counter
        ≡ (if only_children then w.watchers.gate_counter +ℤ pos 1 else w.watchers.gate_counter))
      × (w'.childwatchers.gate_counter ≡ (
          if children_too
          then w.childwatchers.gate_counter
          else w.childwatchers.gate_counter +ℤ pos 1))
unfolding thaw freeze
thaw-freeze true true w = (gate_counter-gate w.watchers, gate_counter-ungate-gate w.childwatchers)
thaw-freeze true false w =
    (gate_counter-ungate-gate w.watchers, gate_counter-ungate-gate w.childwatchers)
thaw-freeze false true w = (gate_counter-gate w.watchers, gate_counter-gate w.childwatchers)
thaw-freeze false false w = (gate_counter-ungate-gate w.watchers, gate_counter-gate w.childwatchers)
