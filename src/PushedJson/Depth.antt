-- ===== src/PushedJson/Depth.antt =====
-- cppext/pushedjsonparser.cpp: what `Stats` says of the depth.
use safely.Prelude.{◌≡◌, ◌≤◌, arith, Bool, true, List, [], ◌∷◌}
use safely.Extremer.{inspect_simple}
use safely.PushedJson.{Stats, reset_stats, nest, popnest, on_node}

pub data Report : Type 0 where
  opened closed : Report
  node : Bool → Report

unfoldable report : Report → Stats → Stats
report opened s = nest s
report closed s = popnest s
report (node scalar) s = on_node scalar s

pub reports : List Report → Stats → Stats
unfolding report
reports [] s = s
reports (r ∷ rs) s = reports rs (report r s)

-- a depth of at most one has been seen
record IsShallow (s : Stats) : Type 0 where
  pub seen : s.max_depth.started ≡ true
  pub at_most : s.max_depth.extremum ≤ 1

report-IsShallow : (r : Report) (s : Stats) → IsShallow s → IsShallow (report r s)
unfolding report nest popnest on_node inspect_simple
report-IsShallow opened s h = record { seen = ground (arith, h); at_most = ground (arith, h) }
report-IsShallow closed s h = record { seen = h.seen; at_most = h.at_most }
report-IsShallow (node scalar) s h = record { seen = h.seen; at_most = h.at_most }

reports-IsShallow : (rs : List Report) (s : Stats) → IsShallow s → IsShallow (reports rs s)
unfolding reports
reports-IsShallow [] s h = h
reports-IsShallow (r ∷ rs) s h = reports-IsShallow rs (report r s) (report-IsShallow r s h)

-- However deep the braces nest after the first, the depth that `Stats` gives as the greatest is at
-- most one: the extremer that it uses keeps the least.
pub reports_depth : (rs : List Report) → (reports (opened ∷ rs) reset_stats).max_depth.extremum ≤ 1
unfolding reports
reports_depth rs =
    let first : IsShallow (nest reset_stats) = record {
      seen = unfold nest in ground arith;
      at_most = unfold nest in ground arith;
    } in
    (reports-IsShallow rs (nest reset_stats) first).at_most
