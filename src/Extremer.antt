-- ===== src/Extremer.antt =====
-- cppext/extremer.h: `SimpleExtremer` and `Extremer`, which keep the least or the greatest of the values
-- that they are shown, here of `unsigned` values. The flags are the template's: whether the least is
-- sought, and whether a value equal to the present one is passed over. `Extremer` hands its own last
-- flag on as the second.
pub mod Laws
use safely.Prelude.{ℕ, Bool, true, false, ltb, leb, if◌then◌else◌}
use safely.Index.{bad_index}

pub record SimpleExtremer : Type 0 where
  pub started : Bool
  pub extremum : ℕ

pub record Extremer : Type 0 where
  pub simple : SimpleExtremer
  pub location : ℕ

abbrev pub reset_simple : SimpleExtremer
reset_simple = record { started = false; extremum = 0 }

abbrev pub reset : Extremer
reset = record { simple = reset_simple; location = bad_index }

module _ (negatory prefer_earlier : Bool) where
  -- whether the value is turned down, once one has been seen
  unfoldable refuses : ℕ → ℕ → Bool
  refuses extremum value =
      if negatory
      then (if prefer_earlier then leb extremum value else ltb extremum value)
      else if prefer_earlier
      then leb value extremum
      else ltb value extremum

  unfoldable pub inspect_simple : ℕ → SimpleExtremer → Bool × SimpleExtremer
  unfolding refuses
  inspect_simple value x =
      if x.started
      then (if refuses x.extremum value then (false, x) else (true, record x { extremum = value }))
      else (true, record { started = true; extremum = value })

  unfoldable inspect : ℕ → ℕ → Extremer → Bool × Extremer
  unfolding inspect_simple
  inspect loc value x =
      let (updated, simple) = inspect_simple value x.simple in
      if updated then (true, record { simple = simple; location = loc }) else (false, x)
