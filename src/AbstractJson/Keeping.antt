-- ===== src/AbstractJson/Keeping.antt =====
-- cppext/abstractjsonparser.h: what the parts of `parseChild` leave of the bytes to come, of the depth and
-- of what was read of the null pointer.
use safely.Span
use safely.Prelude.{
  ◌≢◌, ◌||◌, List, [], ℕ, ◌≡◌, refl, ◌∙◌, arith, Bool, true, false, not, ◌&&◌, ◌==◌, if◌then◌else◌,
}
use safely.PushedJson
use safely.PushedJson.{
  Action, go_on, bad, end_item, begin_wad, end_wad, finished, Stats, nest, popnest, on_node,
}
use safely.AbstractJson.{
  JsonConstructor, AbstractJsonParser, assemble_item, begin_child, end_child, noted, at_end, finish,
}

module _ {ℓ} {S : Type ℓ} (c : JsonConstructor S) where
  -- A constructor with no null pointers: its root is none, and no child that it makes.
  pub record HasNoNull : Type ℓ where
    pub root_real : (s : S) → c.root s ≢ 0
    pub child_real :
        (parent : ℕ) (name : List ℕ) (have_value : Bool) (value : List ℕ) (value_quoted : Bool)
        (s : S)
        → (c.apply_to_child parent name have_value value value_quoted s).1 ≢ 0

  -- Two states with the same bytes to come, the same depth and the same reads of the null pointer.
  pub record Kept (j j' : AbstractJsonParser S) : Type ℓ where
    pub rest : j'.rest ≡ j.rest
    pub nested : j'.stats.nested ≡ j.stats.nested
    pub read : j'.read_null ≡ j.read_null

  pub assemble_item-Kept :
      (parent : ℕ) (even : Bool) (j : AbstractJsonParser S)
      → Kept j (assemble_item c parent even j).0
  unfolding assemble_item on_node
  assemble_item-Kept parent even j = record {
    rest = ground arith;
    nested = ground arith;
    read = ground arith;
  }

  Kept-trans : {i j k : AbstractJsonParser S} → Kept i j → Kept j k → Kept i k
  Kept-trans x y = record {
    rest = y.rest ∙ x.rest;
    nested = y.nested ∙ x.nested;
    read = y.read ∙ x.read;
  }

  Kept-if :
      (b : Bool) {j : AbstractJsonParser S} (x y : AbstractJsonParser S × ℕ)
      → Kept j x.0
      → Kept j y.0
      → Kept j (if b then x else y).0
  Kept-if true x y k l = k
  Kept-if false x y k l = l

  pub begin_child-Kept : (parent : ℕ) (j : AbstractJsonParser S) → Kept j (begin_child c parent j).0
  unfolding begin_child
  begin_child-Kept parent j =
      let is_root = parent == c.root j.core in
      let taken = if is_root then record j { treat_root_special = false } else j in
      let same : Kept j taken = record {
        rest = ground arith;
        nested = ground arith;
        read = ground arith;
      } in
      let made =
        if is_root && j.treat_root_special
        then (taken, parent)
        else assemble_item c parent true taken in
      let first =
        Kept-if (is_root && j.treat_root_special) (taken, parent)
          (assemble_item c parent true taken) same
          (Kept-trans same (assemble_item-Kept parent true taken)) in
      Kept-if (made.0.parser.ordered_wad && not (made.1 == 0))
        (record (made.0) { core = c.begin_ordered made.1 made.0.core }, made.1) made
        (record { rest = first.rest; nested = first.nested; read = first.read }) first

  pub end_child-Kept :
      (parent : ℕ) (j : AbstractJsonParser S) → parent ≢ 0 → Kept j (end_child c parent j)
  unfolding end_child
  end_child-Kept parent j real =
      let k = assemble_item-Kept parent false j in
      record {
        rest = ground (arith, k.rest, real);
        nested = ground (arith, k.nested, real);
        read = ground (arith, k.read, real);
      }

  real_if :
      (b : Bool) (x y : AbstractJsonParser S × ℕ) → x.1 ≢ 0 → y.1 ≢ 0 → (if b then x else y).1 ≢ 0
  real_if true x y k l = k
  real_if false x y k l = l

  pub begin_child-real :
      (parent : ℕ) (j : AbstractJsonParser S)
      → HasNoNull
      → parent ≢ 0
      → (begin_child c parent j).1 ≢ 0
  unfolding begin_child assemble_item
  begin_child-real parent j h real =
      let is_root = parent == c.root j.core in
      let taken = if is_root then record j { treat_root_special = false } else j in
      let p = taken.parser in
      let have_value = not (p.base.was_quote == 0) || not (Span.empty p.value) in
      let name = if p.have_name then c.extract p.name taken.core else [] in
      let child =
        h.child_real parent name have_value (c.extract p.value taken.core)
          (not (p.base.was_quote == 0)) taken.core in
      let made =
        if is_root && j.treat_root_special
        then (taken, parent)
        else assemble_item c parent true taken in
      let first =
        real_if (is_root && j.treat_root_special) (taken, parent)
          (assemble_item c parent true taken) real child in
      real_if (made.0.parser.ordered_wad && not (made.1 == 0))
        (record (made.0) { core = c.begin_ordered made.1 made.0.core }, made.1) made first first

  pub noted-Kept : (action : Action) (j : AbstractJsonParser S) → Kept j (noted c action j)
  unfolding noted
  noted-Kept bad j = record { rest = refl; nested = refl; read = refl }
  noted-Kept go_on j = record { rest = refl; nested = refl; read = refl }
  noted-Kept end_item j = record { rest = refl; nested = refl; read = refl }
  noted-Kept begin_wad j = record { rest = refl; nested = refl; read = refl }
  noted-Kept end_wad j = record { rest = refl; nested = refl; read = refl }
  noted-Kept finished j = record { rest = refl; nested = refl; read = refl }

  at_end-Kept :
      (action : Action) (parent : ℕ) (j : AbstractJsonParser S) → Kept j (at_end c action parent j)
  unfolding at_end
  at_end-Kept end_item parent j = assemble_item-Kept parent false j
  at_end-Kept go_on parent j = record { rest = refl; nested = refl; read = refl }
  at_end-Kept bad parent j = record { rest = refl; nested = refl; read = refl }
  at_end-Kept begin_wad parent j = record { rest = refl; nested = refl; read = refl }
  at_end-Kept end_wad parent j = record { rest = refl; nested = refl; read = refl }
  at_end-Kept finished parent j = record { rest = refl; nested = refl; read = refl }

  pub finish-Kept : (parent : ℕ) (j : AbstractJsonParser S) → Kept j (finish c parent j).0
  unfolding finish
  finish-Kept parent j =
      let (finial, p) = PushedJson.next 0 j.parser in
      let k = at_end-Kept finial parent (record j { parser = p }) in
      record { rest = k.rest; nested = k.nested; read = k.read }
