-- ===== src/AbstractJson/Laws.antt =====
-- cppext/abstractjsonparser.h: the parser ends, on any bytes.
use mathlib.Core.Option
use safely.Prelude.{
  ℕ, zero, suc, ◌+◌, ◌≤◌, ◌<◌, ◌≡◌, ◌≢◌, refl, ap, ◌∙◌, arith, Bool, true, false, Option, some,
  List, [], ◌∷◌, if◌then◌else◌, length, u32_mod, sub_u32, Bool-cases, inl, inr,
}
use safely.PushedJson
use safely.PushedJson.{
  Action, go_on, bad, end_item, begin_wad, end_wad, finished, Stats, nest, popnest, on_node,
}
use safely.AbstractJson.{
  JsonConstructor, AbstractJsonParser, assemble_item, begin_child, end_child, noted, on_event,
  finish, scan, parse_child, parse_children, parse,
}
use safely.AbstractJson.Keeping.{
  HasNoNull, assemble_item-Kept, begin_child-Kept, begin_child-real, end_child-Kept, noted-Kept,
  finish-Kept,
}

module _ {ℓ} {S : Type ℓ} (c : JsonConstructor S) where
  -- A call that returns, with no more bytes to come than a number, the same depth and the same reads.
  abbrev Returns : ℕ → ℕ → Bool → Option (AbstractJsonParser S) → Type ℓ
  Returns most nested read o =
      (j' : AbstractJsonParser S) × (o ≡ some j')
      × (length j'.rest ≤ most)
      × (j'.stats.nested ≡ nested)
      × (j'.read_null ≡ read)

  abbrev Answers : ℕ → ℕ → Bool → Option (AbstractJsonParser S × Bool) → Type ℓ
  Answers most nested read o =
      (j' : AbstractJsonParser S) × (more : Bool) × (o ≡ some (j', more))
      × (length j'.rest ≤ most)
      × (j'.stats.nested ≡ nested)
      × (j'.read_null ≡ read)

  on_event-Answers :
      (kids : ℕ → AbstractJsonParser S → Option (AbstractJsonParser S)) (parent : ℕ)
      (action : Action) (later : Option (AbstractJsonParser S × Bool)) (j : AbstractJsonParser S)
      → HasNoNull c
      → parent ≢ 0
      → ((nova : ℕ) (k : AbstractJsonParser S)
          → nova ≢ 0
          → length k.rest ≤ length j.rest
          → k.stats.nested ≡ j.stats.nested
          → Returns (length k.rest) k.stats.nested k.read_null (kids nova k))
      → Answers (length j.rest) j.stats.nested j.read_null later
      → Answers (length j.rest) j.stats.nested j.read_null (on_event c kids parent action later j)
  unfolding on_event
  on_event-Answers kids parent begin_wad later j m r h a =
      let k = begin_child-Kept c parent j in
      let (j', nova) = begin_child c parent j in
      let same = ap length k.rest in
      let (i, e, short, deep, read) =
        h (begin_child c parent j).1 (begin_child c parent j).0 (begin_child-real c parent j m r)
          (omega arith) k.nested in
      (i, true, rw e refl, omega arith, deep ∙ k.nested, read ∙ k.read)
  on_event-Answers kids parent end_item later j m r h a =
      let k = assemble_item-Kept c parent false j in
      let same = ap length k.rest in
      ((assemble_item c parent false j).0, true, refl, omega arith, k.nested, k.read)
  on_event-Answers kids parent end_wad later j m r h a =
      let k = end_child-Kept c parent j r in
      let same = ap length k.rest in
      (end_child c parent j, false, refl, omega arith, k.nested, k.read)
  on_event-Answers kids parent finished later j m r h a =
      let k = end_child-Kept c parent j r in
      let same = ap length k.rest in
      (end_child c parent j, false, refl, omega arith, k.nested, k.read)
  on_event-Answers kids parent bad later j m r h a = a
  on_event-Answers kids parent go_on later j m r h a = a

  -- A method over the children that returns where there are fewer bytes to come than a number.
  abbrev Bounded : ℕ → (ℕ → AbstractJsonParser S → Option (AbstractJsonParser S)) → Type ℓ
  Bounded fuel kids =
      (nova : ℕ) (k : AbstractJsonParser S)
      → nova ≢ 0
      → length k.rest < fuel
      → k.stats.nested < u32_mod
      → Returns (length k.rest) k.stats.nested k.read_null (kids nova k)

  at_most : {n m : ℕ} (b : Bool) → n < m → n + (if b then 1 else 0) ≤ m
  at_most true h = omega arith
  at_most false h = omega arith

  scan-Answers :
      (fuel : ℕ) (kids : ℕ → AbstractJsonParser S → Option (AbstractJsonParser S)) (parent : ℕ)
      (rest : List ℕ) (j : AbstractJsonParser S)
      → HasNoNull c
      → parent ≢ 0
      → Bounded fuel kids
      → j.rest ≡ rest
      → length rest ≤ fuel
      → j.stats.nested < u32_mod
      → (j' : AbstractJsonParser S) × (more : Bool) × (scan c kids parent rest j ≡ some (j', more))
        × (length j'.rest + (if more then 1 else 0) ≤ length rest)
        × (j'.stats.nested ≡ j.stats.nested)
        × (j'.read_null ≡ j.read_null)
  unfolding scan
  scan-Answers fuel kids parent [] j m r b e h w =
      let k = finish-Kept c parent j in
      ((finish c parent j).0, false, refl, omega (arith, ap length (k.rest ∙ e)), k.nested, k.read)
  scan-Answers fuel kids parent (pushed ∷ rest) j m r b e h w =
      let (action, p) = PushedJson.next pushed j.parser in
      let k = noted-Kept c action (record j { rest = rest; parser = p }) in
      let j1 = noted c action (record j { rest = rest; parser = p }) in
      let (i, more, later, short, deep, read) =
        scan-Answers fuel kids parent rest j1 m r b k.rest (omega arith)
          (omega (arith, k.nested)) in
      let here = ap length k.rest in
      let (a, again, ends, left, kept, reads) =
        on_event-Answers kids parent action (scan c kids parent rest j1) j1 m r
          (λ nova i' real l n. b nova i' real (omega arith) (omega (arith, k.nested)))
          (i, more, later, omega arith, deep, read) in
      (a, again, ends, at_most again (omega arith), kept ∙ k.nested, reads ∙ k.read)

  parse_child-Answers :
      (fuel : ℕ) (kids : ℕ → AbstractJsonParser S → Option (AbstractJsonParser S)) (parent : ℕ)
      (j : AbstractJsonParser S)
      → HasNoNull c
      → parent ≢ 0
      → Bounded fuel kids
      → length j.rest ≤ fuel
      → j.stats.nested < u32_mod
      → (j' : AbstractJsonParser S) × (more : Bool) × (parse_child c kids parent j
          ≡ some (j', more))
        × (length j'.rest + (if more then 1 else 0) ≤ length j.rest)
        × (j'.stats.nested ≡ j.stats.nested)
        × (j'.read_null ≡ j.read_null)
  unfolding parse_child nest popnest
  parse_child-Answers fuel kids parent j m r b h w =
      let (i, more, ends, short, deep, read) =
        scan-Answers fuel kids parent j.rest (record j { stats = nest j.stats }) m r b refl h
          (omega arith) in
      (
        record i { stats = popnest i.stats },
        more,
        rw ends refl,
        short,
        ap (λ n. sub_u32 n 1) deep ∙ omega arith,
        read,
      )

  parse_children_step :
      (fuel nova : ℕ) (j i : AbstractJsonParser S) (more : Bool)
      → parse_child c (parse_children c fuel) nova j ≡ some (i, more)
      → parse_children c (suc fuel) nova j ≡ (if more then parse_children c fuel nova i else some i)
  unfolding parse_children Option.bind
  parse_children_step fuel nova j i more e = rw e refl

  parse_step :
      (fuel : ℕ) (j i : AbstractJsonParser S) (more : Bool)
      → parse_child c (parse_children c fuel) (c.root j.core) j ≡ some (i, more)
      → parse c (suc fuel) j ≡ (if more then parse c fuel i else some i)
  unfolding parse Option.bind
  parse_step fuel j i more e = rw e refl

  fewer :
      {n m fuel : ℕ} (b : Bool) → n + (if b then 1 else 0) ≤ m → m < suc fuel → b ≡ true → n < fuel
  fewer true h k e = omega arith
  fewer false h k e = absurd cc

  no_more : {n m : ℕ} (b : Bool) → n + (if b then 1 else 0) ≤ m → n ≤ m
  no_more true h = omega arith
  no_more false h = omega arith

  parse_children-Bounded : HasNoNull c → (fuel : ℕ) → Bounded fuel (parse_children c fuel)
  parse_children-Bounded m zero nova j r h w = absurd (omega arith)
  parse_children-Bounded m (suc fuel) nova j r h w =
      let (i, more, ends, short, deep, read) =
        parse_child-Answers fuel (parse_children c fuel) nova j m r (parse_children-Bounded m fuel)
          (omega arith) w in
      let step = parse_children_step fuel nova j i more ends in
      let short' = no_more more short in
      elim (Bool-cases more) [
        | inl on ↦
            let (k, rest, less, kept, reads) =
              parse_children-Bounded m fuel nova i r (fewer more short h on)
                (omega (arith, deep)) in
            (k, step ∙ rw on rest, omega arith, kept ∙ deep, reads ∙ read)
        | inr off ↦ (i, step ∙ rw off refl, short', deep, read)
      ]

  -- `parse` ends, with one round more than there are bytes to come, whatever they are, where the root of
  -- the constructor is not null and no child that it makes is; the depth, which is below 2^32, is as
  -- before, no byte was put back, and no member of the null pointer was read.
  pub parse_lem :
      (fuel : ℕ) (j : AbstractJsonParser S)
      → HasNoNull c
      → length j.rest < fuel
      → j.stats.nested < u32_mod
      → (j' : AbstractJsonParser S) × (parse c fuel j ≡ some j')
        × (length j'.rest ≤ length j.rest)
        × (j'.stats.nested ≡ j.stats.nested)
        × (j'.read_null ≡ j.read_null)
  parse_lem zero j m h w = absurd (omega arith)
  parse_lem (suc fuel) j m h w =
      let (i, more, ends, short, deep, read) =
        parse_child-Answers fuel (parse_children c fuel) (c.root j.core) j m (m.root_real j.core)
          (parse_children-Bounded m fuel) (omega arith) w in
      let step = parse_step fuel j i more ends in
      let short' = no_more more short in
      elim (Bool-cases more) [
        | inl on ↦
            let (k, rest, less, kept, reads) =
              parse_lem fuel i m (fewer more short h on) (omega (arith, deep)) in
            (k, step ∙ rw on rest, omega arith, kept ∙ deep, reads ∙ read)
        | inr off ↦ (i, step ∙ rw off refl, short', deep, read)
      ]
