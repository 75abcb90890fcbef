-- ===== src/AbstractJson.antt =====
-- cppext/abstractjsonparser.h: the recursive user of the pushed JSON parser, and the constructor of the
-- values, whose methods are virtual and so an interface here.
--
-- A value is at an address, where 0 is null. The calls of a method within itself are on fuel, and `none` is
-- a call that has not returned.
pub mod Keeping
pub mod Laws
use mathlib.Core.Option
use safely.Prelude.{
  ℕ, zero, suc, Bool, true, false, not, ◌&&◌, ◌||◌, Option, none, some, List, [], ◌∷◌, ◌==◌,
  if◌then◌else◌,
}
use safely.Span
use safely.Span.{Span}
use safely.PushedParser.{Diag}
use safely.PushedJson
use safely.PushedJson.{
  Action, go_on, bad, end_item, begin_wad, end_wad, finished, Parser, Stats, item_completed, nest,
  popnest, on_node,
}

-- `JsonConstructor`, without its source of bytes; `begin_ordered` and `end_children` are what the parser
-- assigns to the fields of a value
pub record JsonConstructor {ℓ} (S : Type ℓ) : Type ℓ where
  pub root : S → ℕ
  pub extract : Span → S → List ℕ
  pub apply_to_child : ℕ → List ℕ → Bool → List ℕ → Bool → S → S × ℕ
  pub exclaim : Diag → S → S
  pub begin_ordered : ℕ → S → S
  pub end_children : ℕ → S → S

-- `AbstractJSONparser`, with the flag and the bytes to come of its constructor, and whether a member of the
-- null pointer was read; what follows on such a read is not the source's
pub record AbstractJsonParser {ℓ} (S : Type ℓ) : Type ℓ where
  pub core : S
  pub rest : List ℕ
  pub treat_root_special : Bool
  pub stats : Stats
  pub parser : Parser
  pub read_null : Bool

module _ {ℓ} {S : Type ℓ} (c : JsonConstructor S) where
  -- `assembleItem`
  unfoldable pub assemble_item : ℕ → Bool → AbstractJsonParser S → AbstractJsonParser S × ℕ
  unfolding item_completed on_node Span.empty
  assemble_item parent even_if_empty j =
      let p = j.parser in
      let have_value = not (p.base.was_quote == 0) || not (Span.empty p.value) in
      let name = if p.have_name then c.extract p.name j.core else [] in
      let value = c.extract p.value j.core in
      let (core, nova) =
        c.apply_to_child parent name have_value value (not (p.base.was_quote == 0)) j.core in
      if even_if_empty || have_value
      then (
        record j { core = core; stats = on_node have_value j.stats; parser = item_completed p },
        nova,
      )
      else (record j { parser = item_completed p }, 0)

  -- what an opening brace makes: the value itself for the first brace of the root, or else a child
  unfoldable pub begin_child : ℕ → AbstractJsonParser S → AbstractJsonParser S × ℕ
  unfolding assemble_item
  begin_child parent j =
      let is_root = parent == c.root j.core in
      let taken = if is_root then record j { treat_root_special = false } else j in
      let (j', nova) =
        if is_root && j.treat_root_special
        then (taken, parent)
        else assemble_item parent true taken in
      if j'.parser.ordered_wad && not (nova == 0)
      then (record j' { core = c.begin_ordered nova j'.core }, nova)
      else (j', nova)

  -- a closing brace: the value is read before it is compared with null
  unfoldable pub end_child : ℕ → AbstractJsonParser S → AbstractJsonParser S
  unfolding assemble_item
  end_child parent j =
      let j' = (assemble_item parent false j).0 in
      let reads = not j'.parser.ordered_wad && parent == 0 in
      let read = record j' { read_null = j'.read_null || reads } in
      if parent == 0 then read else record read { core = c.end_children parent read.core }

  -- the report of a byte that is out of place
  unfoldable pub noted : Action → AbstractJsonParser S → AbstractJsonParser S
  noted bad j = record j { core = c.exclaim (j.parser.base.d) j.core }
  noted go_on j = j
  noted end_item j = j
  noted begin_wad j = j
  noted end_wad j = j
  noted finished j = j

  -- the switch of `parseChild`: the loop goes on, or the method returns
  unfoldable pub on_event :
      (ℕ → AbstractJsonParser S → Option (AbstractJsonParser S))
      → ℕ
      → Action
      → Option (AbstractJsonParser S × Bool)
      → AbstractJsonParser S
      → Option (AbstractJsonParser S × Bool)
  unfolding begin_child end_child assemble_item
  on_event kids parent begin_wad later j =
      let (j', nova) = begin_child parent j in Option.map (λ k. (k, true)) (kids nova j')
  on_event kids parent end_item later j = some ((assemble_item parent false j).0, true)
  on_event kids parent end_wad later j = some (end_child parent j, false)
  on_event kids parent finished later j = some (end_child parent j, false)
  on_event kids parent bad later j = later
  on_event kids parent go_on later j = later

  -- what is left to do where no byte is left
  unfoldable pub at_end : Action → ℕ → AbstractJsonParser S → AbstractJsonParser S
  unfolding assemble_item
  at_end end_item parent j = (assemble_item parent false j).0
  at_end go_on parent j = j
  at_end bad parent j = j
  at_end begin_wad parent j = j
  at_end end_wad parent j = j
  at_end finished parent j = j

  unfoldable pub finish : ℕ → AbstractJsonParser S → AbstractJsonParser S × Bool
  unfolding at_end PushedJson.next
  finish parent j =
      let (finial, p) = PushedJson.next 0 j.parser in
      (at_end finial parent (record j { parser = p }), false)

  -- the loop of `parseChild`, over the bytes to come, with the loop over the children of a child
  unfoldable pub scan :
      (ℕ → AbstractJsonParser S → Option (AbstractJsonParser S))
      → ℕ
      → List ℕ
      → AbstractJsonParser S
      → Option (AbstractJsonParser S × Bool)
  unfolding on_event finish noted PushedJson.next
  scan kids parent [] j = some (finish parent j)
  scan kids parent (pushed ∷ rest) j =
      let (action, p) = PushedJson.next pushed j.parser in
      let j' = noted action (record j { rest = rest; parser = p }) in
      on_event kids parent action (scan kids parent rest j') j'

  unfoldable pub parse_child :
      (ℕ → AbstractJsonParser S → Option (AbstractJsonParser S))
      → ℕ
      → AbstractJsonParser S
      → Option (AbstractJsonParser S × Bool)
  unfolding scan nest popnest
  parse_child kids parent j =
      Option.map
        (λ (r : AbstractJsonParser S × Bool). (record (r.0) { stats = popnest (r.0.stats) }, r.1))
        (scan kids parent j.rest (record j { stats = nest j.stats }))

  -- the loop over the children of a child
  unfoldable pub parse_children : ℕ → ℕ → AbstractJsonParser S → Option (AbstractJsonParser S)
  unfolding parse_child
  parse_children zero parent j = none
  parse_children (suc fuel) parent j =
      Option.bind (parse_child (parse_children fuel) parent j) λ (r : AbstractJsonParser S × Bool).
        let again = parse_children fuel parent r.0 in if r.1 then again else some r.0

  unfoldable pub parse : ℕ → AbstractJsonParser S → Option (AbstractJsonParser S)
  unfolding parse_child parse_children
  parse zero j = none
  parse (suc fuel) j =
      Option.bind (parse_child (parse_children fuel) (c.root j.core) j)
        λ (r : AbstractJsonParser S × Bool).
          let again = parse fuel r.0 in if r.1 then again else some r.0
