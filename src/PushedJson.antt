-- ===== src/PushedJson.antt =====
-- cppext/pushedjsonparser.h and pushedjsonparser.cpp: `PushedJSON::Parser`, which turns the tokens of a
-- `PushedParser` into the events of a JSON text, and the `Stats` of its users.
pub mod Events
pub mod Names
pub mod Depth
use safely.Prelude.{
  ℕ, ◌+◌, ◌-◌, Bool, true, false, not, List, [], ◌∷◌, ◌==◌, ltb, if◌then◌else◌, add_u32, sub_u32,
}
use safely.Span
use safely.Span.{Span, cleared}
use safely.PushedParser
use safely.PushedParser.{continue, illegal, done}
use safely.Extremer
use safely.Extremer.{SimpleExtremer, reset_simple}

-- `PushedJSON::Action`
pub data Action : Type 0 where
  go_on bad end_item begin_wad end_wad finished : Action

-- The flags are the fields of `Rules`; the rules of the base class are in its own record.
pub record Parser : Type 0 where
  pub base : PushedParser.Parser
  pub semicomma : Bool
  pub equalscolon : Bool
  pub have_name : Bool
  pub name : Span
  pub quoted_name : Bool
  pub ordered_wad : Bool
  pub value : Span

-- what the constructor assigns to the rules of the base class
abbrev pub json_rules : PushedParser.Ruleset
json_rules = record {
  seperators = b':' ∷ b'{' ∷ b',' ∷ b'}' ∷ b'[' ∷ b']' ∷ b'\n' ∷ [];
  null_is_seperator = true;
  trimmers = b' ' ∷ b'\t' ∷ b'\r' ∷ [];
  quoters = b'"' ∷ b'"' ∷ b'\'' ∷ b'\'' ∷ [];
}

unfoldable pub item_completed : Parser → Parser
unfolding PushedParser.reset
item_completed p = record p {
  have_name = false;
  quoted_name = false;
  name = cleared;
  value = cleared;
  base = PushedParser.reset false p.base;
}

unfoldable reset : Bool → Parser → Parser
unfolding PushedParser.reset item_completed
reset fully p = item_completed (record p { base = PushedParser.reset fully p.base })

unfoldable shift : ℕ → Parser → Parser
unfolding Span.shift PushedParser.shift
shift offset p = record p {
  name = if p.have_name then Span.shift offset p.name else p.name;
  base = PushedParser.shift offset p.base;
}

-- the constructor, on a record whose fields that it does not set are those given
pub make : Parser → Parser
unfolding reset
make p = reset true (record p {
  semicomma = false;
  equalscolon = false;
  base = record (p.base) { rule = json_rules };
})

-- `recordName`: whether there was no name yet
unfoldable pub record_name : Parser → Bool × Parser
unfolding Span.take
record_name p =
    let (taken, left) = Span.take p.value in
    if p.have_name then (false, p) else (
      true,
      record p {
        name = taken;
        value = left;
        quoted_name = not (p.base.was_quote == 0);
        have_name = true;
      },
    )

-- the case of a colon
unfoldable on_colon : Parser → Action × Parser
unfolding record_name
on_colon p = let (named, p') = record_name p in if named then (go_on, p') else (bad, p')

-- the switch on the byte that ended a token
unfoldable on_done : Parser → Action × Parser
unfolding on_colon
on_done p =
    let last = p.base.d.last in
    if last == b'='
    then (if p.equalscolon
        then on_colon
            (record p { base = record (p.base) { d = record (p.base.d) { last = b':' } } })
        else (bad, p))
    else if last == b':'
    then on_colon p
    else if last == b'['
    then (begin_wad, record p { ordered_wad = true })
    else if last == b'{'
    then (begin_wad, record p { ordered_wad = false })
    else if last == b']'
    then (end_wad, record p { ordered_wad = true })
    else if last == b'}'
    then (end_wad, record p { ordered_wad = false })
    else if last == b';'
    then ((if p.semicomma then end_item else bad), p)
    else if last == b','
    then (end_item, p)
    else if last == b'\n'
    then (end_item, p)
    else if last == 0
    then (end_item, p)
    else (bad, p)

-- the switch on the answer of the base class
unfoldable on_action : PushedParser.Action → Parser → Action × Parser
unfolding on_done
on_action continue p = (go_on, p)
on_action illegal p = (bad, p)
on_action done p = on_done p

unfoldable pub next : ℕ → Parser → Action × Parser
unfolding on_action PushedParser.next
next pushed p =
    let (action, base') = PushedParser.next pushed p.base in
    on_action action (record p { base = base' })

pub record Stats : Type 0 where
  pub total_nodes : ℕ
  pub total_scalar : ℕ
  pub max_depth : SimpleExtremer
  pub nested : ℕ

abbrev pub reset_stats : Stats
reset_stats = record { total_nodes = 0; total_scalar = 0; max_depth = reset_simple; nested = 0 }

-- `nest`, and what the constructor of a `DepthTracker` does; the extremer is
-- `SimpleExtremer<unsigned, true, false>`
unfoldable pub nest : Stats → Stats
unfolding Extremer.inspect_simple
nest s =
    let nested = add_u32 s.nested 1 in
    record s {
      nested = nested;
      max_depth = (Extremer.inspect_simple true false nested s.max_depth).1;
    }

unfoldable pub popnest : Stats → Stats
popnest s = record s { nested = sub_u32 s.nested 1 }

unfoldable pub on_node : Bool → Stats → Stats
on_node scalar s = record s {
  total_nodes = add_u32 s.total_nodes 1;
  total_scalar = if scalar then add_u32 s.total_scalar 1 else s.total_scalar;
}
