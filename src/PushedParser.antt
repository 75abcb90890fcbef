-- ===== src/PushedParser.antt =====
-- cppext/pushedparser.h and pushedparser.cpp: `PushedParser`, which is fed a text one byte at a time and
-- tells where a token ends. The location goes up by one after each byte, on every path.
pub mod Location
pub mod Steps
pub mod Tokens
use safely.Prelude.{
  ℕ, ◌+◌, ◌-◌, Bool, true, false, not, ◌&&◌, List, [], ◌∷◌, ltb, ◌==◌, if◌then◌else◌, add_u32,
  sub_u32, get_or,
}
use safely.Index.{bad_index, is_valid}
use safely.Span
use safely.Span.{Span, cleared}
use safely.Cstr

-- `Ruleset`; the bytes of its strings
pub record Ruleset : Type 0 where
  pub seperators : List ℕ
  pub null_is_seperator : Bool
  pub trimmers : List ℕ
  pub quoters : List ℕ

abbrev pub typical_csv : Ruleset
typical_csv = record {
  seperators = b',' ∷ b'\n' ∷ [];
  null_is_seperator = true;
  trimmers = b' ' ∷ b'\t' ∷ b'\r' ∷ b'\n' ∷ [];
  quoters = b'"' ∷ b'"' ∷ b'\'' ∷ b'\'' ∷ [];
}

abbrev typical_tab : Ruleset
typical_tab = record {
  seperators = b'\t' ∷ b'\n' ∷ [];
  null_is_seperator = true;
  trimmers = b' ' ∷ b'\r' ∷ b'\n' ∷ [];
  quoters = b'"' ∷ b'"' ∷ b'\'' ∷ b'\'' ∷ [];
}

abbrev eg_calculator : Ruleset
eg_calculator = record {
  seperators = b',' ∷ b'+' ∷ b'-' ∷ b'=' ∷ b'/' ∷ b'*' ∷ b'^' ∷ b'%' ∷ b'\n' ∷ [];
  null_is_seperator = true;
  trimmers = b' ' ∷ b'\t' ∷ b'\r' ∷ b'\n' ∷ [];
  quoters = b'[' ∷ b']' ∷ b'{' ∷ b'}' ∷ b'(' ∷ b')' ∷ [];
}

pub data Action : Type 0 where
  continue illegal done : Action

-- `Diag`
pub record Diag : Type 0 where
  pub location : ℕ
  pub row : ℕ
  pub column : ℕ
  pub last : ℕ

abbrev pub reset_diag : Diag
reset_diag = record { location = 0; row = 0; column = 0; last = 0 }

unfoldable pub apply : ℕ → Diag → Diag
apply pushed d =
    if pushed == b'\n'
    then record d { last = pushed; column = 1; row = add_u32 d.row 1 }
    else record d { last = pushed; column = add_u32 d.column 1 }

unfoldable shift_diag : ℕ → Diag → Diag
shift_diag offset d = record d {
  location = sub_u32 d.location offset;
  column = if ltb offset d.column then d.column - offset else 0;
}

-- the state; 0 stands for no quote
pub record Parser : Type 0 where
  pub rule : Ruleset
  pub span : Span
  pub end_quote : ℕ
  pub was_quote : ℕ
  pub d : Diag

unfoldable pub reset : Bool → Parser → Parser
reset fully p = record p {
  span = cleared;
  end_quote = 0;
  was_quote = 0;
  d = if fully then reset_diag else p.d;
}

unfoldable pub shift : ℕ → Parser → Parser
unfolding Span.shift shift_diag
shift offset p = record p { span = Span.shift offset p.span; d = shift_diag offset p.d }

-- `endValue`
unfoldable end_value : Parser → Action × Parser
end_value p = (
  done,
  (if is_valid p.span.lowest && not (is_valid p.span.highest)
      then record p { span = record { lowest = p.span.lowest; highest = p.d.location } }
      else p),
)

-- `span.include(d.location)`
abbrev include_here : Parser → Parser
include_here p = record p { span = (Span.include p.d.location p.span).0 }

-- `which != BadIndex && !which & 1`, where `!` binds before `&`
unfoldable pub opens_quote : ℕ → Bool
opens_quote which = not (which == bad_index) && which == 0

-- `next`, behind the bookkeeping of the location
unfoldable pub dispatch : ℕ → Parser → Action × Parser
unfolding end_value opens_quote Span.include
dispatch pushed p =
    let which = Cstr.index p.rule.quoters pushed in
    if pushed == 0
    then (if ltb 0 p.end_quote
        then (illegal, p)
        else if p.rule.null_is_seperator
        then end_value p
        else (illegal, p))
    else if ltb 0 p.end_quote
    then (
      continue,
      (if pushed == p.end_quote then include_here (record p { end_quote = 0 }) else p),
    )
    else if Cstr.is_present p.rule.seperators pushed
    then (
      done,
      (if p.span.highest == bad_index
          then record p { span = record { lowest = p.span.lowest; highest = p.d.location } }
          else p),
    )
    else if opens_quote which
    then (
      continue,
      record p { was_quote = pushed; end_quote = get_or p.rule.quoters (which + 1) 0 },
    )
    else (continue, (if Cstr.is_present p.rule.trimmers pushed then p else include_here p))

-- the end of the scope of `IncrementOnExit`
abbrev pub advance : Parser → Parser
advance p = record p { d = record (p.d) { location = add_u32 p.d.location 1 } }

unfoldable pub next : ℕ → Parser → Action × Parser
unfolding apply
next pushed p =
    let (action, p') = dispatch pushed (record p { d = apply pushed p.d }) in (action, advance p')
