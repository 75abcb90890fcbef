-- ===== src/PushedJson/Names.antt =====
-- cppext/pushedjsonparser.cpp: what becomes of the names of the items.
use safely.Prelude.{ℕ, ◌≡◌, refl, arith, Bool, List, [], ◌∷◌}
use safely.Span.{cleared}
use safely.PushedParser
use safely.PushedJson.{Parser, next, item_completed, shift, reset, on_action, on_done, make}

-- The calls that a user makes of a parser.
pub data Call : Type 0 where
  push_byte : ℕ → Call
  complete : Call
  shift_by : ℕ → Call
  reset_to : Bool → Call

abbrev call : Call → Parser → Parser
call (push_byte c) p = (next c p).1
call complete p = item_completed p
call (shift_by n) p = shift n p
call (reset_to fully) p = reset fully p

pub calls : List Call → Parser → Parser
calls [] p = p
calls (c ∷ cs) p = calls cs (call c p)

-- no span for a value, and none for a name
abbrev pub Nameless : Parser → Type 0
Nameless p = (p.value ≡ cleared) × (p.name ≡ cleared)

on_done-Nameless : (p : Parser) → Nameless p → Nameless (on_done p).1
unfolding on_done
on_done-Nameless p h = ground arith

on_action-Nameless :
    (a : PushedParser.Action) (p : Parser) → Nameless p → Nameless (on_action a p).1
unfolding on_action
on_action-Nameless PushedParser.continue p h = h
on_action-Nameless PushedParser.illegal p h = h
on_action-Nameless PushedParser.done p h = on_done-Nameless p h

call-Nameless : (c : Call) (p : Parser) → Nameless p → Nameless (call c p)
unfolding next shift item_completed reset
call-Nameless (push_byte c) p h =
    let (action, base') = PushedParser.next c p.base in
    on_action-Nameless action (record p { base = base' }) h
call-Nameless complete p h = (refl, refl)
call-Nameless (shift_by n) p h = ground arith
call-Nameless (reset_to fully) p h = (refl, refl)

calls_keep_Nameless : (cs : List Call) (p : Parser) → Nameless p → Nameless (calls cs p)
unfolding calls
calls_keep_Nameless [] p h = h
calls_keep_Nameless (c ∷ cs) p h = calls_keep_Nameless cs (call c p) (call-Nameless c p h)

-- Whatever bytes a new parser is fed, and however its user completes items, shifts it and resets it in
-- between, the span of the name is the cleared one: no name is ever located, since nothing assigns the
-- span of the value that it is taken from.
pub calls-Nameless : (cs : List Call) (p : Parser) → Nameless (calls cs (make p))
calls-Nameless cs p = calls_keep_Nameless cs (make p) (unfold make in (refl, refl))
