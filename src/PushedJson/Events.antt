-- ===== src/PushedJson/Events.antt =====
-- cppext/pushedjsonparser.cpp: which event answers which byte.
use safely.Prelude.{
  ap, ◌∙◌, ℕ, ◌≡◌, ◌≢◌, ◌||◌, refl, arith, Bool, true, false, List, [], ◌∷◌, ◌==◌, if◌then◌else◌,
}
use safely.Cstr
use safely.PushedParser
use safely.PushedJson.{
  Action, go_on, bad, end_item, begin_wad, end_wad, Parser, json_rules, next, on_action,
}

-- The event of a byte outside quotes, by whether the item has a name; and whether it then has one.
unfoldable event : ℕ → Bool → Action × Bool
event c named =
    if c == b':'
    then ((if named then bad else go_on), true)
    else if c == b'[' || c == b'{'
    then (begin_wad, named)
    else if c == b']' || c == b'}'
    then (end_wad, named)
    else if c == b',' || (c == b'\n' || c == 0)
    then (end_item, named)
    else (go_on, named)

unfoldable pub events : List ℕ → Bool → List Action
unfolding event
events [] named = []
events (c ∷ cs) named = let (a, named') = event c named in a ∷ events cs named'

-- the answers of a parser to the bytes of a text
pub answers : List ℕ → Parser → List Action
answers [] p = []
answers (c ∷ cs) p = let (a, p') = next c p in a ∷ answers cs p'

-- a parser with the rules of the constructor, no quote open, and a name or none
pub record Outside (p : Parser) (named : Bool) : Type 0 where
  pub rules : p.base.rule ≡ json_rules
  pub no_quote : p.base.end_quote ≡ 0
  pub has_name : p.have_name ≡ named

-- the bytes that end a token under the rules of the constructor
abbrev ends : ℕ → Bool
ends c =
    c == b':'
    || (c == b'{' || (c == b',' || (c == b'}' || (c == b'[' || (c == b']' || c == b'\n')))))

is_present-ends : (c : ℕ) → Cstr.is_present json_rules.seperators c ≡ ends c
unfolding Cstr.is_present
is_present-ends c = ground arith

index-opens_quote :
    (c : ℕ) → c ≢ b'"' → PushedParser.opens_quote (Cstr.index json_rules.quoters c) ≡ false
unfolding Cstr.index PushedParser.opens_quote
index-opens_quote c h = ground arith

-- what the tokenizer answers, and what it leaves
record Answers (c : ℕ) (p : PushedParser.Parser) (r : PushedParser.Action × PushedParser.Parser)
    : Type 0 where
  pub answer : r.0 ≡ (
      if c == 0 || Cstr.is_present p.rule.seperators c
      then PushedParser.done
      else PushedParser.continue)
  pub same_rule : r.1.rule ≡ p.rule
  pub no_quote : r.1.end_quote ≡ 0
  pub same_last : r.1.d.last ≡ p.d.last

dispatch-Answers :
    (c : ℕ) (p : PushedParser.Parser)
    → p.end_quote ≡ 0
    → p.rule.null_is_seperator ≡ true
    → PushedParser.opens_quote (Cstr.index p.rule.quoters c) ≡ false
    → Answers c p (PushedParser.dispatch c p)
unfolding PushedParser.dispatch
dispatch-Answers c p q n o = record {
  answer = ground arith;
  same_rule = ground arith;
  no_quote = ground arith;
  same_last = ground arith;
}

-- what an answer of the tokenizer comes to, once the byte is known
on_action-event :
    (c : ℕ) (p : Parser) (named : Bool)
    → p.base.d.last ≡ c
    → p.have_name ≡ named
    → let r = on_action (if c == 0 || ends c then PushedParser.done else PushedParser.continue) p in
      (r.0 ≡ (event c named).0) × (r.1.have_name ≡ (event c named).1) × (r.1.base ≡ p.base)
unfolding on_action event
on_action-event c p named l h = ground arith

next-Outside :
    (c : ℕ) (p : Parser) (named : Bool)
    → c ≢ b'"'
    → Outside p named
    → ((next c p).0 ≡ (event c named).0) × Outside (next c p).1 (event c named).1
unfolding next PushedParser.next
next-Outside c p named h o =
    let b : PushedParser.Parser = record (p.base) { d = PushedParser.apply c p.base.d } in
    let quotes : PushedParser.opens_quote (Cstr.index b.rule.quoters c) ≡ false =
      rw o.rules (index-opens_quote c h) in
    let nulls : b.rule.null_is_seperator ≡ true = rw o.rules in
    let a = dispatch-Answers c b o.no_quote nulls quotes in
    let told : (PushedParser.dispatch c b).0
        ≡ (if c == 0 || ends c then PushedParser.done else PushedParser.continue) =
      a.answer ∙ rw (o.rules, is_present-ends c) in
    let base' = PushedParser.advance (PushedParser.dispatch c b).1 in
    let last_is : base'.d.last ≡ c = a.same_last ∙ (unfold PushedParser.apply in ground arith) in
    let e = on_action-event c (record p { base = base' }) named last_is o.has_name in
    rw told (
      e.0,
      record {
        rules = ap (λ (x : PushedParser.Parser). x.rule) e.2 ∙ a.same_rule ∙ o.rules;
        no_quote = ap (λ (x : PushedParser.Parser). x.end_quote) e.2 ∙ a.no_quote;
        has_name = e.1;
      },
    )

abbrev NoQuote : List ℕ → Type 0
NoQuote [] = Unit {0}
NoQuote (c ∷ cs) = (c ≢ b'"') × NoQuote cs

-- Fed a text without the double quote, byte by byte, a parser with the rules of its constructor answers
-- by a table: braces and brackets begin and end a wad; comma, newline and null end an item; a colon is
-- let pass where it gives the item its first name, and is illegal after that; any other byte goes on.
-- The flags for semicolons and equals signs make no difference.
pub answers-events :
    (cs : List ℕ) (p : Parser) (named : Bool)
    → NoQuote cs
    → Outside p named
    → answers cs p ≡ events cs named
unfolding answers events
answers-events [] p named n o = refl
answers-events (c ∷ cs) p named n o =
    let (a, o') = next-Outside c p named n.0 o in
    rw (a, answers-events cs (next c p).1 (event c named).1 n.1 o')
