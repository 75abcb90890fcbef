-- ===== src/PushedParser/Steps.antt =====
-- cppext/pushedparser.cpp: what each kind of byte does to the span and the quote.
use safely.Prelude.{
  ℕ, ◌+◌, ◌<◌, ◌≡◌, ◌≢◌, refl, arith, true, false, List, [], ◌∷◌, ◌==◌, if◌then◌else◌, get_or,
}
use safely.Index.{bad_index}
use safely.Span
use safely.Span.{Span, cleared}
use safely.Cstr
use safely.PushedParser.{continue, done, Parser, Ruleset, Diag, next, dispatch, apply, include_here}

-- a byte that a token may consist of: no null, no separator, no trimmer, and not the first quoter
pub record IsPlain (rule : Ruleset) (c : ℕ) : Type 0 where
  pub not_null : 0 < c
  pub no_seperator : Cstr.is_present rule.seperators c ≡ false
  pub no_trimmer : Cstr.is_present rule.trimmers c ≡ false
  pub no_quoter : Cstr.index rule.quoters c ≢ 0

abbrev pub AllPlain : Ruleset → List ℕ → Type 0
AllPlain rule [] = Unit {0}
AllPlain rule (c ∷ cs) = IsPlain rule c × AllPlain rule cs

-- what `next` leaves of the parts that the span depends on
pub record Stands (p : Parser) (rule : Ruleset) (span : Span) (end_quote location : ℕ)
    : Type 0 where
  pub same_rule : p.rule ≡ rule
  pub spans : p.span ≡ span
  pub quote : p.end_quote ≡ end_quote
  pub at : p.d.location ≡ location

pub Stands-at :
    (p : Parser) (rule : Ruleset) (span : Span) (quote location : ℕ) {location' : ℕ}
    → Stands p rule span quote location
    → location ≡ location'
    → Stands p rule span quote location'
Stands-at p rule span quote location s e = rw e at s

apply-location : (c : ℕ) (d : Diag) → (apply c d).location ≡ d.location
unfolding apply
apply-location c d = ground arith

dispatch_plain :
    (c : ℕ) (p : Parser)
    → p.end_quote ≡ 0
    → IsPlain p.rule c
    → dispatch c p ≡ (continue, include_here p)
unfolding dispatch
dispatch_plain c p q h = ground (arith, h)

dispatch_seperator :
    (c : ℕ) (p : Parser)
    → p.end_quote ≡ 0
    → 0 < c
    → Cstr.is_present p.rule.seperators c ≡ true
    → dispatch c p ≡ (
      done,
      (if p.span.highest == bad_index
          then record p { span = record { lowest = p.span.lowest; highest = p.d.location } }
          else p),
    )
unfolding dispatch
dispatch_seperator c p q nz h = ground arith

dispatch_opens :
    (c : ℕ) (p : Parser)
    → p.end_quote ≡ 0
    → 0 < c
    → Cstr.is_present p.rule.seperators c ≡ false
    → Cstr.index p.rule.quoters c ≡ 0
    → dispatch c p ≡ (continue, record p { was_quote = c; end_quote = get_or p.rule.quoters 1 0 })
unfolding dispatch
dispatch_opens c p q nz h w = ground arith

dispatch_quoted :
    (c : ℕ) (p : Parser)
    → 0 < p.end_quote
    → 0 < c
    → dispatch c p
      ≡ (continue, (if c == p.end_quote then include_here (record p { end_quote = 0 }) else p))
unfolding dispatch
dispatch_quoted c p q nz = ground arith

-- bytes that may stand between quotes
abbrev pub AllInside : ℕ → List ℕ → Type 0
AllInside quote [] = Unit {0}
AllInside quote (c ∷ cs) = ((0 < c) × (c ≢ quote)) × AllInside quote cs

module _ (rule : Ruleset) where
  pub next_plain :
      (c : ℕ) (p : Parser) (span : Span) (location : ℕ)
      → Stands p rule span 0 location
      → IsPlain rule c
      → location < bad_index
      → Stands (next c p).1 rule (Span.include location span).0 0 (location + 1)
  unfolding next
  next_plain c p span location s h l =
      let p' : Parser = record p { d = apply c p.d } in
      let h' : IsPlain p.rule c = rw s.same_rule h in
      rw (dispatch_plain c p' s.quote h') (record {
        same_rule = s.same_rule;
        spans = rw (apply-location c p.d, s.at, s.spans) refl;
        quote = s.quote;
        at = omega (arith, apply-location c p.d, s.at);
      })

  pub next_seperator :
      (c : ℕ) (p : Parser) (span : Span) (location : ℕ)
      → Stands p rule span 0 location
      → 0 < c
      → Cstr.is_present rule.seperators c ≡ true
      → ((next c p).0 ≡ done)
        × ((next c p).1.span ≡ (
            if span.highest == bad_index
            then record { lowest = span.lowest; highest = location }
            else span))
  unfolding next
  next_seperator c p span location s nz h =
      let p' : Parser = record p { d = apply c p.d } in
      let h' : Cstr.is_present p.rule.seperators c ≡ true = rw s.same_rule h in
      rw (dispatch_seperator c p' s.quote nz h')
        (refl, ground (arith, apply-location c p.d, s.at, s.spans))

  pub next_opens :
      (c : ℕ) (p : Parser) (span : Span) (location : ℕ)
      → Stands p rule span 0 location
      → 0 < c
      → Cstr.is_present rule.seperators c ≡ false
      → Cstr.index rule.quoters c ≡ 0
      → location < bad_index
      → Stands (next c p).1 rule span (get_or rule.quoters 1 0) (location + 1)
  unfolding next
  next_opens c p span location s nz h w l =
      let p' : Parser = record p { d = apply c p.d } in
      let h' : Cstr.is_present p.rule.seperators c ≡ false = rw s.same_rule h in
      let w' : Cstr.index p.rule.quoters c ≡ 0 = rw s.same_rule w in
      rw (dispatch_opens c p' s.quote nz h' w') (record {
        same_rule = s.same_rule;
        spans = s.spans;
        quote = rw s.same_rule;
        at = omega (arith, apply-location c p.d, s.at);
      })

  -- a byte between quotes, and the byte that closes them
  pub next_body :
      (c : ℕ) (p : Parser) (span : Span) (quote location : ℕ)
      → Stands p rule span quote location
      → 0 < c
      → 0 < quote
      → c ≢ quote
      → location < bad_index
      → Stands (next c p).1 rule span quote (location + 1)
  unfolding next
  next_body c p span quote location s nz nq ne l =
      let p' : Parser = record p { d = apply c p.d } in
      let other : (c == p.end_quote) ≡ false = ground (arith, s.quote) in
      rw (dispatch_quoted c p' (omega (arith, s.quote)) nz, other)
        (record {
          same_rule = s.same_rule;
          spans = s.spans;
          quote = s.quote;
          at = omega (arith, apply-location c p.d, s.at);
        })

  pub next_close :
      (p : Parser) (span : Span) (quote location : ℕ)
      → Stands p rule span quote location
      → 0 < quote
      → location < bad_index
      → Stands (next quote p).1 rule (Span.include location span).0 0 (location + 1)
  unfolding next
  next_close p span quote location s nq l =
      let p' : Parser = record p { d = apply quote p.d } in
      let closes : (quote == p.end_quote) ≡ true = ground (arith, s.quote) in
      rw (dispatch_quoted quote p' (omega (arith, s.quote)) nq, closes)
        (record {
          same_rule = s.same_rule;
          spans = rw (apply-location quote p.d, s.at, s.spans) refl;
          quote = refl;
          at = omega (arith, apply-location quote p.d, s.at);
        })
