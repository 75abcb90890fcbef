-- ===== src/PushedParser/Tokens.antt =====
-- cppext/pushedparser.cpp: which part of a text the span of a token covers.
use safely.Prelude.{
  ℕ, zero, suc, ◌+◌, ◌≤◌, ◌<◌, ◌≡◌, refl, arith, true, false, List, [], ◌∷◌, ◌==◌, if◌then◌else◌,
  length, ◌∙◌, get_or, max, ◌⊎◌, inr,
}
use safely.Index.{bad_index}
use safely.Span
use safely.Span.{Span, cleared}
use safely.Cstr
use safely.PushedParser.{done, Parser, Ruleset, next}
use safely.PushedParser.Location.{feed}
use safely.PushedParser.Steps.{
  AllPlain, AllInside, Stands, Stands-at, next_plain, next_seperator, next_opens, next_body,
  next_close,
}

module _ (rule : Ruleset) where
  -- the span after a number of bytes that are each included
  abbrev grow : ℕ → ℕ → Span → Span
  grow location zero span = span
  grow location (suc n) span = grow (location + 1) n (Span.include location span).0

  feed_plain :
      (cs : List ℕ) (p : Parser) (span : Span) (location : ℕ)
      → Stands p rule span 0 location
      → AllPlain rule cs
      → location + length cs ≤ bad_index
      → Stands (feed cs p) rule (grow location (length cs) span) 0 (location + length cs)
  unfolding feed
  feed_plain [] p span location s a l = Stands-at p rule span 0 location s (omega arith)
  feed_plain (c ∷ cs) p span location s a l =
      let step = next_plain rule c p span location s a.0 (omega arith) in
      let rest =
        feed_plain cs (next c p).1 (Span.include location span).0 (location + 1) step a.1
          (omega arith) in
      Stands-at _ rule _ 0 (location + 1 + length cs) rest (omega arith)

  grow_open :
      (n low high location : ℕ)
      → low < location
      → location + n < bad_index
      → (high ≡ bad_index) ⊎ (high < location)
      → grow location (suc n) (record { lowest = low; highest = high })
        ≡ record { lowest = low; highest = location + n }
  unfolding Span.include
  grow_open zero low high location l h k = ground arith
  grow_open (suc n) low high location l h k =
      let once : (Span.include location (record { lowest = low; highest = high })).0
          ≡ record { lowest = low; highest = location } =
        ground arith in
      rw once (
        grow_open n low location (location + 1) (omega arith) (omega arith) (inr (omega arith))
        ∙ ground arith)

  grow-cleared :
      (first : ℕ) (cs : List ℕ)
      → first + length cs + 2 < bad_index
      → (if (grow first (suc (length cs)) cleared).highest == bad_index
          then record {
            lowest = (grow first (suc (length cs)) cleared).lowest;
            highest = first + suc (length cs);
          }
          else grow first (suc (length cs)) cleared)
        ≡ record { lowest = first; highest = first + max 1 (length cs) }
  unfolding Span.include
  grow-cleared first [] l = ground arith
  grow-cleared first (c ∷ cs) l = ground (arith, grow_open (length cs) first bad_index (first + 1))

  include-cleared :
      (m next_at end : ℕ)
      → m < bad_index
      → next_at ≡ m + 1
      → end ≡ m
      → (if (Span.include m cleared).0.highest == bad_index
          then record { lowest = (Span.include m cleared).0.lowest; highest = next_at }
          else (Span.include m cleared).0)
        ≡ record { lowest = end; highest = end + 1 }
  unfolding Span.include
  include-cleared m next_at end l e k = ground arith

  -- A token of plain bytes from a cleared span, at locations below the invalid one, is ended by a
  -- separator, and its span starts at its first byte. It covers a token of one byte; of a longer one
  -- it leaves out the last byte.
  pub unquoted_span :
      (c : ℕ) (cs : List ℕ) (seperator : ℕ) (p : Parser)
      → p.rule ≡ rule
      → p.span ≡ cleared
      → p.end_quote ≡ 0
      → p.d.location + length cs + 2 < bad_index
      → AllPlain rule (c ∷ cs)
      → 0 < seperator
      → Cstr.is_present rule.seperators seperator ≡ true
      → let (action, q) = next seperator (feed (c ∷ cs) p) in
        (action ≡ done)
        × (q.span ≡ record { lowest = p.d.location; highest = p.d.location + max 1 (length cs) })
  unquoted_span c cs seperator p e1 e2 e3 l a nz h =
      let first = p.d.location in
      let s0 : Stands p rule cleared 0 first = record {
        same_rule = e1;
        spans = e2;
        quote = e3;
        at = refl;
      } in
      let s1 = feed_plain (c ∷ cs) p cleared first s0 a (omega arith) in
      let (answer, spans) = next_seperator rule seperator _ _ _ s1 nz h in
      (answer, spans ∙ grow-cleared first cs (omega arith))

  feed_body :
      (body : List ℕ) (p : Parser) (span : Span) (quote location : ℕ)
      → Stands p rule span quote location
      → 0 < quote
      → AllInside quote body
      → location + length body ≤ bad_index
      → Stands (feed body p) rule span quote (location + length body)
  unfolding feed
  feed_body [] p span quote location s nq a l = Stands-at p rule span quote location s (omega arith)
  feed_body (c ∷ cs) p span quote location s nq a l =
      Stands-at _ rule span quote (location + 1 + length cs)
        (feed_body cs (next c p).1 span quote (location + 1)
          (next_body rule c p span quote location s a.0.0 nq a.0.1 (omega arith)) nq a.1
          (omega arith))
        (omega arith)

  -- Of a token in the first pair of quotes that is ended by a separator right behind them, from a
  -- cleared span and at locations below the invalid one, the span covers the closing quote alone,
  -- whatever stands between the quotes.
  pub quoted_span :
      (opening : ℕ) (body : List ℕ) (seperator : ℕ) (p : Parser)
      → p.rule ≡ rule
      → p.span ≡ cleared
      → p.end_quote ≡ 0
      → p.d.location + length body + 3 < bad_index
      → 0 < opening
      → Cstr.is_present rule.seperators opening ≡ false
      → Cstr.index rule.quoters opening ≡ 0
      → 0 < get_or rule.quoters 1 0
      → AllInside (get_or rule.quoters 1 0) body
      → 0 < seperator
      → Cstr.is_present rule.seperators seperator ≡ true
      → let closing = get_or rule.quoters 1 0 in
        let (action, q) = next seperator (next closing (feed (opening ∷ body) p)).1 in
        let end = p.d.location + length body + 1 in
        (action ≡ done) × (q.span ≡ record { lowest = end; highest = end + 1 })
  unfolding feed
  quoted_span opening body seperator p e1 e2 e3 l nz ns w nq a nzs h =
      let s0 : Stands p rule cleared 0 p.d.location = record {
        same_rule = e1;
        spans = e2;
        quote = e3;
        at = refl;
      } in
      let closing = get_or rule.quoters 1 0 in
      let s1 = next_opens rule opening p cleared p.d.location s0 nz ns w (omega arith) in
      let s2 =
        feed_body body (next opening p).1 cleared closing (p.d.location + 1) s1 nq a
          (omega arith) in
      let m = p.d.location + 1 + length body in
      let s3 =
        next_close rule (feed body (next opening p).1) cleared closing m s2 nq (omega arith) in
      let (answer, spans) =
        next_seperator rule seperator _ (Span.include m cleared).0 (m + 1) s3 nzs h in
      (
        answer,
        spans
            ∙ include-cleared m (m + 1) (p.d.location + length body + 1) (omega arith) (omega arith)
                (omega arith),
      )
