-- ===== src/PushedParser/Location.antt =====
-- cppext/pushedparser.cpp: the location, the row and the column that the parser reports.
use safely.Prelude.{
  ℕ, ◌+◌, ◌%◌, ◌<◌, ◌≡◌, refl, ap, arith, List, [], ◌∷◌, ◌==◌, if◌then◌else◌, u32_mod, length,
  add_u32, ◌∙◌,
}
use safely.PushedParser.{Parser, Diag, next, dispatch, apply}

-- a text fed to the parser, whatever it answers
unfoldable pub feed : List ℕ → Parser → Parser
feed [] p = p
feed (c ∷ cs) p = feed cs (next c p).1

-- the newlines in a text
abbrev newlines : List ℕ → ℕ
newlines [] = 0
newlines (c ∷ cs) = (if c == b'\n' then 1 else 0) + newlines cs

-- the column after a text, which starts again at 1 behind each newline
abbrev column_after : ℕ → List ℕ → ℕ
column_after column [] = column
column_after column (c ∷ cs) = column_after (if c == b'\n' then 1 else add_u32 column 1) cs

dispatch-d : (c : ℕ) (p : Parser) → (dispatch c p).1.d ≡ p.d
unfolding dispatch
dispatch-d c p = ground arith

next-d :
    (c : ℕ) (p : Parser)
    → p.d.row < u32_mod
    → (next c p).1.d ≡ record {
      location = add_u32 p.d.location 1;
      row = (p.d.row + (if c == b'\n' then 1 else 0)) % u32_mod;
      column = if c == b'\n' then 1 else add_u32 p.d.column 1;
      last = c;
    }
unfolding next
next-d c p r = rw (dispatch-d c (record p { d = apply c p.d })) (ground arith)

-- Whatever bytes a parser is fed, and whatever it answers, its location grows by their number and
-- its row by the number of newlines among them, both modulo 2^32, and its column restarts at 1
-- behind each newline and else grows by one.
pub feed-d :
    (cs : List ℕ) (p : Parser)
    → p.d.location < u32_mod
    → p.d.row < u32_mod
    → ((feed cs p).d.location ≡ (p.d.location + length cs) % u32_mod)
      × ((feed cs p).d.row ≡ (p.d.row + newlines cs) % u32_mod)
      × ((feed cs p).d.column ≡ column_after p.d.column cs)
unfolding feed
feed-d [] p l r = (omega arith, omega arith, refl)
feed-d (c ∷ cs) p l r =
    let e = next-d c p r in
    let q = (next c p).1 in
    let at : q.d.location ≡ add_u32 p.d.location 1 = ap (λ (d : Diag). d.location) e in
    let row : q.d.row ≡ (p.d.row + (if c == b'\n' then 1 else 0)) % u32_mod =
      ap (λ (d : Diag). d.row) e in
    let column : q.d.column ≡ (if c == b'\n' then 1 else add_u32 p.d.column 1) =
      ap (λ (d : Diag). d.column) e in
    let ih = feed-d cs q (omega arith) (omega arith) in
    (omega arith, omega arith, ih.2 ∙ ap (λ k. column_after k cs) column)
