-- ===== src/Tests/Texts.antt =====
-- cppext/cstr.cpp, pushedparser.cpp under the rules of `typicalCsv`, pushedjsonparser.cpp and abstractjsonparser.h.
use safely.Prelude.{
  List, ◌↔◌, ◌++◌, ℕ, suc, ◌+◌, some, length, true, false, ◌≤◌, ◌≡◌, refl, arith, [], ◌∷◌,
}
use safely.Span.{cleared}
use safely.Cstr
use safely.Cstr.Text.{ends_with, starts_with, trailing_zeroes}
use safely.Cstr.Zeroes.{IsUseless, trailing_zeroes_lem}
use safely.Cstr.Ends.{ends-starts}
use safely.PushedParser.{Parser, typical_csv, reset_diag, next, done}
use safely.PushedParser.Location.{feed}
use safely.PushedParser.Tokens.{quoted_span}
use safely.PushedJson
use safely.PushedJson.{go_on, bad, begin_wad, end_wad, end_item, make, json_rules, reset_stats}
use safely.PushedJson.Events
use safely.PushedJson.Events.{answers, answers-events}
use safely.PushedJson.Depth.{opened, reports, reports_depth}
use safely.AbstractJson.{JsonConstructor, AbstractJsonParser, parse}
use safely.AbstractJson.Keeping.{HasNoNull}
use safely.AbstractJson.Laws.{parse_lem}

abbrev fresh : Parser
fresh = record { rule = typical_csv; span = cleared; end_quote = 0; was_quote = 0; d = reset_diag }

-- `"xx",`
quoted_span_example :
    let (action, q) = next b',' (next b'"' (feed (b'"' ∷ b'x' ∷ b'x' ∷ []) fresh)).1 in
    (action ≡ done) × (q.span ≡ record { lowest = 3; highest = 4 })
unfolding Cstr.is_present Cstr.index
quoted_span_example =
    quoted_span typical_csv b'"' (b'x' ∷ b'x' ∷ []) b',' fresh refl refl refl (omega arith)
      (omega arith) refl refl (omega arith)
      ((omega arith, omega arith), ((omega arith, omega arith), tt)) (omega arith) refl

abbrev blank : PushedJson.Parser
blank = record {
  base = record fresh { rule = json_rules };
  semicomma = true;
  equalscolon = true;
  have_name = false;
  name = cleared;
  quoted_name = false;
  ordered_wad = false;
  value = cleared;
}

-- `{a:1;b=2}`: the flags are set, but neither the semicolon nor the equals sign is an event
answers-events_example :
    answers (b'{' ∷ b'a' ∷ b':' ∷ b'1' ∷ b';' ∷ b'b' ∷ b'=' ∷ b'2' ∷ b'}' ∷ []) blank
    ≡ begin_wad ∷ go_on ∷ go_on ∷ go_on ∷ go_on ∷ go_on ∷ go_on ∷ go_on ∷ end_wad ∷ []
unfolding Events.events
answers-events_example =
    answers-events (b'{' ∷ b'a' ∷ b':' ∷ b'1' ∷ b';' ∷ b'b' ∷ b'=' ∷ b'2' ∷ b'}' ∷ []) blank false
      (omega arith) (record { rules = refl; no_quote = refl; has_name = refl })

-- two braces deep
reports_depth_example : (reports (opened ∷ opened ∷ []) reset_stats).max_depth.extremum ≤ 1
reports_depth_example = reports_depth (opened ∷ [])

-- a constructor that counts what it makes
abbrev counting : JsonConstructor ℕ
counting = record {
  root = λ n. 1;
  extract = λ span n. [];
  apply_to_child = λ parent name have_value value value_quoted n. (suc n, n + 2);
  exclaim = λ d n. n;
  begin_ordered = λ nova n. n;
  end_children = λ parent n. n;
}

counting-HasNoNull : HasNoNull counting
counting-HasNoNull = record {
  root_real = λ s. omega arith;
  child_real = λ parent name have_value value value_quoted s. omega arith;
}

-- `{[]}`
abbrev braces : AbstractJsonParser ℕ
braces = record {
  core = 0;
  rest = b'{' ∷ b'[' ∷ b']' ∷ b',' ∷ b'}' ∷ [];
  treat_root_special = true;
  stats = reset_stats;
  parser = blank;
  read_null = false;
}

parse_lem_example :
    (j' : AbstractJsonParser ℕ) × (parse counting 6 braces ≡ some j')
    × (length j'.rest ≤ length braces.rest)
    × (j'.stats.nested ≡ braces.stats.nested)
    × (j'.read_null ≡ false)
parse_lem_example = parse_lem counting 6 braces counting-HasNoNull (omega arith) (omega arith)

-- `3.00`
abbrev three : List ℕ
three = b'3' ∷ b'.' ∷ b'0' ∷ b'0' ∷ []

trailing_zeroes_lem_example : IsUseless 1 three
trailing_zeroes_lem_example =
    trailing_zeroes_lem 1 three (omega arith) (unfold trailing_zeroes in refl) (omega arith)

ends-starts_example :
    ((ends_with (b'0' ∷ []) three ≡ true) ↔ ((pre : List ℕ) × (three ≡ pre ++ (b'0' ∷ []))))
    × ((starts_with (b'0' ∷ []) three ≡ true) ↔ ((rest : List ℕ) × (three ≡ (b'0' ∷ []) ++ rest)))
ends-starts_example = ends-starts three (b'0' ∷ []) (omega arith) (omega arith)
