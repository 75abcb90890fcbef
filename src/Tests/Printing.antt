-- ===== src/Tests/Printing.antt =====
-- cppext/charformatter.cpp at concrete values.
use mathlib.Core.Option
use safely.Prelude.{ℕ, ◌≡◌, arith, some, [], ◌∷◌, inl}
use safely.Indexer.{Indexer, Memory}
use safely.Indexer.Contents.{Fits}
use safely.CharFormatter.{print_unsigned}
use safely.CharFormatter.Unsigned.{shown}
use safely.CharFormatter.Printing.{numeral}
use safely.MiniMath.{ilog10_u32, search_down, decimal1}
use safely.Prelude.Int.{◌+ℤ◌}
use safely.CharFormatter.Parsing.{parse_unsigned}
use safely.CharFormatter.Parsing.Laws.{parse_unsigned-print_unsigned}

abbrev mem : Memory ℕ
mem = 0 ∷ 0 ∷ 0 ∷ 0 ∷ 0 ∷ []

abbrev line : Indexer
line = record { ord = record { pointer = 0; length = 4 }; buffer = 1 }

line-Fits : Fits line mem
line-Fits = record {
  valid = record { within = omega arith; small = omega arith };
  placed = inl (omega arith);
  inside = omega arith;
  small = omega arith;
}

parse_unsigned-print_unsigned_example :
    let (mem', ix', told) = print_unsigned 120 line mem in
    let reader : Indexer = record {
      ord = record { pointer = 0; length = ix'.pointer };
      buffer = 1;
    } in
    Option.map (λ (r : ℕ × Indexer). r.0) (parse_unsigned 11 7 reader mem') ≡ some 120
unfolding shown numeral ilog10_u32 search_down decimal1 ◌+ℤ◌
parse_unsigned-print_unsigned_example =
    parse_unsigned-print_unsigned 120 7 mem line-Fits (omega arith) (omega arith)
