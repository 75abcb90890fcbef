-- ===== src/Tests/Numbers.antt =====
-- cppext/numberparser.cpp and utf8.cpp, and system/utf8transcoder.cpp, at concrete values.
use safely.Prelude.{ℕ, ◌≡◌, refl, arith, true, false, [], ◌∷◌}
use safely.NumberParser.{reset, feed, after_exponent}
use safely.NumberParser.Number.{IsNumber, feed-scientific}
use safely.Utf8.{followers_of_char}
use safely.Utf8.Encode.{encode}
use safely.Transcoder
use safely.Transcoder.{Escaper, more, done, plain}
use safely.Transcoder.RoundTrip.{feed-encode}
use safely.Utf8.{hex_nibble}
use safely.Unescaper.{hex_digit, fresh}
use safely.Unescaper.Laws
use safely.Unescaper.Laws.{hex_digit-hex_nibble, slashee-slashee, feed-fresh}

-- -12.5e-30
twelve-IsNumber : IsNumber b'1' (b'2' ∷ []) (b'5' ∷ []) b'3' (b'0' ∷ [])
twelve-IsNumber = record {
  not_zero = omega arith;
  integer_digits = (refl, (refl, tt));
  fraction_digits = (refl, tt);
  exponent_digits = (refl, (refl, tt));
  integer_fits = omega arith;
  fraction_fits = omega arith;
  exponent_fits = omega arith;
  short = omega arith;
}

feed-scientific_example :
    feed (b'-' ∷ b'1' ∷ b'2' ∷ b'.' ∷ b'5' ∷ b'e' ∷ b'-' ∷ b'3' ∷ b'0' ∷ []) reset ≡ (
      true,
      record reset {
        negative = true;
        had_radix_point = true;
        predecimal = 12;
        postdecimal = 5;
        post_digits = 1;
        has_eterm = true;
        negative_exponent = true;
        exponent = 30;
        phase = after_exponent;
        processed = 9;
      },
    )
feed-scientific_example =
    feed-scientific b'1' (b'2' ∷ []) (b'5' ∷ []) b'3' (b'0' ∷ []) twelve-IsNumber

-- the sign of the euro
abbrev euro : ℕ
euro = 0x20AC

abbrev idle : Escaper
idle = record { uch = 0; followers = 0; bigu = false }

feed-encode_example :
    Transcoder.feed (encode euro) idle
    ≡ (more ∷ more ∷ done ∷ [], record { uch = euro; followers = 0; bigu = false })
unfolding followers_of_char
feed-encode_example = feed-encode euro idle (omega arith) (omega arith) refl

-- the digit 12 at place 1 of 0x2CA
hex_digit-hex_nibble_example : hex_digit (hex_nibble 0x2CA 1) ≡ 12
hex_digit-hex_nibble_example = hex_digit-hex_nibble 0x2CA 1

-- `\u0041` behind a letter
feed-fresh_example :
    Laws.feed (b'x' ∷ b'\\' ∷ b'u' ∷ b'0' ∷ b'0' ∷ b'4' ∷ b'1' ∷ []) fresh
    ≡ plain ∷ more ∷ more ∷ more ∷ more ∷ more ∷ more ∷ []
feed-fresh_example =
    feed-fresh b'x' (b'\\' ∷ b'u' ∷ b'0' ∷ b'0' ∷ b'4' ∷ b'1' ∷ []) (omega arith) (omega arith)
      (omega arith)

encode-euro : encode euro ≡ 0xE2 ∷ 0x82 ∷ 0xAC ∷ []
unfolding encode
encode-euro = refl
