-- ===== src/Tests/Bits.antt =====
-- cppext/bitbanger.h, charscanner.cpp and bigendianer.cpp at concrete values.
use safely.Prelude.{ℕ, ◌≡◌, arith, true, false, [], ◌∷◌, inl}
use safely.Indexer.{Indexer, Memory}
use safely.Indexer.Contents.{Fits}
use safely.CharScanner.{put_bytes, get_u}
use safely.CharScanner.Bytes.{get_u-put_bytes}
use safely.BigEndianer.{put_u32, getu32}
use safely.BigEndianer.Laws.{getu32-put_u32}
use safely.BitBanger.{insert_bits, extract_bits}
use safely.BitBanger.Fields.{extract_bits-insert_bits}

abbrev mem : Memory ℕ
mem = 0 ∷ 1 ∷ 2 ∷ 3 ∷ 4 ∷ 5 ∷ 6 ∷ []

abbrev roomy : Indexer
roomy = record { ord = record { pointer = 1; length = 5 }; buffer = 1 }

roomy-Fits : Fits roomy mem
roomy-Fits = record {
  valid = record { within = omega arith; small = omega arith };
  placed = inl (omega arith);
  inside = omega arith;
  small = omega arith;
}

abbrev behind : Indexer
behind = record { ord = record { pointer = 4; length = 5 }; buffer = 1 }

get_u-put_bytes_example :
    let (mem', ix', told) = put_bytes false 66051 3 roomy mem in
    (told ≡ true) × (ix' ≡ behind) × (get_u false 3 9 roomy mem' ≡ (66051, behind))
get_u-put_bytes_example = get_u-put_bytes false 66051 3 9 mem roomy-Fits (omega arith) (omega arith)

getu32-put_u32_example :
    let (mem', ix') = put_u32 4000000000 roomy mem in
    let full : Indexer = record { ord = record { pointer = 5; length = 5 }; buffer = 1 } in
    (ix' ≡ full) × (getu32 roomy mem' ≡ (4000000000, full))
getu32-put_u32_example =
    getu32-put_u32 4000000000 mem roomy-Fits (omega arith) (omega arith) (omega arith)

extract_bits-insert_bits_example : extract_bits (insert_bits 255 21 4 4) 4 4 ≡ 5
extract_bits-insert_bits_example = extract_bits-insert_bits 255 21 4 4 (omega arith) (omega arith)
