-- ===== src/Utf8/Encode.antt =====
-- system/utf8converter.cpp: how `Utf8ConverterIn` writes a character, and what `UTF8::Encoder` writes
-- for the same one.
use Prim.Native.Nat.{bit_or}
use safely.Prelude.{
  every, every-at, ℕ, zero, suc, ◌+◌, ◌*◌, ◌/◌, ◌^◌, ◌≤◌, ◌<◌, ◌≡◌, refl, ap, arith, true, List, [],
  ◌∷◌, ◌==◌, if◌then◌else◌, Option, none, some, ==_iff, dec_lt, ◌∙◌, sym,
}
use safely.Utf8.{
  followers_of_byte, first_bits, followers_of_char, first_byte, next_byte, Encoder, encoder_start,
  encoder_has_more, encoder_next,
}

-- `while (nf-- > 0) packer.next() = nextByte(uch, nf);`
unfoldable pub encode_rest : ℕ → ℕ → List ℕ
unfolding next_byte
encode_rest uch zero = []
encode_rest uch (suc nf) = next_byte uch nf ∷ encode_rest uch nf

-- the bytes that the `Done` case of `Utf8ConverterIn::operator()` writes, if they fit
unfoldable pub encode : ℕ → List ℕ
unfolding encode_rest followers_of_char first_byte
encode uch = let nf = followers_of_char uch in first_byte uch nf ∷ encode_rest uch nf

-- `Encoder::start`, then `next` while there is more; on fuel, `none` where it is not enough
encoder_rest : ℕ → Encoder → Option (List ℕ)
unfolding encoder_next encoder_has_more
encoder_rest zero e = none
encoder_rest (suc fuel) e =
    let (b, e') = encoder_next e in
    let rest = encoder_rest fuel e' in
    if encoder_has_more e
    then (elim rest [ none ↦ none | some bytes ↦ some (b ∷ bytes) ])
    else some []

pub encoder_bytes : ℕ → Option (List ℕ)
unfolding encoder_rest encoder_start
encoder_bytes uch =
    let (b, e) = encoder_start uch in
    elim (encoder_rest 6 e) [ none ↦ none | some bytes ↦ some (b ∷ bytes) ]

-- A first byte is its prefix and, below it, the top bits.
or_table :
    (prefix n : ℕ)
    → every (λ x. bit_or prefix x == prefix + x) n ≡ true
    → (x : ℕ) → x < n
    → bit_or prefix x ≡ prefix + x
or_table prefix n t x h = (==_iff _ _).0 (every-at _ n x h t)

table1 : (x : ℕ) → x < 32 → bit_or 0xC0 x ≡ 0xC0 + x
unfolding every
table1 = or_table 0xC0 32 refl

table2 : (x : ℕ) → x < 16 → bit_or 0xE0 x ≡ 0xE0 + x
unfolding every
table2 = or_table 0xE0 16 refl

table3 : (x : ℕ) → x < 8 → bit_or 0xF0 x ≡ 0xF0 + x
unfolding every
table3 = or_table 0xF0 8 refl

table4 : (x : ℕ) → x < 4 → bit_or 0xF8 x ≡ 0xF8 + x
unfolding every
table4 = or_table 0xF8 4 refl

table5 : (x : ℕ) → x < 2 → bit_or 0xFC x ≡ 0xFC + x
unfolding every
table5 = or_table 0xFC 2 refl

-- the first byte of each length, with the number of bytes that it announces
pub record Leads (u nf lead : ℕ) : Type 0 where
  pub announces : followers_of_byte lead ≡ nf
  pub bits : first_bits lead nf ≡ u / 2 ^ (6 * nf)
  pub multibyte : 192 ≤ lead
  pub is_byte : lead < 256

leads1 : (u : ℕ) → 128 ≤ u → u < 2 ^ 11 → Leads u 1 (first_byte u 1)
unfolding first_byte followers_of_byte first_bits
leads1 u lo hi = ground (arith, table1 (u / 64))

leads2 : (u : ℕ) → 2 ^ 11 ≤ u → u < 2 ^ 16 → Leads u 2 (first_byte u 2)
unfolding first_byte followers_of_byte first_bits
leads2 u lo hi = ground (arith, table2 (u / 2 ^ 12))

leads3 : (u : ℕ) → 2 ^ 16 ≤ u → u < 2 ^ 21 → Leads u 3 (first_byte u 3)
unfolding first_byte followers_of_byte first_bits
leads3 u lo hi = ground (arith, table3 (u / 2 ^ 18))

leads4 : (u : ℕ) → 2 ^ 21 ≤ u → u < 2 ^ 26 → Leads u 4 (first_byte u 4)
unfolding first_byte followers_of_byte first_bits
leads4 u lo hi = ground (arith, table4 (u / 2 ^ 24))

leads5 : (u : ℕ) → 2 ^ 26 ≤ u → u < 2 ^ 31 → Leads u 5 (first_byte u 5)
unfolding first_byte followers_of_byte first_bits
leads5 u lo hi = ground (arith, table5 (u / 2 ^ 30))

-- The number of bytes that follow is the least that holds the character, up to 31 bits.
pub data Width (u : ℕ) : ℕ → Type 0 where
  one : 128 ≤ u → u < 2 ^ 11 → Width u 1
  two : 2 ^ 11 ≤ u → u < 2 ^ 16 → Width u 2
  three : 2 ^ 16 ≤ u → u < 2 ^ 21 → Width u 3
  four : 2 ^ 21 ≤ u → u < 2 ^ 26 → Width u 4
  five : 2 ^ 26 ≤ u → u < 2 ^ 31 → Width u 5

pub followers_of_char-Width : (u : ℕ) → 128 ≤ u → u < 2 ^ 31 → Width u (followers_of_char u)
followers_of_char-Width u lo hi = elim (dec_lt u (2 ^ 11)) [
  | yes p ↦
      let e : followers_of_char u ≡ 1 = unfold followers_of_char in ground arith in rw e (one lo p)
  | no p ↦ elim (dec_lt u (2 ^ 16)) [
    | yes q ↦
        let e : followers_of_char u ≡ 2 = unfold followers_of_char in ground arith in
        rw e (two (omega arith) q)
    | no q ↦ elim (dec_lt u (2 ^ 21)) [
      | yes r ↦
          let e : followers_of_char u ≡ 3 = unfold followers_of_char in ground arith in
          rw e (three (omega arith) r)
      | no r ↦ elim (dec_lt u (2 ^ 26)) [
        | yes t ↦
            let e : followers_of_char u ≡ 4 = unfold followers_of_char in ground arith in
            rw e (four (omega arith) t)
        | no t ↦
            let e : followers_of_char u ≡ 5 = unfold followers_of_char in ground arith in
            rw e (five (omega arith) hi)
      ]
    ]
  ]
]

-- The first byte of a character of more than seven bits is not a continuation byte, announces as many
-- bytes as follow it, and holds the bits above theirs.
pub Width-Leads : {u nf : ℕ} → Width u nf → Leads u nf (first_byte u nf)
Width-Leads {u} (one lo hi) = leads1 u lo hi
Width-Leads {u} (two lo hi) = leads2 u lo hi
Width-Leads {u} (three lo hi) = leads3 u lo hi
Width-Leads {u} (four lo hi) = leads4 u lo hi
Width-Leads {u} (five lo hi) = leads5 u lo hi

-- what `encoder_bytes` computes once the number of bytes is known
encoder_bytes_of : ℕ → ℕ → Option (List ℕ)
unfolding encoder_rest
encoder_bytes_of u nf = elim (encoder_rest 6 (record { unichar = u; followers = nf })) [
  | none ↦ none
  | some bytes ↦ some (first_byte u nf ∷ bytes)
]

encoder_bytes-eq : (u : ℕ) → encoder_bytes u ≡ encoder_bytes_of u (followers_of_char u)
unfolding encoder_bytes encoder_bytes_of
encoder_bytes-eq u = refl

-- the bytes depend only on what lies above the last six bits
same_bytes :
    {u nf : ℕ} (v : ℕ)
    → Width u nf
    → u / 64 ≡ v / 64
    → encoder_bytes_of u nf ≡ encoder_bytes_of v nf
unfolding encoder_bytes_of first_byte
same_bytes v (one lo hi) e = ground arith
same_bytes v (two lo hi) e = ground arith
same_bytes v (three lo hi) e = ground arith
same_bytes v (four lo hi) e = ground arith
same_bytes v (five lo hi) e = ground arith

same-Width : {u nf : ℕ} (v : ℕ) → Width u nf → u / 64 ≡ v / 64 → followers_of_char v ≡ nf
unfolding followers_of_char
same-Width v (one lo hi) e = ground arith
same-Width v (two lo hi) e = ground arith
same-Width v (three lo hi) e = ground arith
same-Width v (four lo hi) e = ground arith
same-Width v (five lo hi) e = ground arith

-- For a character of eight to 31 bits the state machine `UTF8::Encoder` sends the same bytes as for
-- any number that differs from it in the last six bits alone.
pub encoder_bytes_loses :
    (u v : ℕ) → 128 ≤ u → u < 2 ^ 31 → u / 64 ≡ v / 64 → encoder_bytes u ≡ encoder_bytes v
encoder_bytes_loses u v hu ku e =
    let w = followers_of_char-Width u hu ku in
    encoder_bytes-eq u
    ∙ same_bytes v w e
    ∙ ap (encoder_bytes_of v) (sym (same-Width v w e))
    ∙ sym (encoder_bytes-eq v)
