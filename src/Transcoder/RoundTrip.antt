-- ===== src/Transcoder/RoundTrip.antt =====
-- `Utf8Escaper` against the bytes that `Utf8ConverterIn` writes.
use safely.Prelude.{
  ℕ, zero, suc, ◌*◌, ◌/◌, ◌^◌, ◌≤◌, ◌<◌, ◌≡◌, refl, ap, arith, false, List, [], ◌∷◌, ◌++◌, leb,
  ◌==◌, replicate, ◌∙◌,
}
use safely.Utf8.{more_bits, next_byte, first_byte, followers_of_char, first_bits, followers_of_byte}
use safely.Utf8.Encode.{
  encode_rest, encode, Width, one, two, three, four, five, followers_of_char-Width, Width-Leads,
  Leads,
}
use safely.Transcoder.{Event, more, done, plain, Escaper, escape, feed}

-- A byte of the tail brings the next six bits in.
more_bits-next_byte :
    (u n : ℕ)
    → u < 2 ^ 31
    → n < 5
    → more_bits (next_byte u n) (u / 2 ^ (6 * suc n)) ≡ u / 2 ^ (6 * n)
unfolding more_bits next_byte
more_bits-next_byte u zero h l = omega arith
more_bits-next_byte u (suc zero) h l = omega arith
more_bits-next_byte u (suc (suc zero)) h l = omega arith
more_bits-next_byte u (suc (suc (suc zero))) h l = omega arith
more_bits-next_byte u (suc (suc (suc (suc zero)))) h l = omega arith
more_bits-next_byte u (suc (suc (suc (suc (suc n))))) h l = absurd (omega arith)

next_byte_pos : (u n : ℕ) → (next_byte u n == 0) ≡ false
unfolding next_byte
next_byte_pos u n = ground arith

-- one byte of a sequence: the last one, and one before it
escape_last :
    (ch : ℕ) (e : Escaper)
    → (ch == 0) ≡ false
    → e.followers ≡ 1
    → escape ch e ≡ (
      done,
      record { uch = more_bits ch e.uch; followers = 0; bigu = leb (2 ^ 16) (more_bits ch e.uch) },
    )
unfolding escape
escape_last ch e h f = ground arith

escape_more :
    (ch k : ℕ) (e : Escaper)
    → (ch == 0) ≡ false
    → e.followers ≡ suc (suc k)
    → k < 6
    → escape ch e ≡ (more, record e { uch = more_bits ch e.uch; followers = suc k })
unfolding escape
escape_more ch k e h f l = ground arith

-- what an event `More` puts in front of the rest
abbrev after_more : List Event × Escaper → List Event × Escaper
after_more r = (more ∷ r.0, r.1)

feed-cons :
    (ch : ℕ) (cs : List ℕ) (e : Escaper) {v : Event} {e' : Escaper}
    → escape ch e ≡ (v, e')
    → feed (ch ∷ cs) e ≡ (v ∷ (feed cs e').0, (feed cs e').1)
unfolding feed
feed-cons ch cs e h = rw h

-- With a count of bytes to come and the bits above them in place, the bytes of the tail complete the
-- character.
feed-encode_rest :
    (u n : ℕ) (e : Escaper)
    → u < 2 ^ 31
    → n < 5
    → e.followers ≡ suc n
    → e.uch ≡ u / 2 ^ (6 * suc n)
    → feed (encode_rest u (suc n)) e
      ≡ (replicate n more ++ (done ∷ []), record { uch = u; followers = 0; bigu = leb (2 ^ 16) u })
unfolding encode_rest feed
feed-encode_rest u zero e hu hn f b =
    let whole : more_bits (next_byte u 0) e.uch ≡ u =
      rw b (more_bits-next_byte u 0 hu (omega arith) ∙ omega arith) in
    feed-cons (next_byte u 0) [] e (escape_last (next_byte u 0) e (next_byte_pos u 0) f) ∙ rw whole
feed-encode_rest u (suc n) e hu hn f b =
    let bits : more_bits (next_byte u (suc n)) e.uch ≡ u / 2 ^ (6 * suc n) =
      rw b (more_bits-next_byte u (suc n) hu hn) in
    let e' : Escaper = record {
      uch = more_bits (next_byte u (suc n)) e.uch;
      followers = suc n;
      bigu = e.bigu;
    } in
    let ih = feed-encode_rest u n e' hu (omega arith) refl bits in
    feed-cons (next_byte u (suc n)) (encode_rest u (suc n)) e
      (escape_more (next_byte u (suc n)) n e (next_byte_pos u (suc n)) f (omega arith))
    ∙ ap after_more ih

-- A first byte of a sequence, where none is under way.
escape_first :
    (ch : ℕ) (e : Escaper)
    → e.followers ≡ 0
    → 192 ≤ ch
    → ch < 256
    → escape ch e ≡ (
      more,
      record {
        uch = first_bits ch (followers_of_byte ch);
        followers = followers_of_byte ch;
        bigu = false;
      },
    )
unfolding escape
escape_first ch e f l h = ground arith

feed-Leads :
    (u n : ℕ) (e : Escaper)
    → Leads u (suc n) (first_byte u (suc n))
    → n < 5
    → e.followers ≡ 0
    → u < 2 ^ 31
    → feed (first_byte u (suc n) ∷ encode_rest u (suc n)) e ≡ (
      replicate (suc n) more ++ (done ∷ []),
      record { uch = u; followers = 0; bigu = leb (2 ^ 16) u },
    )
feed-Leads u n e l h f hu =
    let lead = first_byte u (suc n) in
    let e' : Escaper = record {
      uch = first_bits lead (followers_of_byte lead);
      followers = followers_of_byte lead;
      bigu = false;
    } in
    let bits : e'.uch ≡ u / 2 ^ (6 * suc n) = rw l.announces l.bits in
    feed-cons lead (encode_rest u (suc n)) e (escape_first lead e f l.multibyte l.is_byte)
    ∙ ap after_more (feed-encode_rest u n e' hu h l.announces bits)

feed-Width :
    {u nf : ℕ} (e : Escaper)
    → Width u nf
    → e.followers ≡ 0
    → u < 2 ^ 31
    → feed (first_byte u nf ∷ encode_rest u nf) e
      ≡ (replicate nf more ++ (done ∷ []), record { uch = u; followers = 0; bigu = leb (2 ^ 16) u })
feed-Width {u} e (one lo hi) f hu = feed-Leads u 0 e (Width-Leads (one lo hi)) (omega arith) f hu
feed-Width {u} e (two lo hi) f hu = feed-Leads u 1 e (Width-Leads (two lo hi)) (omega arith) f hu
feed-Width {u} e (three lo hi) f hu =
    feed-Leads u 2 e (Width-Leads (three lo hi)) (omega arith) f hu
feed-Width {u} e (four lo hi) f hu = feed-Leads u 3 e (Width-Leads (four lo hi)) (omega arith) f hu
feed-Width {u} e (five lo hi) f hu = feed-Leads u 4 e (Width-Leads (five lo hi)) (omega arith) f hu

-- The bytes that are written for a character of eight to 31 bits, fed to an escaper that is not in the
-- middle of a sequence, give the event `More` for each byte but the last and then `Done`; the character
-- is put together again, the escaper is idle, and `bigu` tells whether it takes more than sixteen bits.
pub feed-encode :
    (u : ℕ) (e : Escaper)
    → 128 ≤ u
    → u < 2 ^ 31
    → e.followers ≡ 0
    → feed (encode u) e ≡ (
      replicate (followers_of_char u) more ++ (done ∷ []),
      record { uch = u; followers = 0; bigu = leb (2 ^ 16) u },
    )
unfolding encode
feed-encode u e lo hi f = feed-Width e (followers_of_char-Width u lo hi) f hi

-- An escaper that is not in the middle of a sequence, fed a byte below 128 and then any other byte,
-- neither of them null, answers `Plain` and then `More`: the second byte is taken for one of a
-- sequence, also where it is plain.
pub plain_poisons :
    (a b : ℕ) (e : Escaper)
    → 0 < a
    → a < 128
    → 0 < b
    → b < 256
    → e.followers ≡ 0
    → (feed (a ∷ b ∷ []) e).0 ≡ plain ∷ more ∷ []
unfolding feed escape
plain_poisons a b e ha ka hb kb f = ground arith
