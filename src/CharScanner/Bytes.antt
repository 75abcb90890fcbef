-- ===== src/CharScanner/Bytes.antt =====
-- cppext/charscanner.cpp: what `putBytes` writes, and that `getU` reads it back.
use safely.Prelude.{
  ℕ, zero, suc, ◌+◌, ◌-◌, ◌*◌, ◌%◌, ◌^◌, ◌≤◌, ◌<◌, ◌≡◌, refl, ap, ◌∙◌, subst, arith, Bool, true,
  false, List, [], ◌∷◌, leb, if◌then◌else◌, length, take, drop, get_or, drop-get_or, u32_mod,
  length-take, length-drop,
}
use safely.Ordinator
use safely.Indexer.{Indexer, Memory, peek, address_of, skip}
use safely.Indexer.Contents.{Fits, Fits-resized, length-overwrite}
use safely.Indexer.Writing.{overwrite}
use safely.Indexer.Putting.{put, put_all, put_all_room, fetch_room, moved}
use safely.CharScanner.{byte_at, put_big, put_little, put_bytes, get_big, little_value, get_u}

-- the bytes of a value, highest first and lowest first
unfoldable pub big_bytes : ℕ → ℕ → List ℕ
big_bytes zero value = []
big_bytes (suc n) value = byte_at n value ∷ big_bytes n value

unfoldable pub little_bytes : ℕ → ℕ → ℕ → List ℕ
little_bytes p zero value = []
little_bytes p (suc n) value = byte_at p value ∷ little_bytes (p + 1) n value

length-big_bytes : (n value : ℕ) → length (big_bytes n value) ≡ n
unfolding big_bytes
length-big_bytes zero value = refl
length-big_bytes (suc n) value = ap suc (length-big_bytes n value)

length-little_bytes : (p n value : ℕ) → length (little_bytes p n value) ≡ n
unfolding little_bytes
length-little_bytes p zero value = refl
length-little_bytes p (suc n) value = ap suc (length-little_bytes (p + 1) n value)

pub put_big-put_all :
    (n value : ℕ) (ix : Indexer) (mem : Memory ℕ)
    → put_big n value ix mem ≡ put_all (big_bytes n value) ix mem
unfolding put_big put_all big_bytes
put_big-put_all zero value ix mem = refl
put_big-put_all (suc n) value ix mem =
    let (mem', ix') = put (byte_at n value) ix mem in put_big-put_all n value ix' mem'

put_little-put_all :
    (p n value : ℕ) (ix : Indexer) (mem : Memory ℕ)
    → put_little p n value ix mem ≡ put_all (little_bytes p n value) ix mem
unfolding put_little put_all little_bytes
put_little-put_all p zero value ix mem = refl
put_little-put_all p (suc n) value ix mem =
    let (mem', ix') = put (byte_at p value) ix mem in put_little-put_all (p + 1) n value ix' mem'

-- the value of bytes from the highest
unfoldable pub big_value : List ℕ → ℕ
big_value [] = 0
big_value (b ∷ bs) = b * 256 ^ length bs + big_value bs

-- at the four widths
big_value-big_bytes : (n value : ℕ) → n ≤ 4 → big_value (big_bytes n value) ≡ value % 256 ^ n
unfolding big_value big_bytes
big_value-big_bytes zero value h = omega arith
big_value-big_bytes (suc zero) value h = omega arith
big_value-big_bytes (suc (suc zero)) value h = omega arith
big_value-big_bytes (suc (suc (suc zero))) value h = omega arith
big_value-big_bytes (suc (suc (suc (suc zero)))) value h = omega arith
big_value-big_bytes (suc (suc (suc (suc (suc n))))) value h = absurd (omega arith)

little_value-little_bytes :
    (n value : ℕ) → n ≤ 4 → little_value (little_bytes 0 n value) ≡ value % 256 ^ n
unfolding little_value little_bytes
little_value-little_bytes zero value h = omega arith
little_value-little_bytes (suc zero) value h = omega arith
little_value-little_bytes (suc (suc zero)) value h = omega arith
little_value-little_bytes (suc (suc (suc zero))) value h = omega arith
little_value-little_bytes (suc (suc (suc (suc zero)))) value h = omega arith
little_value-little_bytes (suc (suc (suc (suc (suc n))))) value h = absurd (omega arith)

pub take-drop-overwrite :
    (mem : Memory ℕ) (a : ℕ) (vs : List ℕ)
    → a + length vs ≤ length mem
    → take (length vs) (drop a (overwrite mem a vs)) ≡ vs
unfolding overwrite
take-drop-overwrite mem a [] h = refl
take-drop-overwrite [] a (v ∷ vs) h = absurd (omega arith)
take-drop-overwrite (x ∷ xs) zero (v ∷ vs) h =
    ap (λ r. v ∷ r) (take-drop-overwrite xs zero vs (omega arith))
take-drop-overwrite (x ∷ xs) (suc a) (v ∷ vs) h = take-drop-overwrite xs a (v ∷ vs) (omega arith)

get_big_lem :
    (n : ℕ) (ix : Indexer) (mem : Memory ℕ)
    → ix.pointer + n ≤ ix.length
    → ix.buffer + ix.length ≤ length mem
    → get_big n ix mem ≡ (big_value (take n (drop (ix.buffer + ix.pointer) mem)), moved n ix)
unfolding get_big big_value
get_big_lem zero ix mem h k = ground arith
get_big_lem (suc n) ix mem h k =
    let a = ix.buffer + ix.pointer in
    let tail = drop (suc a) mem in
    let b = get_or mem a 0 in
    let size : length (take n tail) ≡ n =
      omega (arith, length-take n tail, length-drop (suc a) mem) in
    let ahead : ix.buffer + (ix.pointer + 1) ≡ suc a = omega arith in
    ap (λ (r : ℕ × Indexer). let (acc, end) = get_big n r.1 mem in (r.0 * 256 ^ n + acc, end))
      (fetch_room ix mem (omega arith))
    ∙ ap (λ (r : ℕ × Indexer). (b * 256 ^ n + r.0, r.1))
        (get_big_lem n (moved 1 ix) mem (omega arith) (omega arith))
    ∙ rw (drop-get_or mem a 0 (omega arith)) (rw size (rw ahead (ground arith)))

abbrev pub bytes_of : Bool → ℕ → ℕ → List ℕ
bytes_of bigendian n value = if bigendian then big_bytes n value else little_bytes 0 n value

abbrev pub value_of : Bool → List ℕ → ℕ
value_of bigendian bytes = if bigendian then big_value bytes else little_value bytes

length-bytes_of : (bigendian : Bool) (n value : ℕ) → length (bytes_of bigendian n value) ≡ n
length-bytes_of true n value = length-big_bytes n value
length-bytes_of false n value = length-little_bytes 0 n value

value_of-bytes_of :
    (bigendian : Bool) (n value : ℕ)
    → n ≤ 4
    → value_of bigendian (bytes_of bigendian n value) ≡ value % 256 ^ n
value_of-bytes_of true n value h = big_value-big_bytes n value h
value_of-bytes_of false n value h = little_value-little_bytes n value h

put_loop_lem :
    (bigendian : Bool) (value n : ℕ) (ix : Indexer) (mem : Memory ℕ)
    → ix.pointer + n ≤ ix.length
    → (if bigendian then put_big n value ix mem else put_little 0 n value ix mem)
      ≡ (overwrite mem (ix.buffer + ix.pointer) (bytes_of bigendian n value), moved n ix)
put_loop_lem true value n ix mem h =
    put_big-put_all n value ix mem
    ∙ put_all_room (big_bytes n value) ix mem (omega (arith, length-big_bytes n value))
    ∙ rw (length-big_bytes n value) refl
put_loop_lem false value n ix mem h =
    put_little-put_all 0 n value ix mem
    ∙ put_all_room (little_bytes 0 n value) ix mem (omega (arith, length-little_bytes 0 n value))
    ∙ rw (length-little_bytes 0 n value) refl

-- With room for them the bytes are written where the pointer is.
pub put_bytes_room :
    (bigendian : Bool) (value n : ℕ) {ix : Indexer} (mem : Memory ℕ)
    → Fits ix mem
    → ix.pointer + n ≤ ix.length
    → put_bytes bigendian value n ix mem
      ≡ (overwrite mem (ix.buffer + ix.pointer) (bytes_of bigendian n value), moved n ix, true)
put_bytes_room bigendian value n {ix} mem f h =
    let room : Ordinator.still_has ix.ord n ≡ true =
      unfold Ordinator.still_has Ordinator.free_space in ground arith in
    unfold put_bytes in
    rw room
      (ap (λ (r : Memory ℕ × Indexer). (r.0, r.1, true)) (put_loop_lem bigendian value n ix mem h))

pub skip_room :
    (n : ℕ) (ix : Indexer)
    → ix.pointer + n ≤ ix.length
    → ix.length < u32_mod
    → skip n ix ≡ moved n ix
skip_room n ix h k = unfold skip Ordinator.skip in ground arith

peek_room : (ix : Indexer) → ix.pointer < ix.length → address_of (peek ix) ≡ ix.buffer + ix.pointer
peek_room ix h = unfold address_of peek in ground arith

still_has_room :
    (n : ℕ) {ix : Indexer} (mem : Memory ℕ)
    → Fits ix mem
    → Ordinator.still_has ix.ord n ≡ leb n (ix.length - ix.pointer)
unfolding Ordinator.still_has Ordinator.free_space
still_has_room n {ix} mem f = ground arith

pub still_has_enough :
    (n : ℕ) {ix : Indexer} (mem : Memory ℕ)
    → Fits ix mem
    → ix.pointer + n ≤ ix.length
    → Ordinator.still_has ix.ord n ≡ true
still_has_enough n {ix} mem f h = rw (still_has_room n mem f) (ground arith)

pub get_u_room :
    (bigendian : Bool) (n def : ℕ) {ix : Indexer} (mem : Memory ℕ)
    → Fits ix mem
    → ix.pointer + n ≤ ix.length
    → get_u bigendian n def ix mem
      ≡ (value_of bigendian (take n (drop (ix.buffer + ix.pointer) mem)), moved n ix)
get_u_room true n def {ix} mem f h =
    unfold get_u in rw (still_has_enough n mem f h) (get_big_lem n ix mem h f.inside)
get_u_room false zero def {ix} mem f h =
    unfold get_u little_value in
    rw (still_has_enough 0 mem f h) (rw (skip_room 0 ix h (omega arith)) refl)
get_u_room false (suc n) def {ix} mem f h =
    unfold get_u in
    rw (still_has_enough (suc n) mem f h)
      (rw (skip_room (suc n) ix h (omega arith)) (rw (peek_room ix (omega arith)) refl))

pub still_has_short :
    (n : ℕ) {ix : Indexer} (mem : Memory ℕ)
    → Fits ix mem
    → ix.length < ix.pointer + n
    → Ordinator.still_has ix.ord n ≡ false
still_has_short n {ix} mem f h = rw (still_has_room n mem f) (ground arith)

-- `putBytes` of up to four bytes for which there is room, in either order, moves the pointer behind
-- them, and `getU` from where they were put gives the value modulo 256 to their number, and moves the
-- pointer likewise.
pub get_u-put_bytes :
    (bigendian : Bool) (value n def : ℕ) {ix : Indexer} (mem : Memory ℕ)
    → Fits ix mem
    → n ≤ 4
    → ix.pointer + n ≤ ix.length
    → let (mem', ix', told) = put_bytes bigendian value n ix mem in
      (told ≡ true)
      × (ix' ≡ moved n ix)
      × (get_u bigendian n def ix mem' ≡ (value % 256 ^ n, moved n ix))
get_u-put_bytes bigendian value n def {ix} mem f h k =
    let a = ix.buffer + ix.pointer in
    let bytes = bytes_of bigendian n value in
    let size = length-bytes_of bigendian n value in
    let wrote = put_bytes_room bigendian value n mem f k in
    let f' : Fits ix (overwrite mem a bytes) = Fits-resized f (length-overwrite mem a bytes) in
    let back : take n (drop a (overwrite mem a bytes)) ≡ bytes =
      subst (λ m. take m (drop a (overwrite mem a bytes)) ≡ bytes) size
        (take-drop-overwrite mem a bytes (omega arith)) in
    (
      ap (λ (r : Memory ℕ × Indexer × Bool). r.2) wrote,
      ap (λ (r : Memory ℕ × Indexer × Bool). r.1) wrote,
      ap (λ (r : Memory ℕ × Indexer × Bool). get_u bigendian n def ix r.0) wrote
          ∙ get_u_room bigendian n def (overwrite mem a bytes) f' k
          ∙ ap (λ bs. (value_of bigendian bs, moved n ix)) back
          ∙ ap (λ v. (v, moved n ix)) (value_of-bytes_of bigendian n value h),
    )

-- Without room neither does anything, and `getU` gives the default.
pub get_u-put_bytes_short :
    (bigendian : Bool) (value n def : ℕ) {ix : Indexer} (mem : Memory ℕ)
    → Fits ix mem
    → ix.length < ix.pointer + n
    → (put_bytes bigendian value n ix mem ≡ (mem, ix, false))
      × (get_u bigendian n def ix mem ≡ (def, ix))
get_u-put_bytes_short bigendian value n def {ix} mem f h =
    let short = still_has_short n mem f h in
    (unfold put_bytes in rw short refl, unfold get_u in rw short refl)
