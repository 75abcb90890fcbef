-- ===== src/CharScanner.antt =====
-- cppext/charscanner.cpp: `ByteScanner` and `CharScanner`, an `Indexer` over bytes; the operations of
-- both classes have the same text. A `char` is the byte that holds it, and the host is little-endian.
pub mod Bytes
use safely.Prelude.{
  ℕ, zero, suc, ◌+◌, ◌-◌, ◌*◌, ◌/◌, ◌%◌, ◌^◌, Bool, true, false, not, ◌&&◌, ◌||◌, Option, none,
  some, List, [], ◌∷◌, ltb, ◌==◌, if◌then◌else◌, take, drop, get_or,
}
use safely.Prelude.Int.{ℤ, pos, negsuc}
use safely.Ordinator
use safely.Indexer
use safely.Indexer.{Indexer, Memory, peek, address_of, skip}
use safely.Indexer.Putting.{put, fetch, assign, value_at}

-- the byte of a value at an offset from its address
abbrev pub byte_at : ℕ → ℕ → ℕ
byte_at i value = value / 256 ^ i % 256

-- the two loops of `putBytes`; the count falls in the first, and `p` rises in the second
unfoldable pub put_big : ℕ → ℕ → Indexer → Memory ℕ → Memory ℕ × Indexer
unfolding put
put_big zero value ix mem = (mem, ix)
put_big (suc n) value ix mem =
    let (mem', ix') = put (byte_at n value) ix mem in put_big n value ix' mem'

unfoldable pub put_little : ℕ → ℕ → ℕ → Indexer → Memory ℕ → Memory ℕ × Indexer
unfolding put
put_little p zero value ix mem = (mem, ix)
put_little p (suc n) value ix mem =
    let (mem', ix') = put (byte_at p value) ix mem in put_little (p + 1) n value ix' mem'

-- `putBytes`, of four bytes at most
unfoldable pub put_bytes : Bool → ℕ → ℕ → Indexer → Memory ℕ → Memory ℕ × Indexer × Bool
unfolding put_big put_little Ordinator.still_has
put_bytes bigendian value num_bytes ix mem =
    if Ordinator.still_has ix.ord num_bytes
    then (let (mem', ix') =
          if bigendian
          then put_big num_bytes value ix mem
          else put_little 0 num_bytes value ix mem in
        (mem', ix', true))
    else (mem, ix, false)

-- the loop of `getU`: what it adds to the accumulator, whose bytes it sets from the top down
unfoldable pub get_big : ℕ → Indexer → Memory ℕ → ℕ × Indexer
unfolding fetch
get_big zero ix mem = (0, ix)
get_big (suc n) ix mem =
    let (b, ix') = fetch ix mem in let (acc, end) = get_big n ix' mem in (b * 256 ^ n + acc, end)

-- the number whose bytes, from the lowest, are those of a list
unfoldable pub little_value : List ℕ → ℕ
little_value [] = 0
little_value (b ∷ bs) = b + 256 * little_value bs

-- `getU`, of four bytes at most; `copyObject` sets the lowest bytes of the accumulator
unfoldable pub get_u : Bool → ℕ → ℕ → Indexer → Memory ℕ → ℕ × Indexer
unfolding get_big little_value Ordinator.still_has peek address_of skip
get_u bigendian num_bytes def ix mem =
    if Ordinator.still_has ix.ord num_bytes
    then (if bigendian
        then get_big num_bytes ix mem
        else (little_value (take num_bytes (drop (address_of (peek ix)) mem)), skip num_bytes ix))
    else (def, ix)
