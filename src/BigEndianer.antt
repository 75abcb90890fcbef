-- ===== src/BigEndianer.antt =====
-- cppext/bigendianer.cpp: numbers of two and four bytes, highest byte first, in an `Indexer` of bytes.
pub mod Laws
pub mod Room
use Prim.Native.Nat.{bit_or}
use safely.Prelude.{ℕ, ◌+◌, ◌-◌, ◌*◌, ◌/◌, ◌%◌, ◌^◌, if◌then◌else◌, u32_mod}
use safely.Prelude.Int.{ℤ, pos, negsuc}
use safely.Ordinator
use safely.Indexer.{Indexer, Memory}
use safely.Indexer.Putting.{put, fetch}

-- `-1` as an `unsigned`, where two bytes are not there
unfoldable getu16 : Indexer → Memory ℕ → ℕ × Indexer
unfolding Ordinator.still_has fetch
getu16 ix mem =
    if Ordinator.still_has ix.ord 2
    then (let (high, ix') = fetch ix mem in
        let (low, ix'') = fetch ix' mem in (bit_or (high * 2 ^ 8) low, ix''))
    else (u32_mod - 1, ix)

unfoldable get_i16 : Indexer → Memory ℕ → ℤ × Indexer
unfolding Ordinator.still_has fetch
get_i16 ix mem =
    if Ordinator.still_has ix.ord 2
    then (let (high, ix') = fetch ix mem in
        let (low, ix'') = fetch ix' mem in (pos (bit_or (high * 2 ^ 8) low), ix''))
    else (negsuc 0, ix)

unfoldable pub hilo : ℕ → Indexer → Memory ℕ → Memory ℕ × Indexer
unfolding Ordinator.still_has put
hilo datum ix mem =
    if Ordinator.still_has ix.ord 2
    then (let (mem', ix') = put (datum / 2 ^ 8 % 256) ix mem in put (datum % 256) ix' mem')
    else (mem, ix)

unfoldable pub getu32 : Indexer → Memory ℕ → ℕ × Indexer
unfolding getu16
getu32 ix mem =
    let (high, ix') = getu16 ix mem in
    let (low, ix'') = getu16 ix' mem in (bit_or (high * 2 ^ 16 % u32_mod) low, ix'')

-- `put(uint32_t)`; the argument of `hilo` is a `uint16_t`
unfoldable pub put_u32 : ℕ → Indexer → Memory ℕ → Memory ℕ × Indexer
unfolding hilo
put_u32 value ix mem =
    let (mem', ix') = hilo (value / 2 ^ 16) ix mem in hilo (value % 2 ^ 16) ix' mem'
