-- ===== src/Indexer.antt =====
-- cppext/buffer.h: `Indexer`, a view of an array that lies elsewhere, read and written through a
-- pointer that does not leave it.
--
-- Memory is a list of items and an address is a position in it; address 0 is the null pointer. An
-- operation that writes takes the memory and returns the new one. A `Content &` is the address that
-- it refers to, `none` for the null reference of `CppExtBufferFailureGuard`. Sizes are counted in
-- items: `sizeof(Content)` is a parameter where the source divides by it.
pub mod Contents
pub mod Reading
pub mod Removing
pub mod Writing
pub mod Copying
pub mod Appending
pub mod Filling
pub mod Putting
use safely.Prelude.{
  ℕ, zero, suc, ◌+◌, ◌-◌, ◌*◌, ◌/◌, ◌%◌, ◌^◌, Bool, true, false, not, ◌&&◌, ◌||◌, Option, none,
  some, List, [], ◌∷◌, ltb, leb, ◌==◌, if◌then◌else◌, get_elem?, set, take, drop, u32_mod, add_u32,
  sub_u32, min,
}
use mathlib.Core.Option
use safely.Prelude.Int.{ℤ, pos, negsuc}
use safely.Index.{bad_index}
use safely.Ordinator
use safely.Ordinator.{Ordinator}

pub record Indexer : Type 0 where
  pub ord : Ordinator
  pub open ord use *
  pub buffer : ℕ

abbrev pub Memory {ℓ} : Type ℓ → Type ℓ
Memory A = List A

abbrev null : ℕ
null = 0

-- `Indexer()` and what `forget` leaves
abbrev pub nothing : Indexer
nothing = record { ord = record { pointer = 0; length = 0 }; buffer = null }

unfoldable wrap : ℕ → ℕ → ℕ → Indexer
wrap item_size wrapped bytes = record {
  ord = record { pointer = 0; length = bytes / item_size };
  buffer = wrapped;
}

-- `Indexer(other, clip)`: the buffer moves only for a positive clip
unfoldable pub clipped : Indexer → ℤ → Indexer
clipped other (negsuc n) = record {
  ord = Ordinator.clipped other.ord (negsuc n);
  buffer = other.buffer;
}
clipped other (pos n) = record {
  ord = Ordinator.clipped other.ord (pos n);
  buffer = if n == 0 then other.buffer else other.buffer + (other.pointer + n);
}

unfoldable is_useful : Indexer → Bool
is_useful ix =
    not (ix.buffer == null)
    && (ltb 0 ix.length && (not (ix.length == bad_index) && leb ix.pointer ix.length))

unfoldable is_legal : Indexer → Bool
unfolding is_useful
is_legal ix = is_useful ix || (ix.length == 0 && (ix.buffer == null && ix.pointer == 0))

unfoldable pub has_next : Indexer → Bool
unfolding Ordinator.has_next
has_next ix = Ordinator.has_next ix.ord

unfoldable pub skip : ℕ → Indexer → Indexer
unfolding Ordinator.skip
skip n ix = record ix { ord = Ordinator.skip n ix.ord }

unfoldable dump : Indexer → Indexer
unfolding Ordinator.dump
dump ix = record ix { ord = Ordinator.dump ix.ord }

unfoldable pub unget : Indexer → Indexer
unfolding Ordinator.rewind
unget ix = record ix { ord = Ordinator.rewind 1 ix.ord }

unfoldable skipto : ℕ → Indexer → Indexer × Bool
skipto point ix =
    if ltb point ix.length
    then (record ix { ord = record { pointer = point; length = ix.length } }, true)
    else (record ix { ord = record { pointer = ix.length; length = ix.length } }, false)

-- `next()`: the address and the indexer after it
unfoldable pub next : Indexer → Option ℕ × Indexer
next ix =
    if ix.length == 0
    then (none, ix)
    else if ltb ix.pointer ix.length
    then (
      some (ix.buffer + ix.pointer),
      record ix { ord = record { pointer = ix.pointer + 1; length = ix.length } },
    )
    else (some (ix.buffer + (ix.length - 1)), ix)

-- `next(onEmpty)`: `none` for the value of the argument
unfoldable next_or : Indexer → Option ℕ × Indexer
next_or ix =
    if ltb ix.pointer ix.length
    then (
      some (ix.buffer + ix.pointer),
      record ix { ord = record { pointer = ix.pointer + 1; length = ix.length } },
    )
    else (none, ix)

-- `operator []`
pub at : Indexer → ℕ → Option ℕ
at ix index =
    if ix.length == 0
    then none
    else some (ix.buffer + (if ltb index ix.length then index else index % ix.length))

-- `operator *`
pub deref : Indexer → Option ℕ
deref ix =
    if ix.length == 0
    then none
    else some (ix.buffer + (if ltb ix.pointer ix.length then ix.pointer else ix.length - 1))

unfoldable pub peek : Indexer → Option ℕ
peek ix =
    if ix.length == 0
    then none
    else some (ix.buffer + (if ltb ix.pointer ix.length then ix.pointer else 0))

unfoldable pub previous : Indexer → Option ℕ
previous ix =
    if ix.length == 0
    then none
    else some (
        ix.buffer
        + (if leb ix.length ix.pointer
            then ix.length - 1
            else if ltb 0 ix.pointer
            then ix.pointer - 1
            else 0))

-- `view`: an indexer over the range, clipped to the buffer. The size in bytes goes through an
-- `unsigned`.
pub view : ℕ → ℕ → ℕ → Indexer → Indexer
unfolding wrap
view item_size start end ix =
    let top = if ltb ix.length end then ix.length else end in
    if ltb start ix.length
    then wrap item_size (ix.buffer + start) ((sub_u32 top start * item_size) % u32_mod)
    else nothing

pub get_head : ℕ → Indexer → Indexer
unfolding view
get_head item_size ix = view item_size 0 ix.pointer ix

-- `takeHead`: the view, and this indexer with its pointer taken to 0
unfoldable take_head : ℕ → Indexer → Indexer × Indexer
unfolding view
take_head item_size ix =
    let emptied = record ix { ord = record { pointer = 0; length = ix.length } } in
    (view item_size 0 ix.pointer emptied, emptied)

pub get_tail : ℕ → Indexer → Indexer
unfolding view
get_tail item_size ix = view item_size ix.pointer ix.length ix

unfoldable get_head_of : Indexer → Indexer
get_head_of other = record {
  ord = record { pointer = 0; length = other.pointer };
  buffer = other.buffer;
}

pub trim_leading : ℕ → Indexer → Indexer
trim_leading how_many ix =
    if ltb how_many ix.pointer
    then record {
      ord = record { pointer = ix.pointer - how_many; length = ix.length - how_many };
      buffer = ix.buffer + how_many;
    }
    else if ltb how_many ix.length
    then record {
      ord = record { pointer = 0; length = ix.length - how_many };
      buffer = ix.buffer + how_many;
    }
    else nothing

unfoldable clip_range : ℕ → ℕ → Indexer → Indexer
unfolding skip
clip_range high low ix = skip low (record ix {
  ord = record { pointer = ix.pointer; length = if ltb high ix.length then high else ix.length };
})

-- `clone`, which shares the buffer
unfoldable clone : Indexer → Indexer
clone other = other

-- the address of a reference
unfoldable pub address_of : Option ℕ → ℕ
address_of none = null
address_of (some a) = a

-- `subset`: the view, and this indexer, moved behind it where it is removed
unfoldable subset : ℕ → ℕ → Bool → Indexer → Indexer × Indexer
unfolding wrap peek skip address_of
subset item_size field_length removing ix =
    let taken = min field_length (Ordinator.free_space ix.ord) in
    (
      wrap item_size (address_of (peek ix)) ((taken * item_size) % u32_mod),
      (if removing then skip taken ix else ix),
    )

-- `getTailOf`
unfoldable get_tail_of : Indexer → Indexer
unfolding peek address_of
get_tail_of other = record {
  ord = record { pointer = 0; length = Ordinator.free_space other.ord };
  buffer = address_of (peek other);
}

-- `punt`: the used part of an indexer over items of another size
unfoldable punt : ℕ → ℕ → Indexer → Indexer
punt item_size other_size other = record {
  ord = record { pointer = 0; length = (other.pointer * other_size) % u32_mod / item_size };
  buffer = other.buffer;
}

-- `while (list.hasNext()) eff(list.next())`: the addresses that `eff` is applied to, in order. On
-- fuel; `none` is a loop that has not ended.
unfoldable visit : ℕ → Indexer → Option (List (Option ℕ))
unfolding has_next next
visit zero list = none
visit (suc fuel) list =
    let (reference, list') = next list in
    let rest = visit fuel list' in
    if has_next list then Option.map (λ visited. reference ∷ visited) rest else some []

-- `forEach` and `forUsed`, which make a list with a clip of 0 and of ~0
pub for_each : ℕ → Indexer → Option (List (Option ℕ))
unfolding clipped Ordinator.clipped
for_each fuel ix = visit fuel (clipped ix (pos 0))

pub for_used : ℕ → Indexer → Option (List (Option ℕ))
unfolding clipped Ordinator.clipped
for_used fuel ix = visit fuel (clipped ix (negsuc 0))
