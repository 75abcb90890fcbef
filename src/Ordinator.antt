-- ===== src/Ordinator.antt =====
-- cppext/ordinator.h: a pointer that walks up to a length, both `unsigned`.
pub mod Laws
use safely.Prelude.{
  ℕ, ◌+◌, ◌-◌, ◌%◌, ◌^◌, Bool, ◌&&◌, ltb, leb, ◌==◌, if◌then◌else◌, add_u32, sub_u32,
}
use safely.Prelude.Int.{ℤ, pos, negsuc}
use safely.Index.{bad_index}

pub record Ordinator : Type 0 where
  pub pointer : ℕ
  pub length : ℕ

-- the constructor: a pointer past the length becomes the length
unfoldable make : ℕ → ℕ → Ordinator
make length pointer =
    if ltb length pointer
    then record { pointer = length; length = length }
    else record { pointer = pointer; length = length }

unfoldable pub free_space : Ordinator → ℕ
free_space o = sub_u32 o.length o.pointer

-- `Ordinator(other, clip)`. In two's complement the complement of a negative `clip`, which is
-- -(n + 1), is n.
unfoldable pub clipped : Ordinator → ℤ → Ordinator
unfolding free_space
clipped other (negsuc n) = record {
  pointer = 0;
  length = if leb n other.pointer then other.pointer - n else 0;
}
clipped other (pos n) = record {
  pointer = 0;
  length = if leb n (free_space other) then free_space other - n else 0;
}

unfoldable pub contains : Ordinator → ℕ → Bool
contains o index = ltb index o.pointer

unfoldable pub can_contain : Ordinator → ℕ → Bool
can_contain o index = ltb index o.length

unfoldable pub has_next : Ordinator → Bool
has_next o = ltb 0 o.length && ltb o.pointer o.length

unfoldable has_previous : Ordinator → Bool
has_previous o = ltb 0 o.pointer

unfoldable pub still_has : Ordinator → ℕ → Bool
unfolding free_space
still_has o how_many = leb how_many (free_space o)

unfoldable pub ordinal : Ordinator → ℕ
ordinal o = o.pointer

unfoldable present : Ordinator → ℕ
present o = sub_u32 o.pointer 1

unfoldable pub rewind : ℕ → Ordinator → Ordinator
rewind backup o = record o { pointer = if leb backup o.pointer then o.pointer - backup else 0 }

unfoldable pub skip : ℕ → Ordinator → Ordinator
skip amount o =
    let moved = add_u32 o.pointer amount in
    record o { pointer = if ltb o.length moved then o.length else moved }

unfoldable pub dump : Ordinator → Ordinator
dump o = record o { pointer = o.length }

unfoldable pub remove : ℕ → Ordinator → Ordinator
remove amount o =
    let gone = if ltb o.pointer amount then o.pointer else amount in
    record { pointer = sub_u32 o.pointer gone; length = sub_u32 o.length gone }

unfoldable grab : Ordinator → Ordinator
grab other =
    if ltb 0 other.pointer
    then record { pointer = 0; length = other.pointer }
    else record { pointer = other.pointer; length = other.length }
