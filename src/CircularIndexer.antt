-- ===== src/CircularIndexer.antt =====
-- cppext/circularindexer.h: `CircularIndexer`, which walks round an array of some length. A reference
-- is the position that it refers to.
use safely.Prelude.{ℕ, ◌-◌, Bool, ltb, leb, ◌==◌, if◌then◌else◌, add_u32}

pub record CircularIndexer : Type 0 where
  pub pointer : ℕ
  pub length : ℕ

unfoldable once_per_cycle : CircularIndexer → Bool
once_per_cycle c = c.pointer == 0

-- the position, and the indexer after it
unfoldable pub next : CircularIndexer → ℕ × CircularIndexer
next c =
    let bumped = add_u32 c.pointer 1 in
    (c.pointer, record c { pointer = if leb c.length bumped then 0 else bumped })

unfoldable pub unget : CircularIndexer → CircularIndexer
unget c = record c { pointer = (if c.pointer == 0 then c.length else c.pointer) - 1 }

unfoldable pub peek : CircularIndexer → ℕ
peek c = if ltb c.pointer c.length then c.pointer else 0

unfoldable previous : CircularIndexer → ℕ
previous c = (if c.pointer == 0 then c.length else c.pointer) - 1

unfoldable pub init : CircularIndexer → CircularIndexer
init c = record c { pointer = 0 }
