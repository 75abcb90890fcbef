-- ===== src/Tests/Views.antt =====
-- cppext/buffer.h at a view of five items that stand behind the null address.
use safely.Prelude.{ℕ, ◌≡◌, arith, false, some, [], ◌∷◌, inl}
use safely.Indexer.{Indexer, Memory, next, at, deref, peek, previous}
use safely.Indexer.Writing.{remove, cat}
use safely.Indexer.Contents.{Fits, item}
use safely.Indexer.Removing.{remove_items}
use safely.Indexer.Reading.{InView, accessors-InView}
use safely.Indexer.Copying.{Writes, cat_lem}

abbrev mem : Memory ℕ
mem = 0 ∷ 10 ∷ 11 ∷ 12 ∷ 13 ∷ 14 ∷ []

-- three items used and two free
abbrev partly : Indexer
partly = record { ord = record { pointer = 3; length = 5 }; buffer = 1 }

partly-Fits : Fits partly mem
partly-Fits = record {
  valid = record { within = omega arith; small = omega arith };
  placed = inl (omega arith);
  inside = omega arith;
  small = omega arith;
}

remove_items_example :
    let (mem', ix') = remove 2 partly mem in
    (ix'.pointer ≡ 1) × (ix'.length ≡ 3) × Fits ix' mem' × (item ix' mem' 1 ≡ some 13)
unfolding remove
remove_items_example = remove_items 2 1 mem partly-Fits

accessors-InView_example :
    InView partly (next partly).0
    × InView partly (at partly 7)
    × InView partly (deref partly)
    × InView partly (peek partly)
    × InView partly (previous partly)
accessors-InView_example = accessors-InView 7 mem partly-Fits

cat_lem_example :
    let (mem', ix', whole) = cat (some (21 ∷ 22 ∷ 23 ∷ [])) 9 partly mem in
    Writes mem 4 (21 ∷ 22 ∷ 23 ∷ []) 2 mem'
    × (ix' ≡ record { ord = record { pointer = 5; length = 5 }; buffer = 1 })
    × (whole ≡ false)
cat_lem_example = cat_lem (21 ∷ 22 ∷ 23 ∷ []) 9 mem partly-Fits (omega arith)
