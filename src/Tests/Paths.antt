-- ===== src/Tests/Paths.antt =====
-- system/pathparser.cpp, chain.h, chainsorter.h and urltext.cpp at concrete values.
use safely.Prelude.{ℕ, ◌≡◌, refl, arith, true, false, some, List, [], ◌∷◌}
use safely.Indexer.{Indexer, Memory}
use safely.Chain
use safely.Chain.{Chain, Scanner, scanner}
use safely.Chain.Ownership.{
  World, Runs, empty_world, appended, inserted, removed, taken_nth, still, step_on,
}
use safely.Chain.Scanning.{visit, each_backwards, scanner-visits, at_step}
use safely.Prelude.{ltb, if◌then◌else◌}
use safely.Prelude.Int.{ℤ, pos, negsuc}
use safely.ChainSorter.{index_for}
use safely.ChainSorter.Search.{IsSorted, IsPlace, answer, index_for_lem}
use safely.UrlText.Decoding.{push_all, plain_decoder, push_all-overwrite}
use safely.PathParser.{Rules, base_converter, pack_into, parse_into}
use safely.PathParser.Sizes.{joined}
use safely.PathParser.Splitting.{scan_at}
use safely.PathParser.RoundTrip.{AllPieces}
use safely.Indexer.Writing.{overwrite}
use safely.PathParser.Whole.{parse_into-pack_into}

-- "/usr/lib"
abbrev rooted : Rules
rooted = record { slash = 47; after = false; before = true }

abbrev usr : List ℕ
usr = 117 ∷ 115 ∷ 114 ∷ []

abbrev lib : List ℕ
lib = 108 ∷ 105 ∷ 98 ∷ []

abbrev blank : Memory ℕ
blank = 0 ∷ 0 ∷ 0 ∷ 0 ∷ 0 ∷ 0 ∷ 0 ∷ 0 ∷ 0 ∷ 0 ∷ []

abbrev packer : Indexer
packer = record { ord = record { pointer = 0; length = 8 }; buffer = 1 }

pieces-AllPieces : AllPieces 47 (usr ∷ lib ∷ [])
pieces-AllPieces = ground arith

parse_into-pack_into_example :
    (mem' : Memory ℕ) × (packer' : Indexer) × (pack_into base_converter rooted 3
        (at_step 0 false)
        (usr ∷ lib ∷ [])
        (scan_at packer 0)
        blank
      ≡ some (mem', packer'))
    × (parse_into 9 47 [] (scan_at packer 0) mem' ≡ some (rooted, usr ∷ lib ∷ []))
unfolding joined
parse_into-pack_into_example =
    parse_into-pack_into rooted usr (lib ∷ []) packer blank pieces-AllPieces (omega arith)
      (omega arith) (omega arith) refl

-- five is given and given again, six is given; one five is removed and the six taken out
abbrev ran : World
ran = record {
  chain = record { is_owner = true; items = 5 ∷ []; deleted = 5 ∷ [] };
  given = 6 ∷ 5 ∷ 5 ∷ [];
  taken = 6 ∷ [];
}

calls : Runs empty_world ran
unfolding Chain.append Chain.insert Chain.insert_at Chain.remove Chain.remove_nth Chain.take_nth
    Chain.has Chain.nth Chain.index_of Chain.index_below Chain.erase_at
calls = step_on (appended 5) (
    step_on (appended 5)
      (step_on (inserted 6 0 (omega arith)) (step_on (taken_nth 0) (step_on (removed 5) still))))

abbrev three : List ℕ
three = 7 ∷ 8 ∷ 9 ∷ []

scanner-visits_example :
    (visit 4 (scanner false three) three ≡ some (some 7 ∷ some 8 ∷ some 9 ∷ []))
    × (visit 4 (scanner true three) three ≡ some (some 9 ∷ some 8 ∷ some 7 ∷ []))
unfolding each_backwards
scanner-visits_example = scanner-visits three (omega arith)

-- thirty, twenty, ten: the target fifteen is above a thing that is greater
abbrev falling : Chain
falling = record { is_owner = false; items = 30 ∷ 20 ∷ 10 ∷ []; deleted = [] }

abbrev fifteen : ℕ → ℤ
fifteen thing = if ltb 15 thing then negsuc 0 else pos 1

falling-IsSorted : IsSorted fifteen falling
unfolding Chain.nth
falling-IsSorted i j h k e = ground arith

index_for_lem_example :
    (p : ℕ) × IsPlace fifteen falling p
    × (index_for fifteen 4 falling ≡ some (answer fifteen falling falling-IsSorted p))
index_for_lem_example = index_for_lem fifteen falling falling-IsSorted (omega arith)

-- "a%20"
push_all-overwrite_example :
    (push_all (97 ∷ b'%' ∷ 50 ∷ 48 ∷ []) (plain_decoder packer 0) blank).0
    ≡ 0 ∷ 97 ∷ 0 ∷ 0 ∷ 0 ∷ 0 ∷ 0 ∷ 0 ∷ 0 ∷ 0 ∷ []
unfolding overwrite
push_all-overwrite_example =
    push_all-overwrite (97 ∷ []) (50 ∷ 48 ∷ []) packer blank (ground arith) (omega arith)
