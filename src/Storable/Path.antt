-- ===== src/Storable/Path.antt =====
-- system/storable/storable.cpp: the ways from one node to another, by names, places and parents; and
-- `toIndex` of cppext/textkey.cpp, for a name that is a number.
--
-- A loop upwards is on fuel, and `none` is one that has not ended.
use mathlib.Core.Option
use safely.Prelude.{
  ℕ, zero, suc, ◌+◌, ◌-◌, ◌*◌, ◌%◌, ◌^◌, Bool, true, false, not, ◌&&◌, ◌||◌, Option, none, some,
  List, [], ◌∷◌, ltb, leb, ◌==◌, if◌then◌else◌, length, drop, add_u32,
}
use safely.Index
use safely.Index.{bad_index}
use safely.Indexer.{Indexer, Memory}
use safely.Chain
use safely.Chain.{null}
use safely.PathParser
use safely.PathParser.{Rules}
use safely.Storable.{Forest}
use safely.Cstr.{same}
use safely.Storable.Wad.{wad_of, set_size, existing_child, add_child}

-- `isspace`, in the C locale
abbrev pub is_space : ℕ → Bool
is_space c = c == 32 || (leb 9 c && leb c 13)

unfoldable pub skip_space : List ℕ → List ℕ
skip_space [] = []
skip_space (c ∷ cs) = let rest = skip_space cs in if is_space c then rest else c ∷ cs

-- the digits of `strtoul`: what they make, whether there are any, and what is behind them
unfoldable pub digits : ℕ → Bool → List ℕ → ℕ × Bool × List ℕ
digits value seen [] = (value, seen, [])
digits value seen (c ∷ cs) =
    let rest = digits (value * 10 + (c - b'0')) true cs in
    if leb b'0' c && leb c b'9' then rest else (value, seen, c ∷ cs)

abbrev begins_with : ℕ → List ℕ → Bool
begins_with c [] = false
begins_with c (d ∷ ds) = d == c

abbrev u64_mod : ℕ
u64_mod = 2 ^ 64

-- `strtoul` to the base ten: the number, and the end, which is the text itself where there is none. A
-- number that is too large gives the largest; a minus negates as an `unsigned long`.
unfoldable pub strtoul : List ℕ → ℕ × List ℕ
unfolding skip_space digits
strtoul text =
    let start = skip_space text in
    let minus = begins_with b'-' start in
    let rest = if minus || begins_with b'+' start then drop 1 start else start in
    let (value, seen, end) = digits 0 false rest in
    if not seen
    then (0, text)
    else if leb u64_mod value
    then (u64_mod - 1, end)
    else if minus
    then ((u64_mod - value) % u64_mod, end)
    else (value, end)

-- `toIndex`: the index, and whether more follows it
unfoldable pub to_index : List ℕ → ℕ × Bool
unfolding strtoul
to_index raw_text =
    let (d, end) = strtoul raw_text in
    if length raw_text == 0 then (bad_index, false) else (
      if length end == length raw_text then bad_index else if ltb bad_index d then bad_index else d,
      not (length end == 0),
    )

-- `numericalName`
unfoldable pub numerical_name : List ℕ → ℕ
unfolding to_index
numerical_name [] = bad_index
numerical_name (c ∷ name) =
    let (which, impure) = to_index name in
    if c == b'#' then (if impure then bad_index else which) else bad_index

abbrev pub dot_dot : List ℕ
dot_dot = b'.' ∷ b'.' ∷ []

-- one round of the loop of `getChild`: the next node, or null, where it returns null
unfoldable pub advance : Bool → List ℕ → ℕ → Forest → Forest × ℕ
unfolding numerical_name same Chain.has Chain.nth set_size existing_child add_child
advance autocreate lname searcher s =
    let which = numerical_name lname in
    let found = existing_child lname searcher s in
    let (sized, changes) = set_size (add_u32 which 1) searcher s in
    if same lname dot_dot
    then (s, (s.node searcher).parent)
    else if Index.is_valid which
    then (if Chain.has which (wad_of searcher s)
        then (s, Chain.nth which (wad_of searcher s))
        else if autocreate
        then (sized, Chain.nth which (wad_of searcher sized))
        else (s, null))
    else if not (found == null)
    then (s, found)
    else if autocreate
    then add_child lname searcher s
    else (s, null)

-- `getChild`, with its call of itself behind a node that it made
unfoldable pub get_child : Bool → List (List ℕ) → ℕ → Forest → Forest × ℕ
unfolding advance
get_child autocreate [] searcher s = (s, searcher)
get_child autocreate (lname ∷ progeny) searcher s =
    let (s', next) = advance autocreate lname searcher s in
    if next == null then (s', null) else get_child autocreate progeny next s'

-- the loop of `getRoot`, which goes on at the parent of the node that it was called on
unfoldable pub root_loop : ℕ → ℕ → ℕ → Forest → Option ℕ
root_loop zero this searcher s = none
root_loop (suc fuel) this searcher s =
    let again = root_loop fuel this ((s.node this).parent) s in
    if not (searcher == null) && not ((s.node searcher).parent == null)
    then again
    else some searcher

unfoldable pub get_root : ℕ → ℕ → Forest → Option ℕ
unfolding root_loop
get_root fuel this s = root_loop fuel this this s

-- `findChild`: the path is taken apart, and followed from the root or from the node
unfoldable find_child : ℕ → ℕ → Bool → Indexer → Memory ℕ → ℕ → Forest → Option (Forest × ℕ)
unfolding PathParser.parse_into get_root get_child
find_child rounds fuel autocreate path mem this s =
    Option.bind (PathParser.parse_into rounds b'/' [] path mem)
      λ (genealogy : Rules × List (List ℕ)).
        Option.map (λ searcher. get_child autocreate genealogy.1 searcher s)
          (if genealogy.0.before then get_root fuel this s else some this)

-- the loop of `parentIndex`, for a count that is not negative
unfoldable parent_index : ℕ → ℕ → Forest → ℕ
parent_index zero genealogist s =
    if genealogist == null then bad_index else (s.node genealogist).index
parent_index (suc generations) genealogist s =
    let above = parent_index generations ((s.node genealogist).parent) s in
    if genealogist == null then bad_index else above

-- the pieces of `fullName`
unfoldable pathname_of : ℕ → ℕ → List (List ℕ) → Forest → Option (List (List ℕ))
pathname_of zero scan pathname s = none
pathname_of (suc fuel) scan pathname s =
    let n = s.node scan in
    let above = pathname_of fuel n.parent (n.name ∷ pathname) s in
    if n.parent == null then some (n.name ∷ pathname) else above
