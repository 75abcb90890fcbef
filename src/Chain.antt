-- ===== src/Chain.antt =====
-- system/chain.h: `Chain`, a vector of pointers that may own what they point at, and its scanners.
--
-- A pointer is its address, and `deleted` holds what `delete` was called on, in order. The chain has no
-- live `Scanner`: the loops of `insert`, `removeNth`, `takeNth` and `clipto` over the registered ones
-- then do nothing. An operation gives the chain and its result.
pub mod Items
pub mod Ownership
pub mod Scanning
use safely.Prelude.{
  ℕ, zero, suc, ◌+◌, ◌-◌, ◌%◌, ◌^◌, Bool, true, false, not, ◌&&◌, Option, none, some, List, [], ◌∷◌,
  ◌++◌, ltb, leb, ◌==◌, if◌then◌else◌, length, get_or, set, take, drop, sub_u32, add_u32,
}
use safely.Index.{bad_index}
use safely.Indexer.Writing.{copy_object}

pub record Chain : Type 0 where
  pub is_owner : Bool
  pub items : List ℕ
  pub deleted : List ℕ

abbrev pub null : ℕ
null = 0

unfoldable make : Bool → Chain
make owner = record { is_owner = owner; items = []; deleted = [] }

unfoldable pub append : ℕ → Chain → Chain × ℕ
append thing c =
    if thing == null then (c, thing) else (record c { items = c.items ++ (thing ∷ []) }, thing)

-- `std::vector::insert` and `erase` of one item
unfoldable pub insert_at : ℕ → ℕ → List ℕ → List ℕ
insert_at zero thing xs = thing ∷ xs
insert_at (suc n) thing [] = []
insert_at (suc n) thing (x ∷ xs) = x ∷ insert_at n thing xs

unfoldable pub erase_at : ℕ → List ℕ → List ℕ
erase_at n [] = []
erase_at zero (x ∷ xs) = xs
erase_at (suc n) (x ∷ xs) = x ∷ erase_at n xs

-- at a location that is not past the end
unfoldable pub insert : ℕ → ℕ → Chain → Chain × ℕ
unfolding insert_at
insert thing location c =
    if thing == null
    then (c, thing)
    else (record c { items = insert_at location thing c.items }, thing)

-- the loop of `indexOf`, downwards
unfoldable pub index_below : ℕ → ℕ → List ℕ → ℕ
index_below zero thing xs = bad_index
index_below (suc i) thing xs =
    let rest = index_below i thing xs in if get_or xs i null == thing then i else rest

unfoldable pub index_of : ℕ → Chain → ℕ
unfolding index_below
index_of thing c = if thing == null then bad_index else index_below (length c.items) thing c.items

unfoldable pub quantity : Chain → ℕ
quantity c = length c.items

unfoldable pub nth : ℕ → Chain → ℕ
nth n c = if leb (length c.items) n then null else get_or c.items n null

unfoldable pub last : Chain → ℕ
unfolding quantity
last c = if quantity c == 0 then null else get_or c.items (quantity c - 1) null

unfoldable first : Chain → ℕ
unfolding quantity
first c = if quantity c == 0 then null else get_or c.items 0 null

unfoldable pub has : ℕ → Chain → Bool
has ordinal c = ltb ordinal (length c.items)

unfoldable pub remove_nth : ℕ → Chain → Chain × Bool
unfolding has erase_at
remove_nth n c =
    if has n c
    then (
      record c {
        items = erase_at n c.items;
        deleted = if c.is_owner then c.deleted ++ (get_or c.items n null ∷ []) else c.deleted;
      },
      true,
    )
    else (c, false)

unfoldable pub take_nth : ℕ → Chain → Chain × ℕ
unfolding nth erase_at
take_nth n c =
    if nth n c == null then (c, null) else (record c { items = erase_at n c.items }, nth n c)

unfoldable pub remove_last : Chain → Chain × Bool
unfolding remove_nth quantity
remove_last c = remove_nth (sub_u32 (quantity c) 1) c

-- a list from its end on, for the loops that delete downwards
unfoldable pub backwards : List ℕ → List ℕ
backwards [] = []
backwards (x ∷ xs) = backwards xs ++ (x ∷ [])

-- `clipto`; `none` where it erases a range outside the vector
unfoldable pub clipto : ℕ → Chain → Option Chain
unfolding backwards
clipto mark c =
    if ltb (length c.items) mark
    then none
    else some (record c {
      items = take mark c.items;
      deleted = if c.is_owner then c.deleted ++ backwards (drop mark c.items) else c.deleted;
    })

unfoldable pub remove : ℕ → Chain → Chain × Bool
unfolding remove_nth
remove thing c = remove_nth (index_of thing c) c

unfoldable pub swap : ℕ → ℕ → Chain → Chain × Bool
unfolding has
swap from to c =
    if has from c && has to c
    then (
      record c {
        items = set (set c.items from (get_or c.items to null)) to (get_or c.items from null);
      },
      true,
    )
    else (c, false)

-- `memmove` on the array of pointers, `none` where it leaves the array. The offset `sizeof(T*)` counts
-- pointers, eight of them; where it takes the source below 0 the move leaves the array too.
unfoldable pub move_items : ℕ → ℕ → ℕ → List ℕ → Option (List ℕ)
move_items source target n xs =
    if leb (source + n) (length xs) && leb (target + n) (length xs)
    then some (copy_object source target n xs)
    else none

unfoldable pub pointer_size : ℕ
pointer_size = 8

unfoldable settle : ℕ → ℕ → Chain → Option (List ℕ) → Option (Chain × Bool)
settle thing to c none = none
settle thing to c (some xs) = some (record c { items = set xs to thing }, true)

unfoldable pub relocate : ℕ → ℕ → Chain → Option (Chain × Bool)
unfolding has move_items pointer_size settle
relocate from to c =
    if has from c && has to c
    then (if from == to
        then some (c, false)
        else settle (get_or c.items from null) to c (
            if ltb to from
            then move_items (to + pointer_size) to (from - to) c.items
            else if leb pointer_size to
            then move_items (to - pointer_size) to (to - from) c.items
            else none))
    else some (c, false)

-- `clear`, which the destructor calls
unfoldable pub clear : Chain → Chain
unfolding backwards
clear c = record c {
  items = [];
  deleted = if c.is_owner then c.deleted ++ backwards c.items else c.deleted;
}

-- `forEach` and `Any` go through the items in order
unfoldable pub any {ℓ} : {A : Type ℓ} → (A → Bool) → List A → Bool
any predicate [] = false
any predicate (x ∷ xs) = if predicate x then true else any predicate xs

-- `ConstScanner`; `Scanner` has the same `step` and the same moves
pub record Scanner : Type 0 where
  pub step : ℕ
  pub in_reverse : Bool

module _ {ℓ} {A : Type ℓ} where
  unfoldable pub scanner : Bool → List A → Scanner
  scanner in_reverse items = record {
    step = if in_reverse then length items else 0;
    in_reverse = in_reverse;
  }

  unfoldable pub has_next : List A → Scanner → Bool
  has_next items s = if s.in_reverse then not (s.step == 0) else ltb s.step (length items)

  unfoldable pub rewind : List A → ℕ → Scanner → Scanner
  rewind items backup s =
      if s.in_reverse
      then (if ltb backup (sub_u32 (length items) s.step)
          then record s { step = add_u32 s.step backup }
          else record s { step = length items })
      else if leb backup s.step
      then record s { step = s.step - backup }
      else record s { step = 0 }

-- `operator()` and `next`: the place of the item, and the scanner after it
unfoldable pub next : Scanner → ℕ × Scanner
next s =
    if s.in_reverse
    then (sub_u32 s.step 1, record s { step = sub_u32 s.step 1 })
    else (s.step, record s { step = add_u32 s.step 1 })

unfoldable pub ordinal : Scanner → ℕ
ordinal s = if s.in_reverse then sub_u32 s.step 1 else s.step

-- what a chain tells a `Scanner` of an item that goes or comes
unfoldable removing : ℕ → Scanner → Scanner
removing which s = if ltb which s.step then record s { step = s.step - 1 } else s

unfoldable adding : ℕ → Scanner → Scanner
adding which s = if ltb which s.step then record s { step = add_u32 s.step 1 } else s
