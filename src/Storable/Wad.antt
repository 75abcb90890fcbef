-- ===== src/Storable/Wad.antt =====
-- system/storable/storable.cpp: the children of a node, which come, are found and go.
use mathlib.Core.Option
use safely.Prelude.{
  ℕ, zero, suc, ◌-◌, Bool, true, false, not, ◌&&◌, Option, some, List, [], ◌∷◌, ◌++◌, ltb, leb,
  ◌==◌, if◌then◌else◌, length, sub_u32, add_u32,
}
use safely.Chain
use safely.Chain.{Chain, null}
use safely.Storable.{
  Kind, wad_of_kids, defaulted, grade, Node, Forest, wad_changed, mirror_add, mirror_remove,
  value_changed, make, set_type, set_quality, also, update, called, called_remote, notify,
}
use safely.Cstr.{same}

abbrev pub wad_of : ℕ → Forest → Chain
wad_of this s = (s.node this).wad

unfoldable pub num_children : ℕ → Forest → ℕ
unfolding Chain.quantity
num_children this s = Chain.quantity (wad_of this s)

unfoldable pub has : ℕ → ℕ → Forest → Bool
unfolding num_children
has ordinal this s = ltb ordinal (num_children this s)

-- what `precreate` makes of the node itself
unfoldable become_wad : Node → Node
unfolding set_type
become_wad n =
    let typed = (set_type wad_of_kids n).0 in
    also true (if grade typed.quality == 0 then record typed { quality = defaulted } else typed)

-- `precreate`: the new node's address is beside the memory
unfoldable pub precreate : List ℕ → ℕ → Forest → Forest × ℕ
unfolding become_wad
precreate name this s =
    let s' = update s this (become_wad (s.node this)) in
    (
      record (update s' s.fresh (record (make name false) { parent = this })) {
        fresh = suc s.fresh;
      },
      s.fresh,
    )

unfoldable pub finish_creating_child : ℕ → ℕ → Forest → Forest
unfolding Chain.append Chain.quantity
finish_creating_child noob this s =
    let at = Chain.quantity (wad_of this s) in
    let s1 = update s noob (record (s.node noob) { index = at }) in
    let parent = s1.node this in
    let s2 = update s1 this (record parent { wad = (Chain.append noob parent.wad).0 }) in
    called_remote (mirror_add noob) (called (wad_changed this false at) s2)

unfoldable pub add_child : List ℕ → ℕ → Forest → Forest × ℕ
unfolding precreate finish_creating_child
add_child name this s =
    let (s', noob) = precreate name this s in (finish_creating_child noob this s', noob)

-- the loop of `existingChild`, over the children
unfoldable pub first_named : List ℕ → (ℕ → Node) → List ℕ → ℕ
unfolding same
first_named name node [] = null
first_named name node (kid ∷ kids) =
    if same ((node kid).name) name then kid else first_named name node kids

-- `existingChild`; the null pointer where there is none
unfoldable pub existing_child : List ℕ → ℕ → Forest → ℕ
unfolding first_named
existing_child name this s = first_named name s.node ((wad_of this s).items)

-- `child`; a trivial name is that of no child that is looked for
unfoldable pub child : List ℕ → ℕ → Forest → Forest × ℕ
unfolding existing_child add_child
child name this s =
    let found = existing_child name this s in
    if length name == 0
    then add_child name this s
    else if found == null
    then add_child name this s
    else (s, found)

-- the loops of `setSize`, with what they count
unfoldable pub shrink : ℕ → ℕ → ℕ → Forest → Forest × ℕ
unfolding Chain.remove_last Chain.quantity
shrink zero changes this s = (s, changes)
shrink (suc rounds) changes this s =
    let n = s.node this in
    let s' = update s this (record n { wad = (Chain.remove_last n.wad).0 }) in
    let told = called (wad_changed this true (Chain.quantity (wad_of this s'))) s' in
    shrink rounds (sub_u32 changes 1) this told

unfoldable pub stretch : ℕ → ℕ → ℕ → Forest → Forest × ℕ
unfolding add_child
stretch zero changes this s = (s, changes)
stretch (suc rounds) changes this s =
    stretch rounds (add_u32 changes 1) this (add_child [] this s).0

-- `setSize`, with the count that it returns
unfoldable pub set_size : ℕ → ℕ → Forest → Forest × ℕ
unfolding shrink stretch num_children
set_size qty this s =
    let (s', changes) = shrink (num_children this s - qty) 0 this s in
    stretch (qty - num_children this s') changes this s'

-- the loop of `presize`, and `presize`
unfoldable pub presize_loop : ℕ → Kind → ℕ → Forest → Forest
unfolding add_child set_type set_quality
presize_loop zero type this s = s
presize_loop (suc i) type this s =
    let (s', kid) = add_child [] this s in
    let typed = (set_type type (s'.node kid)).0 in
    presize_loop i type this (update s' kid (set_quality defaulted typed).0)

unfoldable pub presize : ℕ → Kind → ℕ → Forest → Forest
unfolding presize_loop num_children
presize qty type this s = presize_loop (qty - num_children this s) type this s

unfoldable pub add_wad : ℕ → Kind → List ℕ → ℕ → Forest → Forest × ℕ
unfolding precreate presize finish_creating_child
add_wad qty type name this s =
    let (s', noob) = precreate name this s in
    (finish_creating_child noob this (presize qty type noob s'), noob)

-- the loop of `nth`
unfoldable pub grow : ℕ → ℕ → Forest → Forest
unfolding add_child
grow zero this s = s
grow (suc rounds) this s = grow rounds this (add_child [] this s).0

-- `nth` that may stretch the wad
unfoldable pub nth : ℕ → Bool → ℕ → Forest → Forest × ℕ
unfolding has grow num_children Chain.nth Chain.last
nth ordinal autocreate this s =
    let s' = grow (suc ordinal - num_children this s) this s in
    if not (has ordinal this s) && autocreate
    then (s', Chain.last (wad_of this s'))
    else (s, Chain.nth ordinal (wad_of this s))

-- the loop of `remove` that renumbers what is behind the gap, from the last child down
unfoldable pub renumber : ℕ → ℕ → ℕ → Forest → Forest
unfolding Chain.nth
renumber zero which this s = s
renumber (suc ci) which this s =
    let kid = Chain.nth ci (wad_of this s) in
    let n = s.node kid in
    let s' = renumber ci which this (update s kid (record n { index = sub_u32 n.index 1 })) in
    if leb which ci then s' else s

-- `remove` of a child that there is, up to its call of `notify`
unfoldable pub removed : ℕ → ℕ → Forest → Forest
unfolding renumber Chain.remove_nth Chain.quantity Chain.nth
removed which this s =
    let s1 = called_remote (mirror_remove (Chain.nth which (wad_of this s))) s in
    let n = s1.node this in
    let s2 = update s1 this (record n { wad = (Chain.remove_nth which n.wad).0 }) in
    let s3 = renumber (Chain.quantity (wad_of this s2)) which this s2 in
    update s3 this (also true (s3.node this))

unfoldable pub remove : ℕ → ℕ → ℕ → Forest → Option (Forest × Bool)
unfolding has removed notify
remove fuel which this s =
    if has which this s
    then Option.map (λ s'. (s', true)) (notify fuel this (removed which this s))
    else some (s, false)

-- `removeChild` of a node, and by name
unfoldable remove_child : ℕ → ℕ → ℕ → Forest → Option (Forest × Bool)
unfolding remove Chain.index_of
remove_child fuel node this s = remove fuel (Chain.index_of node (wad_of this s)) this s

unfoldable remove_named : ℕ → List ℕ → ℕ → Forest → Option (Forest × Bool)
unfolding remove existing_child
remove_named fuel name this s =
    let moriturus = existing_child name this s in
    if moriturus == null then some (s, false) else remove fuel ((s.node moriturus).index) this s

unfoldable pub filicide : Bool → ℕ → Forest → Forest
unfolding Chain.clear num_children
filicide notify this s =
    let n = also (not (num_children this s == 0)) (s.node this) in
    let s' = update s this (record n { wad = Chain.clear n.wad }) in
    if notify then called (value_changed this) s' else s'

unfoldable pub suicide : ℕ → Bool → ℕ → Forest → Option (Forest × Bool)
unfolding remove
suicide fuel and_delete this s =
    let parent = (s.node this).parent in
    if parent == null
    then some (s, false)
    else Option.map
        (λ (r : Forest × Bool).
          (if and_delete then record (r.0) { deleted = r.0.deleted ++ (this ∷ []) } else r.0, true))
        (remove fuel ((s.node this).index) parent s)
