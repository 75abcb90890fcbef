-- ===== src/Storable/Changes.antt =====
-- system/storable/storable.cpp: what goes through a node and all that hangs on it: the search for changes,
-- the count of values, and the copy.
--
-- The calls of a method on the children are on fuel, and `none` is a call that has not returned.
use mathlib.Core.Option
use safely.Prelude.{
  ℕ, zero, suc, Bool, true, false, ◌&&◌, ◌||◌, Option, none, some, List, [], ◌∷◌, ltb, ◌==◌,
  if◌then◌else◌, add_u32,
}
use safely.Chain
use safely.Chain.{null}
use safely.Storable.{textual, rank, Node, Forest, is_wad, set_type, update}
use safely.Storable.Wad.{
  wad_of, num_children, has, precreate, finish_creating_child, filicide, remove,
}

-- `Chain::Any`, of a method that may not return
unfoldable pub any_kid : (ℕ → Option Bool) → List ℕ → Option Bool
any_kid test [] = some false
any_kid test (kid ∷ kids) =
    let rest = any_kid test kids in
    Option.bind (test kid) (λ found. if found then some true else rest)

unfoldable pub is_modified : ℕ → ℕ → Forest → Option Bool
unfolding any_kid
is_modified zero this s = none
is_modified (suc fuel) this s =
    let n = s.node this in
    let inside = any_kid (λ kid. is_modified fuel kid s) n.wad.items in
    if n.is_volatile
    then some false
    else if is_wad n
    then Option.map (λ found. found || n.modified) inside
    else some (ltb 1 (rank n.type) && n.modified)

-- `forEach` of a method that changes the memory, with the count of those that gave true
unfoldable each_kid :
    (ℕ → Forest → Option (Forest × Bool)) → List ℕ → ℕ → Forest → Option (Forest × ℕ)
each_kid method [] count s = some (s, count)
each_kid method (kid ∷ kids) count s =
    Option.bind (method kid s)
      (λ (r : Forest × Bool). each_kid method kids (if r.1 then add_u32 count 1 else count) r.0)

unfoldable was_modified : ℕ → ℕ → Forest → Option (Forest × Bool)
unfolding each_kid
was_modified zero this s = none
was_modified (suc fuel) this s =
    let n = s.node this in
    let s' = update s this (record n { modified = false }) in
    let inside = each_kid (was_modified fuel) n.wad.items 0 s' in
    if n.is_volatile
    then some (s', false)
    else if is_wad n
    then Option.map (λ (r : Forest × ℕ). (r.0, ltb 0 r.1 || n.modified)) inside
    else some (s', ltb 1 (rank n.type) && n.modified)

-- the loop of `numLeaves`
unfoldable sum_kids : (ℕ → Option ℕ) → List ℕ → ℕ → Option ℕ
sum_kids leaves [] count = some count
sum_kids leaves (kid ∷ kids) count =
    Option.bind (leaves kid) (λ n. sum_kids leaves kids (add_u32 count n))

unfoldable num_leaves : ℕ → ℕ → Forest → Option ℕ
unfolding sum_kids
num_leaves zero this s = none
num_leaves (suc fuel) this s =
    let n = s.node this in
    let inside = sum_kids (λ kid. num_leaves fuel kid s) n.wad.items 0 in
    if is_wad n then inside else some 1

-- the loop of `resolve`
unfoldable resolve_kids : (ℕ → Forest → Option (Forest × Bool)) → List ℕ → Forest → Option Forest
resolve_kids method [] s = some s
resolve_kids method (kid ∷ kids) s =
    Option.bind (method kid s) (λ (r : Forest × Bool). resolve_kids method kids r.0)

unfoldable resolve : ℕ → Bool → ℕ → Forest → Option (Forest × Bool)
unfolding resolve_kids set_type
resolve zero recursively this s = none
resolve (suc fuel) recursively this s =
    let n = s.node this in
    let inside = resolve_kids (resolve fuel true) n.wad.items s in
    if rank n.type == 1
    then some (update s this (set_type textual n).0, true)
    else if recursively && is_wad n
    then Option.map (λ s'. (s', false)) inside
    else some (s, false)

-- what `clone` copies of the node itself
abbrev pub copied : Node → Node → Node
copied n other = record n { type = other.type; quality = other.quality; text = other.text }

-- the loop of `clone`, over the children of the node that is copied to, which it adds to
unfoldable pub clone_kids :
    (ℕ → ℕ → Forest → Option (Forest × ℕ)) → ℕ → ℕ → ℕ → Forest → Option Forest
unfolding has Chain.nth
clone_kids create zero place this s = none
clone_kids create (suc fuel) place this s =
    let rest =
      Option.bind (create this (Chain.nth place (wad_of this s)) s)
        (λ (r : Forest × ℕ). clone_kids create fuel (add_u32 place 1) this r.0) in
    if has place this s then rest else some s

-- `createChild`, with the method that clones
unfoldable pub create_child :
    (ℕ → ℕ → Forest → Option Forest) → ℕ → ℕ → Forest → Option (Forest × ℕ)
unfolding precreate finish_creating_child
create_child clone this other s =
    let (s', noob) = precreate ((s.node other).name) this s in
    Option.map (λ s''. (finish_creating_child noob this s'', noob)) (clone noob other s')

unfoldable pub clone : ℕ → ℕ → ℕ → Forest → Option Forest
unfolding clone_kids create_child filicide
clone zero this other s = none
clone (suc fuel) this other s =
    let s1 = filicide false this s in
    let s2 = update s1 this (copied (s1.node this) (s1.node other)) in
    let with_kids = clone_kids (create_child (clone fuel)) (suc fuel) 0 this s2 in
    if is_wad (s2.node other) then with_kids else some s2

-- the loop of `reparent`
unfoldable move_kids : ℕ → ℕ → ℕ → Forest → Forest
unfolding Chain.take_nth Chain.append
move_kids zero this newparent s = s
move_kids (suc rounds) this newparent s =
    let n = s.node this in
    let (rest, kid) = Chain.take_nth 0 n.wad in
    let s1 = update s this (record n { wad = rest }) in
    let s2 = update s1 kid (record (s1.node kid) { parent = newparent }) in
    let p = s2.node newparent in
    let s3 = update s2 newparent (record p { wad = (Chain.append kid p.wad).0 }) in
    if kid == null then s else move_kids rounds this newparent s3

unfoldable reparent : ℕ → ℕ → ℕ → Forest → Option Forest
unfolding move_kids remove num_children
reparent fuel newparent this s =
    let s' = move_kids (num_children this s) this newparent s in
    if is_wad (s.node this)
    then Option.map (λ (r : Forest × Bool). r.0)
        (remove fuel ((s'.node this).index) ((s'.node this).parent) s')
    else some s
