-- ===== src/Tests/Trees.antt =====
-- system/storable/storable.cpp at small trees.
use mathlib.Core.List
use safely.Prelude.{
  ℕ, ◌≡◌, ◌≢◌, ◌<◌, ◌≤◌, refl, arith, Bool, true, false, none, some, List, [], ◌∷◌, ◌++◌, ◌==◌,
  if◌then◌else◌, length, get_or, sub_u32,
}
use safely.Chain.{null}
use safely.Storable.{Forest, mirror_alter, value_changed, child_changed, notify}
use safely.Cstr.{same}
use safely.Storable.Wad.{wad_of, num_children, add_child, set_size, suicide, removed}
use safely.Storable.Links.{kids, IsKid, IsLinked, add_child-IsLinked}
use safely.Storable.Sizes.{set_size_lem}
use safely.Storable.Notice.{AreAbove, heard, notify_lem}
use safely.Storable.Path.{
  numerical_name, to_index, strtoul, skip_space, digits, get_child, get_root,
}
use safely.Storable.Finding.{get_child_again}
use safely.Storable.Names.{AllNames}
use safely.Storable.Roots.{get_root_lem}
use safely.Storable.Changes.{is_modified, clone}
use safely.Storable.Polling.{IsDirty, is_modified-IsDirty}
use safely.Storable.Reuser
use safely.Storable.Reuser.Nexts.{reuse}
use safely.Storable.Reuser.Laws.{reuse-done}
use safely.Storable.Runs.{planted, planted-IsLinked, Runs, still, step_on, added, runs-IsKid}
use safely.Storable.Loss.{clone_childless, suicide_twice}

-- a root with a mirror, its children `a` at 2 and `b` at 3, and a child `c` of `a` at 4
abbrev root : Forest
root = planted (b'r' ∷ []) true

abbrev one : Forest
one = (add_child (b'a' ∷ []) 1 root).0

abbrev two : Forest
two = (add_child (b'b' ∷ []) 1 one).0

abbrev tree : Forest
tree = (add_child (b'c' ∷ []) 2 two).0

tree_fresh : tree.fresh ≡ 5
unfolding add_child
tree_fresh = refl

tree-kids : kids tree 1 ≡ 2 ∷ 3 ∷ []
unfolding add_child
tree-kids = refl

tree-IsLinked : IsLinked tree
unfolding add_child
tree-IsLinked =
    add_child-IsLinked (b'c' ∷ []) 2
      (add_child-IsLinked (b'b' ∷ []) 1
        (add_child-IsLinked (b'a' ∷ []) 1 (planted-IsLinked (b'r' ∷ []) true) (omega arith))
        (omega arith))
      (omega arith)

tree_runs : Runs root tree
unfolding add_child
tree_runs = step_on (added (b'a' ∷ []) 1 (omega arith) (omega arith)) (
    step_on (added (b'b' ∷ []) 1 (omega arith) (omega arith))
      (step_on (added (b'c' ∷ []) 2 (omega arith) (omega arith)) still))

runs-IsKid_example : IsKid tree 1 1 (get_or (kids tree 1) 1 null)
runs-IsKid_example = runs-IsKid (b'r' ∷ []) true 1 1 tree_runs (rw tree-kids (omega arith))

tree_owner : (wad_of 1 tree).is_owner ≡ true
unfolding add_child
tree_owner = refl

names : AllNames ((b'b' ∷ []) ∷ (b'd' ∷ []) ∷ [])
unfolding same numerical_name to_index strtoul skip_space digits
names = ((refl, refl), ((refl, refl), tt))

get_child_again_example :
    let (s', found) = get_child true ((b'b' ∷ []) ∷ (b'd' ∷ []) ∷ []) 1 tree in
    IsLinked s'
    × (found ≢ null)
    × (get_child false ((b'b' ∷ []) ∷ (b'd' ∷ []) ∷ []) 1 s' ≡ (s', found))
get_child_again_example =
    get_child_again ((b'b' ∷ []) ∷ (b'd' ∷ []) ∷ []) 1 names tree-IsLinked (omega arith)
      (rw tree_fresh (omega arith))

is_modified-IsDirty_example :
    (b : Bool) × (is_modified 5 1 tree ≡ some b)
    × (b ≡ true → IsDirty tree 1)
    × (IsDirty tree 1 → b ≡ true)
is_modified-IsDirty_example =
    is_modified-IsDirty 5 1 tree-IsLinked (rw tree_fresh (omega arith))
      (rw tree_fresh (omega arith))

-- the first child, which has one child, is reused and given a second; the other child goes
reuse-done_example :
    let (s1, r, given) = reuse 1 (Reuser.make 1 2) tree in
    ((i : ℕ) → i < 1 → 2 ≤ length (kids s1 (get_or given i null)))
    × ((s' : Forest) × (Reuser.done 2 r s1 ≡ some (s', 1))
        × IsLinked s'
        × (length given ≡ 1)
        × (kids s' 1 ≡ given)
        × ((i : ℕ)
            → i < length (kids tree 1)
            → i < 1
            → get_or given i null ≡ get_or (kids tree 1) i null))
reuse-done_example =
    reuse-done 2 1 2 1 tree-IsLinked (omega arith) (rw tree_fresh (omega arith)) (omega arith)
      (rw tree-kids (omega arith)) (omega arith)

notify_lem_example :
    (ps : List ℕ) × AreAbove tree 4 ps
    × (notify 5 4 tree
        ≡ some (
            heard
              ((if tree.remote then mirror_alter 4 ∷ [] else [])
                ++ (value_changed 4 ∷ List.map child_changed ps))
              tree))
notify_lem_example =
    notify_lem 5 4 tree-IsLinked (omega arith) (rw tree_fresh (omega arith)) (omega arith)

set_size_lem_example :
    let (s', changes) = set_size 1 1 tree in
    IsLinked s' × (num_children 1 s' ≡ 1) × (changes ≡ sub_u32 1 (num_children 1 tree))
set_size_lem_example =
    set_size_lem 1 1 tree-IsLinked (rw tree_fresh (omega arith)) (rw tree-kids (omega arith))

get_root_lem_example : get_root 2 4 tree ≡ (
    if (tree.node 4).parent == null
    then some 4
    else if (tree.node (tree.node 4).parent).parent == null
    then some ((tree.node 4).parent)
    else none)
get_root_lem_example = get_root_lem 0 4 tree (omega arith)

clone_childless_example :
    (s' : Forest) × (clone 1 3 2 tree ≡ some s')
    × (kids s' 3 ≡ [])
    × ((s'.node 3).type ≡ (tree.node 2).type)
    × ((s'.node 3).text ≡ (tree.node 2).text)
clone_childless_example = clone_childless 0 3 2 tree

suicide_twice_example :
    let this = get_or (kids tree 1) 0 null in
    (s' : Forest) × (suicide 2 true this tree ≡ some (s', true))
    × ((wad_of 1 s').deleted ≡ (wad_of 1 tree).deleted ++ (this ∷ []))
    × (s'.deleted ≡ (removed 0 1 tree).deleted ++ (this ∷ []))
suicide_twice_example =
    suicide_twice 2 1 0 tree-IsLinked (omega arith) (rw tree_fresh (omega arith)) (omega arith)
      (rw tree-kids (omega arith)) (rw tree-kids (omega arith)) tree_owner
