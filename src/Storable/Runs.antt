-- ===== src/Storable/Runs.antt =====
-- system/storable/storable.cpp: a tree that grows from a root, by any calls in any order.
use safely.Prelude.{
  ℕ, ◌-◌, ◌<◌, ◌≡◌, refl, sym, ap, ◌∙◌, arith, Bool, true, false, Option, none, some, List, [], ltb,
  ◌==◌, if◌then◌else◌, length, get_or, u32_mod, dec_lt, subst,
}
use safely.Chain
use safely.Chain.{null}
use safely.Storable.{Kind, Forest, make}
use safely.Storable.Wad.{
  num_children, has, add_child, child, set_size, presize, remove, filicide, existing_child,
}
use safely.Storable.Links.{kids, IsKid, IsLinked, add_child-IsLinked}
use safely.Storable.Sizes.{Shortened, Shortened-IsLinked, set_size_lem}
use safely.Storable.Wadding.{presize_loop-Presized}
use safely.Storable.Notice.{remove_lem}
use safely.Storable.Path.{get_child}
use safely.Storable.Finding.{get_child_again}
use safely.Storable.Names.{AllNames}

-- a memory with one node, at the address 1
abbrev pub planted : List ℕ → Bool → Forest
planted name remote = record {
  node = λ a. make name false;
  fresh = 2;
  calls = [];
  deleted = [];
  remote = remote;
}

pub planted-IsLinked : (name : List ℕ) (remote : Bool) → IsLinked (planted name remote)
planted-IsLinked name remote = record {
  started = omega arith;
  unused = λ a h. refl;
  below = λ a h k. omega arith;
  linked = λ a i h. absurd (omega arith);
}

filicide-Shortened : (tell : Bool) (a : ℕ) (s : Forest) → Shortened s a (filicide tell a s)
unfolding filicide Chain.clear
filicide-Shortened tell a s = record {
  fresh = ground arith;
  parent = λ b. ground arith;
  index = λ b. ground arith;
  others = λ b n. ground arith;
  shorter = ground arith;
  same_at = λ i h. absurd (ground arith);
}

IsLinked-if :
    (b : Bool) (x y : Forest × ℕ) → IsLinked x.0 → IsLinked y.0 → IsLinked (if b then x else y).0
IsLinked-if true x y l m = l
IsLinked-if false x y l m = m

child-IsLinked :
    (name : List ℕ) (a : ℕ) {s : Forest} → IsLinked s → a < s.fresh → IsLinked (child name a s).0
unfolding child
child-IsLinked name a {s} l h =
    let made = add_child-IsLinked name a l h in
    let found = existing_child name a s in
    IsLinked-if (length name == 0) (add_child name a s)
      (if found == null then add_child name a s else (s, found)) made
      (IsLinked-if (found == null) (add_child name a s) (s, found) made l)

-- One call of an operation on a node of the tree.
pub data Step (s : Forest) : Forest → Type 0 where
  added : (name : List ℕ) (a : ℕ) → 0 < a → a < s.fresh → Step s (add_child name a s).0
  looked_up : (name : List ℕ) (a : ℕ) → 0 < a → a < s.fresh → Step s (child name a s).0
  followed :
      (progeny : List (List ℕ)) (a : ℕ)
      → AllNames progeny
      → 0 < a
      → a < s.fresh
      → Step s (get_child true progeny a s).0
  sized :
      (qty a : ℕ) → 0 < a → a < s.fresh → length (kids s a) < u32_mod → Step s (set_size qty a s).0
  presized : (qty : ℕ) (type : Kind) (a : ℕ) → 0 < a → a < s.fresh → Step s (presize qty type a s)
  emptied : (tell : Bool) (a : ℕ) → 0 < a → a < s.fresh → Step s (filicide tell a s)
  removed :
      (which a : ℕ) {s' : Forest} {did : Bool}
      → 0 < a
      → a < s.fresh
      → length (kids s a) < u32_mod
      → remove s.fresh which a s ≡ some (s', did)
      → Step s s'

pub data Runs : Forest → Forest → Type 0 where
  still : {s : Forest} → Runs s s
  step_on : {s t u : Forest} → Step s t → Runs t u → Runs s u

abbrev forest_of : Forest → Option (Forest × Bool) → Forest
forest_of s none = s
forest_of s (some (s', did)) = s'

remove-IsLinked :
    (which a : ℕ) {s s' : Forest} {did : Bool}
    → IsLinked s
    → 0 < a
    → a < s.fresh
    → length (kids s a) < u32_mod
    → remove s.fresh which a s ≡ some (s', did)
    → IsLinked s'
remove-IsLinked which a {s} {s'} {did} l p h w e = elim (dec_lt which (length (kids s a))) [
  | yes k ↦
      let (s1, ended, l1, items, fresh) = remove_lem s.fresh which a l p h h k w in
      subst (λ t. IsLinked t) (ap (forest_of s) (sym ended ∙ e)) l1
  | no n ↦
      let test : ltb which (length (kids s a)) ≡ false = ground arith in
      let nothing : remove s.fresh which a s ≡ some (s, false) =
        unfold remove has num_children Chain.quantity in rw test refl in
      subst (λ t. IsLinked t) (ap (forest_of s) (sym nothing ∙ e)) l
]

step-IsLinked : {s t : Forest} → Step s t → IsLinked s → IsLinked t
step-IsLinked (added name a p h) l = add_child-IsLinked name a l h
step-IsLinked (looked_up name a p h) l = child-IsLinked name a l h
step-IsLinked (followed progeny a n p h) l = (get_child_again progeny a n l p h).0
step-IsLinked (sized qty a p h w) l = (set_size_lem qty a l h w).0
step-IsLinked {s} (presized qty type a p h) l =
    unfold presize in (presize_loop-Presized (qty - num_children a s) type a l h).linked
step-IsLinked {s} (emptied tell a p h) l = Shortened-IsLinked (filicide-Shortened tell a s) l
step-IsLinked (removed which a p h w e) l = remove-IsLinked which a l p h w e

runs-IsLinked : {s t : Forest} → Runs s t → IsLinked s → IsLinked t
runs-IsLinked still l = l
runs-IsLinked (step_on step rest) l = runs-IsLinked rest (step-IsLinked step l)

-- After any run of calls that add children, look them up by name or along a path of names, set their
-- number, remove one or all of them, on any nodes of a tree that began with a root, each child points back
-- to the node that it hangs on, knows its place there, and is younger than that node.
pub runs-IsKid :
    (name : List ℕ) (remote : Bool) {s : Forest} (a i : ℕ)
    → Runs (planted name remote) s
    → i < length (kids s a)
    → IsKid s a i (get_or (kids s a) i null)
runs-IsKid name remote a i runs h = (runs-IsLinked runs (planted-IsLinked name remote)).linked a i h
