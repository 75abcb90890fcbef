-- ===== src/Storable.antt =====
-- system/storable/storable.h and storable.cpp: the nodes of a tree of values, their types, qualities and
-- texts, and whom they tell of a change.
--
-- A node is at an address, which is not 0, in a memory that is a function; a new node takes the first
-- address that was never used, and one that is deleted stays readable. The calls of watchers and of the
-- mirror are recorded in order. The number of a node and its enumeration are not modelled.
pub mod Wad
pub mod Links
pub mod Sizes
pub mod Wadding
pub mod Widening
pub mod Renumbering
pub mod Removal
pub mod Notice
pub mod Path
pub mod Names
pub mod Finding
pub mod Roots
pub mod Reuser
pub mod Changes
pub mod Runs
pub mod Polling
pub mod Loss
pub mod Freezing
use mathlib.Core.Option
use safely.Prelude.{
  ℕ, zero, suc, ◌+◌, Bool, true, false, not, ◌&&◌, ◌||◌, Option, none, some, List, [], ◌∷◌, ◌++◌,
  ltb, ◌==◌, if◌then◌else◌, leb,
}
use safely.Index.{bad_index}
use safely.Chain.{Chain, null}
use safely.Cstr.{same}

-- `Storable::Type`
pub data Kind : Type 0 where
  not_defined : Kind
  uncertain : Kind
  textual : Kind
  numerical : Kind
  wad_of_kids : Kind

pub data Quality : Type 0 where
  empty : Quality
  defaulted : Quality
  parsed : Quality
  edited : Quality

-- the numbers of the two enumerations
abbrev pub rank : Kind → ℕ
rank not_defined = 0
rank uncertain = 1
rank textual = 2
rank numerical = 3
rank wad_of_kids = 4

abbrev pub grade : Quality → ℕ
grade empty = 0
grade defaulted = 1
grade parsed = 2
grade edited = 3

pub record Node : Type 0 where
  pub name : List ℕ
  pub is_volatile : Bool
  pub modified : Bool
  pub type : Kind
  pub quality : Quality
  pub text : List ℕ
  pub parent : ℕ
  pub index : ℕ
  pub wad : Chain

-- what is called: the watchers of a node and of its children, those of its wad, and the mirror
pub data Call : Type 0 where
  value_changed : ℕ → Call
  child_changed : ℕ → Call
  wad_changed : ℕ → Bool → ℕ → Call
  mirror_add : ℕ → Call
  mirror_alter : ℕ → Call
  mirror_remove : ℕ → Call

-- the memory, with the calls made, what `delete this` was called on, and whether there is a mirror
pub record Forest : Type 0 where
  pub node : ℕ → Node
  pub fresh : ℕ
  pub calls : List Call
  pub deleted : List ℕ
  pub remote : Bool

-- the constructor `Storable(name, isVolatile)`
abbrev pub make : List ℕ → Bool → Node
make name is_volatile = record {
  name = name;
  is_volatile = is_volatile;
  modified = false;
  type = not_defined;
  quality = empty;
  text = [];
  parent = null;
  index = bad_index;
  wad = record { is_owner = true; items = []; deleted = [] };
}

abbrev is_trivial : Node → Bool
is_trivial n = rank n.type == 0 || grade n.quality == 0

-- `is(Type)` at `Wad`
abbrev pub is_wad : Node → Bool
is_wad n = rank n.type == 4

unfoldable pub set_type : Kind → Node → Node × Bool
set_type newtype n =
    if is_trivial n
    then (record n { type = newtype }, false)
    else (record n { type = newtype }, not (rank n.type == rank newtype))

unfoldable pub set_quality : Quality → Node → Node × Bool
set_quality quality n =
    if grade n.quality == 0
    then (record n { quality = quality }, not (grade n.quality == grade quality))
    else (record n { quality = quality }, false)

-- `also` of `ChangeMonitored`
abbrev pub also : Bool → Node → Node
also child n = record n { modified = n.modified || child }

abbrev pub update : Forest → ℕ → Node → Forest
update s a n = record s { node = λ b. if b == a then n else s.node b }

abbrev pub called : Call → Forest → Forest
called call s = record s { calls = s.calls ++ (call ∷ []) }

abbrev pub called_remote : Call → Forest → Forest
called_remote call s = if s.remote then called call s else s

-- `recursiveNotify`, which goes up to the root
unfoldable pub recursive_notify : ℕ → ℕ → Forest → Option Forest
recursive_notify zero this s = none
recursive_notify (suc fuel) this s =
    let parent = (s.node this).parent in
    let above = recursive_notify fuel parent (called (child_changed parent) s) in
    if parent == null then some s else above

unfoldable pub notify : ℕ → ℕ → Forest → Option Forest
unfolding recursive_notify
notify fuel this s =
    recursive_notify fuel this (called (value_changed this) (called_remote (mirror_alter this) s))

-- `noteQuality`
unfoldable note_quality : ℕ → Quality → Bool → ℕ → Forest → Option (Forest × Bool)
unfolding set_quality notify
note_quality fuel quality already_changed this s =
    let (n, fresh_change) = set_quality quality (s.node this) in
    let altered = already_changed || fresh_change in
    let s' = update s this (also altered n) in
    if altered then Option.map (λ s''. (s'', true)) (notify fuel this s') else some (s', false)

-- `setImageFrom`; whether `reinterpret` gives a numerical node another number is a parameter
unfoldable set_image_from : (Node → Bool) → ℕ → List ℕ → Quality → ℕ → Forest → Option Forest
unfolding set_type set_quality note_quality same
set_image_from reinterpret fuel value quality this s =
    let n = s.node this in
    let touched = record n { text = value } in
    let typed = if grade quality == 3 then (set_type textual touched).0 else touched in
    let notifeye = if rank n.type == 3 then reinterpret touched else not (same n.text value) in
    if is_trivial n
    then some (update s this (set_quality quality typed).0)
    else Option.map (λ (r : Forest × Bool). r.0)
        (note_quality fuel quality notifeye this (update s this touched))

-- `setDefault` of a text
unfoldable set_default : (Node → Bool) → ℕ → List ℕ → ℕ → Forest → Option Forest
unfolding set_image_from
set_default reinterpret fuel value this s =
    if leb (grade (s.node this).quality) 1
    then set_image_from reinterpret fuel value defaulted this s
    else some s
