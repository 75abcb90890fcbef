-- ===== src/Storable/Names.antt =====
-- system/storable/storable.cpp: children by their names, and how they are found again.
use safely.Prelude.{
  ℕ, suc, ◌≤◌, ◌<◌, ◌≡◌, ◌≢◌, refl, ap, ◌∙◌, arith, Bool, true, false, not, List, [], ◌∷◌, ◌++◌,
  ◌==◌, if◌then◌else◌, length, get_or, subst, Bool-cases, inl, inr,
}
use safely.Index.{bad_index}
use safely.Chain.{null}
use safely.Storable.{Node, Forest}
use safely.Cstr.{same}
use safely.Cstr.Ends.{same_refl}
use safely.Storable.Wad.{first_named, existing_child, add_child}
use safely.Storable.Links.{kids, IsLinked, add_child-Grown}
use safely.Storable.Path.{numerical_name, dot_dot, advance}

-- A piece of a path that is a name: not that of the parent, and no number.
abbrev pub IsName : List ℕ → Type 0
IsName lname = (same lname dot_dot ≡ false) × (numerical_name lname ≡ bad_index)

abbrev pub AllNames : List (List ℕ) → Type 0
AllNames [] = Unit {0}
AllNames (lname ∷ progeny) = IsName lname × AllNames progeny

-- the step for a name: to the child that has it, or to a new one
pub advance-name :
    (autocreate : Bool) (lname : List ℕ) (a : ℕ) (s : Forest)
    → IsName lname
    → advance autocreate lname a s ≡ (
        if not (existing_child lname a s == null)
        then (s, existing_child lname a s)
        else if autocreate
        then add_child lname a s
        else (s, null))
unfolding advance
advance-name autocreate lname a s h = rw (h.0) (rw (h.1) refl)

-- where the first child of a name is
first_named-at :
    (name : List ℕ) (node : ℕ → Node) (xs : List ℕ)
    → first_named name node xs ≢ null
    → (i : ℕ) × (i < length xs) × (get_or xs i null ≡ first_named name node xs)
unfolding first_named
first_named-at name node [] h = absurd (h refl)
first_named-at name node (x ∷ xs) h = elim (Bool-cases (same ((node x).name) name)) [
  | inl e ↦ (0, omega arith, rw e refl)
  | inr e ↦
      let rest : first_named name node xs ≢ null = rw e at h in
      let (i, less, at) = first_named-at name node xs rest in (suc i, omega arith, rw e at)
]

-- the search looks at the names of the children
first_named-same :
    (name : List ℕ) (node node' : ℕ → Node) (xs : List ℕ)
    → ((i : ℕ) → i < length xs → (node' (get_or xs i null)).name ≡ (node (get_or xs i null)).name)
    → first_named name node' xs ≡ first_named name node xs
unfolding first_named
first_named-same name node node' [] h = refl
first_named-same name node node' (x ∷ xs) h =
    rw (h 0 (omega arith))
      (rw (first_named-same name node node' xs (λ i k. h (suc i) (omega arith))) refl)

-- behind children of which none has the name
first_named-last :
    (name : List ℕ) (node : ℕ → Node) (xs : List ℕ) (k : ℕ)
    → ((i : ℕ) → i < length xs → get_or xs i null ≢ null)
    → first_named name node xs ≡ null
    → same ((node k).name) name ≡ true
    → first_named name node (xs ++ (k ∷ [])) ≡ k
unfolding first_named
first_named-last name node [] k h e t = rw t refl
first_named-last name node (x ∷ xs) k h e t = elim (Bool-cases (same ((node x).name) name)) [
  | inl found ↦ let nothing : x ≡ null = rw found at e in absurd (h 0 (omega arith) nothing)
  | inr other ↦
      let rest : first_named name node xs ≡ null = rw other at e in
      rw other (first_named-last name node xs k (λ i l. h (suc i) (omega arith)) rest t)
]

-- What stays while children are made: names, and the children of older nodes.
pub record Extends (p : ℕ) (s s' : Forest) : Type 0 where
  pub fresh : s.fresh ≤ s'.fresh
  pub names : (b : ℕ) → b < s.fresh → (s'.node b).name ≡ (s.node b).name
  pub items : (b : ℕ) → b < p → kids s' b ≡ kids s b

pub existing_child-Extends :
    (lname : List ℕ) (a : ℕ) {p : ℕ} {s s' : Forest}
    → IsLinked s
    → Extends p s s'
    → a < p
    → existing_child lname a s' ≡ existing_child lname a s
unfolding existing_child
existing_child-Extends lname a {p} {s} {s'} l x h =
    ap (first_named lname s'.node) (x.items a h)
    ∙ first_named-same lname s.node s'.node (kids s a) (λ i k.
      let (after, before, up, place) = l.linked a i k in x.names (get_or (kids s a) i null) before)

-- a child that is found is linked
pub found_kid :
    (lname : List ℕ) (a : ℕ) {s : Forest}
    → IsLinked s
    → existing_child lname a s ≢ null
    → (a < existing_child lname a s) × (existing_child lname a s < s.fresh)
unfolding existing_child
found_kid lname a {s} l h =
    let (i, less, at) = first_named-at lname s.node (kids s a) h in
    let (after, before, up, place) = l.linked a i less in
    (subst (λ k. a < k) at after, subst (λ k. k < s.fresh) at before)

pub add_child-names :
    (lname : List ℕ) (a : ℕ) (s : Forest)
    → a < s.fresh
    → let s' = (add_child lname a s).0 in
      ((b : ℕ) → b ≢ s.fresh → (s'.node b).name ≡ (s.node b).name)
      × ((s'.node s.fresh).name ≡ lname)
unfolding add_child
add_child-names lname a s h = (λ b n. ground arith, ground arith)

pub add_child-found :
    (lname : List ℕ) (a : ℕ) {s : Forest}
    → IsLinked s
    → a < s.fresh
    → existing_child lname a s ≡ null
    → existing_child lname a (add_child lname a s).0 ≡ s.fresh
unfolding existing_child
add_child-found lname a {s} l h e =
    let s' = (add_child lname a s).0 in
    let g = add_child-Grown lname a s l.started h in
    let (names, named) = add_child-names lname a s h in
    let kid_before = λ (i : ℕ) (k : i < length (kids s a)). (l.linked a i k).1 in
    let none_yet : first_named lname s'.node (kids s a) ≡ null =
      first_named-same lname s.node s'.node (kids s a)
        (λ i k. names (get_or (kids s a) i null) (omega (arith, kid_before i k)))
      ∙ e in
    ap (first_named lname s'.node) g.items
    ∙ first_named-last lname s'.node (kids s a) s.fresh (λ i k. omega (arith, (l.linked a i k).0))
        none_yet (ap (λ cs. same cs lname) named ∙ same_refl lname)
