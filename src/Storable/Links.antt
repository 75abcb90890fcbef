-- ===== src/Storable/Links.antt =====
-- system/storable/storable.cpp: the links between the nodes of a tree, through the making of children.
use safely.Prelude.{
  ℕ, zero, suc, ◌≤◌, ◌<◌, ◌≡◌, ◌≢◌, refl, sym, ap, ◌∙◌, arith, List, [], ◌∷◌, ◌++◌, ◌==◌,
  if◌then◌else◌, length, get_or, length-append, ℕ_discrete, subst,
}
use safely.Chain.{null}
use safely.Storable.{Node, Forest}
use safely.Storable.Wad.{add_child}

-- the addresses of a node's children
abbrev pub kids : Forest → ℕ → List ℕ
kids s a = (s.node a).wad.items

-- A child was made after its parent, which it points back to, and knows its place.
abbrev pub IsKid : Forest → ℕ → ℕ → ℕ → Type 0
IsKid s a i k = (a < k) × (k < s.fresh) × ((s.node k).parent ≡ a) × ((s.node k).index ≡ i)

pub record IsLinked (s : Forest) : Type 0 where
  pub started : 0 < s.fresh
  pub unused : (a : ℕ) → s.fresh ≤ a → length (kids s a) ≡ 0
  pub below : (a : ℕ) → 0 < a → a < s.fresh → (s.node a).parent < a
  pub linked : (a i : ℕ) → i < length (kids s a) → IsKid s a i (get_or (kids s a) i null)

pub get_or-append :
    (xs : List ℕ) (x i d : ℕ)
    → get_or (xs ++ (x ∷ [])) i d ≡ (if i == length xs then x else get_or xs i d)
get_or-append [] x zero d = refl
get_or-append [] x (suc i) d = ground arith
get_or-append (y ∷ ys) x zero d = ground arith
get_or-append (y ∷ ys) x (suc i) d = ground (arith, get_or-append ys x i d)

pub get_or-append_old :
    (xs : List ℕ) (x i d : ℕ) → i < length xs → get_or (xs ++ (x ∷ [])) i d ≡ get_or xs i d
get_or-append_old xs x i d h = get_or-append xs x i d ∙ ground arith

-- Two memories with the same links.
pub record Agrees (s s' : Forest) : Type 0 where
  pub fresh : s'.fresh ≡ s.fresh
  pub items : (b : ℕ) → kids s' b ≡ kids s b
  pub parent : (b : ℕ) → (s'.node b).parent ≡ (s.node b).parent
  pub index : (b : ℕ) → (s'.node b).index ≡ (s.node b).index

pub Agrees-IsLinked : {s s' : Forest} → Agrees s s' → IsLinked s → IsLinked s'
Agrees-IsLinked {s} {s'} g l = record {
  started = omega (arith, l.started, g.fresh);
  unused = λ a h. ap length (g.items a) ∙ l.unused a (omega (arith, g.fresh));
  below = λ a h k. omega (arith, l.below a h (omega (arith, g.fresh)), g.parent a);
  linked = λ a i.
      subst (λ xs. i < length xs → IsKid s' a i (get_or xs i null)) (sym (g.items a))
        (λ h.
          let kid = get_or (kids s a) i null in
          let (after, before, up, place) = l.linked a i h in
          (after, omega (arith, g.fresh), g.parent kid ∙ up, g.index kid ∙ place));
}

-- What `addChild` changes: its node has one more child, which is new, and points back.
pub record Grown (s : Forest) (a : ℕ) (s' : Forest) : Type 0 where
  pub fresh : s'.fresh ≡ suc s.fresh
  pub others : (b : ℕ) → b ≢ a → b ≢ s.fresh → s'.node b ≡ s.node b
  pub items : kids s' a ≡ kids s a ++ (s.fresh ∷ [])
  pub parent : (s'.node a).parent ≡ (s.node a).parent
  pub index : (s'.node a).index ≡ (s.node a).index
  pub noob_parent : (s'.node s.fresh).parent ≡ a
  pub noob_index : (s'.node s.fresh).index ≡ length (kids s a)
  pub noob_items : kids s' s.fresh ≡ []

pub add_child-Grown :
    (name : List ℕ) (a : ℕ) (s : Forest)
    → 0 < s.fresh
    → a < s.fresh
    → Grown s a (add_child name a s).0
unfolding add_child
add_child-Grown name a s h k = record {
  fresh = ground arith;
  others = λ b n m. ground arith;
  items = ground arith;
  parent = ground arith;
  index = ground arith;
  noob_parent = ground arith;
  noob_index = ground arith;
  noob_items = ground arith;
}

module _ {s s' : Forest} {a : ℕ} (g : Grown s a s') where
  pub Grown-same :
      (b : ℕ)
      → b ≢ s.fresh
      → ((s'.node b).parent ≡ (s.node b).parent) × ((s'.node b).index ≡ (s.node b).index)
  Grown-same b n = elim (ℕ_discrete b a) [
    | yes e ↦ rw e (g.parent, g.index)
    | no m ↦
        let same_node = g.others b m n in
        (ap (λ (x : Node). x.parent) same_node, ap (λ (x : Node). x.index) same_node)
  ]

  old-IsKid :
      (b i : ℕ) → IsLinked s → i < length (kids s b) → IsKid s' b i (get_or (kids s b) i null)
  old-IsKid b i l h =
      let kid = get_or (kids s b) i null in
      let (after, before, up, place) = l.linked b i h in
      let (same_parent, same_index) = Grown-same kid (omega arith) in
      (after, omega (arith, g.fresh), same_parent ∙ up, same_index ∙ place)

  -- the parent's children: those that it had, and behind them the new one
  grown-IsKid :
      (i : ℕ)
      → IsLinked s
      → a < s.fresh
      → i < length (kids s a ++ (s.fresh ∷ []))
      → IsKid s' a i (get_or (kids s a ++ (s.fresh ∷ [])) i null)
  grown-IsKid i l h k =
      let place = get_or-append (kids s a) s.fresh i null in
      elim (ℕ_discrete i (length (kids s a))) [
        | yes e ↦
            let here : get_or (kids s a ++ (s.fresh ∷ [])) i null ≡ s.fresh =
              place ∙ ground arith in
            rw here (h, omega (arith, g.fresh), g.noob_parent, g.noob_index ∙ sym e)
        | no n ↦
            let here : get_or (kids s a ++ (s.fresh ∷ [])) i null ≡ get_or (kids s a) i null =
              place ∙ ground arith in
            rw here (old-IsKid a i l (omega (arith, length-append (kids s a) (s.fresh ∷ []))))
      ]

  Grown-linked :
      (b i : ℕ)
      → IsLinked s
      → a < s.fresh
      → i < length (kids s' b)
      → IsKid s' b i (get_or (kids s' b) i null)
  Grown-linked b i l h = elim (ℕ_discrete b a) [
    | yes e ↦
        subst (λ c. i < length (kids s' c) → IsKid s' c i (get_or (kids s' c) i null)) (sym e)
          (subst (λ xs. i < length xs → IsKid s' a i (get_or xs i null)) (sym g.items)
            (grown-IsKid i l h))
    | no m ↦ elim (ℕ_discrete b s.fresh) [
      | yes e ↦ λ k.
          let none_there : length (kids s' b) ≡ 0 =
            ap (λ c. length (kids s' c)) e ∙ ap length g.noob_items in
          absurd (omega arith)
      | no n ↦
          subst (λ xs. i < length xs → IsKid s' b i (get_or xs i null))
            (sym (ap (λ (x : Node). x.wad.items) (g.others b m n))) (old-IsKid b i l)
    ]
  ]

  Grown-below : (b : ℕ) → IsLinked s → a < s.fresh → 0 < b → b < s'.fresh → (s'.node b).parent < b
  Grown-below b l h j k = elim (ℕ_discrete b s.fresh) [
    | yes e ↦ omega (arith, ap (λ c. (s'.node c).parent) e, g.noob_parent)
    | no n ↦
        let (same_parent, same_index) = Grown-same b n in
        omega (arith, l.below b j (omega (arith, g.fresh)))
  ]

  pub Grown-IsLinked : a < s.fresh → IsLinked s → IsLinked s'
  Grown-IsLinked h l = record {
    started = omega (arith, g.fresh);
    unused = λ b j.
        ap (λ (x : Node). length (x.wad.items))
          (g.others b (omega (arith, g.fresh)) (omega (arith, g.fresh)))
        ∙ l.unused b (omega (arith, g.fresh));
    below = λ b j k. Grown-below b l h j k;
    linked = λ b i k. Grown-linked b i l h k;
  }

pub add_child-IsLinked :
    (name : List ℕ) (a : ℕ) {s : Forest}
    → IsLinked s
    → a < s.fresh
    → IsLinked (add_child name a s).0
add_child-IsLinked name a {s} l h = Grown-IsLinked (add_child-Grown name a s l.started h) h l
