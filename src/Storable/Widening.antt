-- ===== src/Storable/Widening.antt =====
-- system/storable/storable.cpp: what `addWad` makes of the links and of the other nodes.
use safely.Prelude.{
  ℕ, suc, ◌-◌, ◌<◌, ◌≡◌, ◌≢◌, refl, sym, ap, ◌∙◌, arith, List, [], ◌∷◌, ◌++◌, length, get_or,
  length-append, ℕ_discrete, subst,
}
use safely.Chain
use safely.Chain.{null}
use safely.Storable.{Kind, Forest}
use safely.Storable.Wad.{
  num_children, precreate, finish_creating_child, add_wad, presize, presize_loop,
}
use safely.Storable.Links.{kids, IsKid, IsLinked, get_or-append}
use safely.Storable.Wadding.{presize_loop-Presized}

-- What `precreate` changes: there is a new node, which points at its parent and hangs on no other.
record Precreated (s : Forest) (a : ℕ) (s' : Forest) : Type 0 where
  fresh : s'.fresh ≡ suc s.fresh
  items : (b : ℕ) → b ≢ s.fresh → kids s' b ≡ kids s b
  parent : (b : ℕ) → b ≢ s.fresh → (s'.node b).parent ≡ (s.node b).parent
  index : (b : ℕ) → b ≢ s.fresh → (s'.node b).index ≡ (s.node b).index
  noob_parent : (s'.node s.fresh).parent ≡ a
  noob_items : kids s' s.fresh ≡ []

precreate-Precreated :
    (name : List ℕ) (a : ℕ) (s : Forest) → a < s.fresh → Precreated s a (precreate name a s).0
unfolding precreate
precreate-Precreated name a s h = record {
  fresh = refl;
  items = λ b n. ground arith;
  parent = λ b n. ground arith;
  index = λ b n. ground arith;
  noob_parent = ground arith;
  noob_items = ground arith;
}

module _ {s s' : Forest} {a : ℕ} (g : Precreated s a s') (l : IsLinked s) (h : a < s.fresh) where
  still-IsKid : (b i : ℕ) → i < length (kids s b) → IsKid s' b i (get_or (kids s b) i null)
  still-IsKid b i k =
      let kid = get_or (kids s b) i null in
      let (after, before, up, place) = l.linked b i k in
      (
        after,
        omega (arith, g.fresh),
        g.parent kid (omega arith) ∙ up,
        g.index kid (omega arith) ∙ place,
      )

  precreated_linked : (b i : ℕ) → i < length (kids s' b) → IsKid s' b i (get_or (kids s' b) i null)
  precreated_linked b i = elim (ℕ_discrete b s.fresh) [
    | yes e ↦ λ k.
        let none_there : length (kids s' b) ≡ 0 =
          ap (λ c. length (kids s' c)) e ∙ ap length g.noob_items in
        absurd (omega arith)
    | no n ↦
        subst (λ xs. i < length xs → IsKid s' b i (get_or xs i null)) (sym (g.items b n))
          (still-IsKid b i)
  ]

  precreated_below : (b : ℕ) → 0 < b → b < s'.fresh → (s'.node b).parent < b
  precreated_below b j k = elim (ℕ_discrete b s.fresh) [
    | yes e ↦ omega (arith, ap (λ c. (s'.node c).parent) e, g.noob_parent)
    | no n ↦ omega (arith, g.parent b n, l.below b j (omega (arith, g.fresh)))
  ]

  Precreated-IsLinked : IsLinked s'
  Precreated-IsLinked = record {
    started = omega (arith, g.fresh);
    unused =
        λ b j. ap length (g.items b (omega (arith, g.fresh))) ∙ l.unused b (omega (arith, g.fresh));
    below = precreated_below;
    linked = precreated_linked;
  }

-- What `finishCreatingChild` changes: the new node hangs on its parent, behind the other children.
record Finished (s : Forest) (a noob : ℕ) (s' : Forest) : Type 0 where
  fresh : s'.fresh ≡ s.fresh
  items : kids s' a ≡ kids s a ++ (noob ∷ [])
  others : (b : ℕ) → b ≢ a → kids s' b ≡ kids s b
  parent : (b : ℕ) → (s'.node b).parent ≡ (s.node b).parent
  index : (b : ℕ) → b ≢ noob → (s'.node b).index ≡ (s.node b).index
  noob_index : (s'.node noob).index ≡ length (kids s a)

finish-Finished :
    (a noob : ℕ) (s : Forest) → a < noob → Finished s a noob (finish_creating_child noob a s)
unfolding finish_creating_child Chain.append Chain.quantity
finish-Finished a noob s h = record {
  fresh = ground arith;
  items = ground arith;
  others = λ b n. ground arith;
  parent = λ b. ground arith;
  index = λ b n. ground arith;
  noob_index = ground arith;
}

module _ {s s' : Forest} {a noob : ℕ} (g : Finished s a noob s') (l : IsLinked s) (h : a < noob)
    (k : noob < s.fresh) (up_here : (s.node noob).parent ≡ a)
    (apart : (b i : ℕ) → i < length (kids s b) → get_or (kids s b) i null ≢ noob) where
  old-IsKid : (b i : ℕ) → i < length (kids s b) → IsKid s' b i (get_or (kids s b) i null)
  old-IsKid b i j =
      let kid = get_or (kids s b) i null in
      let (after, before, up, place) = l.linked b i j in
      (after, omega (arith, g.fresh), g.parent kid ∙ up, g.index kid (apart b i j) ∙ place)

  finished-IsKid :
      (i : ℕ)
      → i < length (kids s a ++ (noob ∷ []))
      → IsKid s' a i (get_or (kids s a ++ (noob ∷ [])) i null)
  finished-IsKid i j =
      let place = get_or-append (kids s a) noob i null in
      elim (ℕ_discrete i (length (kids s a))) [
        | yes e ↦
            let here : get_or (kids s a ++ (noob ∷ [])) i null ≡ noob = place ∙ ground arith in
            rw here (h, omega (arith, g.fresh), g.parent noob ∙ up_here, g.noob_index ∙ sym e)
        | no n ↦
            let here : get_or (kids s a ++ (noob ∷ [])) i null ≡ get_or (kids s a) i null =
              place ∙ ground arith in
            rw here (old-IsKid a i (omega (arith, length-append (kids s a) (noob ∷ []))))
      ]

  finished_linked : (b i : ℕ) → i < length (kids s' b) → IsKid s' b i (get_or (kids s' b) i null)
  finished_linked b i = elim (ℕ_discrete b a) [
    | yes e ↦
        subst (λ c. i < length (kids s' c) → IsKid s' c i (get_or (kids s' c) i null)) (sym e)
          (subst (λ xs. i < length xs → IsKid s' a i (get_or xs i null)) (sym g.items)
            (finished-IsKid i))
    | no n ↦
        subst (λ xs. i < length xs → IsKid s' b i (get_or xs i null)) (sym (g.others b n))
          (old-IsKid b i)
  ]

  Finished-IsLinked : IsLinked s'
  Finished-IsLinked = record {
    started = omega (arith, l.started, g.fresh);
    unused = λ b j.
        ap length (g.others b (omega (arith, g.fresh))) ∙ l.unused b (omega (arith, g.fresh));
    below = λ b i j. omega (arith, g.parent b, l.below b i (omega (arith, g.fresh)));
    linked = finished_linked;
  }

-- `addWad` gives a node one more child, behind the others, which has as many children as it was asked for.
pub record Widened (s : Forest) (a qty : ℕ) (s' : Forest) : Type 0 where
  pub linked : IsLinked s'
  pub fresh : s.fresh < s'.fresh
  pub items : kids s' a ≡ kids s a ++ (s.fresh ∷ [])
  pub others : (b : ℕ) → b < s.fresh → b ≢ a → kids s' b ≡ kids s b
  pub size : length (kids s' s.fresh) ≡ qty

pub add_wad-Widened :
    (qty : ℕ) (type : Kind) (name : List ℕ) (a : ℕ) {s : Forest}
    → IsLinked s
    → a < s.fresh
    → Widened s a qty (add_wad qty type name a s).0 × ((add_wad qty type name a s).1 ≡ s.fresh)
unfolding add_wad presize num_children Chain.quantity
add_wad-Widened qty type name a {s} l h =
    let s1 = (precreate name a s).0 in
    let noob = s.fresh in
    let given : (precreate name a s).1 ≡ noob = unfold precreate in refl in
    let p = precreate-Precreated name a s h in
    let none_yet = ap length p.noob_items in
    let s2 = presize_loop (qty - length (kids s1 noob)) type noob s1 in
    let x =
      presize_loop-Presized (qty - length (kids s1 noob)) type noob (Precreated-IsLinked p l h)
        (omega (arith, p.fresh)) in
    let same : kids s2 a ≡ kids s a =
      x.others a (omega (arith, p.fresh)) (omega arith) ∙ p.items a (omega arith) in
    let up = x.parent noob (omega (arith, p.fresh)) ∙ p.noob_parent in
    let f = finish-Finished a noob s2 h in
    let at_a : (i : ℕ) → i < length (kids s2 a) → get_or (kids s2 a) i null ≢ noob =
      subst (λ xs. (i : ℕ) → i < length xs → get_or xs i null ≢ noob) (sym same)
        (λ i k e. let (after, before, back, place) = l.linked a i k in absurd (omega arith)) in
    let apart : (b i : ℕ) → i < length (kids s2 b) → get_or (kids s2 b) i null ≢ noob = λ b i k e.
      let (after, before, back, place) = x.linked.linked b i k in
      let here : b ≡ a = sym back ∙ ap (λ c. (s2.node c).parent) e ∙ up in
      absurd (
        subst (λ c. (j : ℕ) → j < length (kids s2 c) → get_or (kids s2 c) j null ≢ noob) (sym here)
          at_a i k e) in
    (
      record {
        linked = Finished-IsLinked f x.linked h (omega (arith, x.fresh, p.fresh)) up apart;
        fresh = omega (arith, f.fresh, x.fresh, p.fresh);
        items = f.items ∙ ap (λ xs. xs ++ (noob ∷ [])) same;
        others = λ b k n.
            f.others b n
            ∙ x.others b (omega (arith, p.fresh)) (omega arith)
            ∙ p.items b (omega arith);
        size = ap length (f.others noob (omega arith)) ∙ x.size ∙ omega (arith, none_yet);
      },
      refl,
    )
