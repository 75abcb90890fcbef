-- ===== src/Storable/Sizes.antt =====
-- system/storable/storable.cpp: how many children a node has when children are added or dropped, and
-- the links that stay.
use safely.Prelude.{
  ℕ, zero, suc, ◌+◌, ◌-◌, ◌≤◌, ◌<◌, ◌≡◌, ◌≢◌, refl, sym, ap, ◌∙◌, arith, true, [], ◌∷◌, length,
  get_or, length-append, ℕ_discrete, subst, u32_mod, sub_u32, add_u32,
}
use safely.Chain
use safely.Chain.{Chain, null, erase_at}
use safely.Chain.Items.{length-erase_at, get_or-erase_at}
use safely.Storable.{Forest, update, called, wad_changed}
use safely.Storable.Wad.{wad_of, num_children, shrink, stretch, set_size}
use safely.Storable.Links.{kids, IsKid, IsLinked, add_child-Grown, add_child-IsLinked}

-- A node lost children from its end on.
pub record Shortened (s : Forest) (a : ℕ) (s' : Forest) : Type 0 where
  pub fresh : s'.fresh ≡ s.fresh
  pub parent : (b : ℕ) → (s'.node b).parent ≡ (s.node b).parent
  pub index : (b : ℕ) → (s'.node b).index ≡ (s.node b).index
  pub others : (b : ℕ) → b ≢ a → kids s' b ≡ kids s b
  pub shorter : length (kids s' a) ≤ length (kids s a)
  pub same_at :
      (i : ℕ) → i < length (kids s' a) → get_or (kids s' a) i null ≡ get_or (kids s a) i null

module _ {s s' : Forest} {a : ℕ} (g : Shortened s a s') (l : IsLinked s) where
  still-IsKid : (b i : ℕ) → i < length (kids s b) → IsKid s' b i (get_or (kids s b) i null)
  still-IsKid b i h =
      let kid = get_or (kids s b) i null in
      let (after, before, up, place) = l.linked b i h in
      (after, omega (arith, g.fresh), g.parent kid ∙ up, g.index kid ∙ place)

  still_linked : (b i : ℕ) → i < length (kids s' b) → IsKid s' b i (get_or (kids s' b) i null)
  still_linked b i = elim (ℕ_discrete b a) [
    | yes e ↦
        subst (λ c. i < length (kids s' c) → IsKid s' c i (get_or (kids s' c) i null)) (sym e)
          (λ h. rw (g.same_at i h) (still-IsKid a i (omega (arith, g.shorter))))
    | no n ↦
        subst (λ xs. i < length xs → IsKid s' b i (get_or xs i null)) (sym (g.others b n))
          (still-IsKid b i)
  ]

  fewer : (b : ℕ) → length (kids s' b) ≤ length (kids s b)
  fewer b = elim (ℕ_discrete b a) [
    | yes e ↦ subst (λ c. length (kids s' c) ≤ length (kids s c)) (sym e) g.shorter
    | no n ↦ omega (arith, ap length (g.others b n))
  ]

  pub Shortened-IsLinked : IsLinked s'
  Shortened-IsLinked = record {
    started = omega (arith, l.started, g.fresh);
    unused = λ b h. omega (arith, fewer b, l.unused b (omega (arith, g.fresh)));
    below = λ b h k. omega (arith, g.parent b, l.below b h (omega (arith, g.fresh)));
    linked = λ b i h. still_linked b i h;
  }

-- one round of the loop that drops children
abbrev dropped : ℕ → Forest → Forest
dropped a s =
    let n = s.node a in
    let s' = update s a (record n { wad = (Chain.remove_last n.wad).0 }) in
    called (wad_changed a true (Chain.quantity (wad_of a s'))) s'

dropped_items :
    (a : ℕ) (s : Forest)
    → 0 < length (kids s a)
    → length (kids s a) < u32_mod
    → kids (dropped a s) a ≡ erase_at (length (kids s a) - 1) (kids s a)
unfolding Chain.remove_last Chain.remove_nth Chain.has Chain.quantity
dropped_items a s h w =
    let last_place : sub_u32 (length (kids s a)) 1 ≡ length (kids s a) - 1 = omega arith in
    rw last_place (ground arith)

dropped-Shortened :
    (a : ℕ) (s : Forest)
    → 0 < length (kids s a)
    → length (kids s a) < u32_mod
    → Shortened s a (dropped a s) × (suc (length (kids (dropped a s) a)) ≡ length (kids s a))
dropped-Shortened a s h w =
    let e = dropped_items a s h w in
    let size = length-erase_at (length (kids s a) - 1) (kids s a) (omega arith) in
    let counted : suc (length (kids (dropped a s) a)) ≡ length (kids s a) =
      ap (λ xs. suc (length xs)) e ∙ size in
    (
      record {
        fresh = refl;
        parent = λ b. ground arith;
        index = λ b. ground arith;
        others = λ b n. ground arith;
        shorter = omega (arith, counted);
        same_at = λ i k.
            ap (λ xs. get_or xs i null) e
            ∙ get_or-erase_at (length (kids s a) - 1) i (kids s a)
            ∙ ground (arith, counted);
      },
      counted,
    )

shrink_lem :
    (rounds changes a : ℕ) {s : Forest}
    → IsLinked s
    → rounds ≤ length (kids s a)
    → length (kids s a) < u32_mod
    → changes < u32_mod
    → let (s', count) = shrink rounds changes a s in
      IsLinked s'
      × (length (kids s' a) + rounds ≡ length (kids s a))
      × (s'.fresh ≡ s.fresh)
      × (count ≡ sub_u32 changes rounds)
unfolding shrink
shrink_lem zero changes a l h w v = (l, omega arith, refl, omega arith)
shrink_lem (suc rounds) changes a {s} l h w v =
    let (short, size) = dropped-Shortened a s (omega arith) w in
    let (l', size', same_fresh, count) =
      shrink_lem rounds (sub_u32 changes 1) a (Shortened-IsLinked short l) (omega arith)
        (omega arith) (omega arith) in
    (l', omega arith, same_fresh ∙ short.fresh, count ∙ omega arith)

stretch_lem :
    (rounds changes a : ℕ) {s : Forest}
    → IsLinked s
    → a < s.fresh
    → changes < u32_mod
    → let (s', count) = stretch rounds changes a s in
      IsLinked s'
      × (length (kids s' a) ≡ length (kids s a) + rounds)
      × (count ≡ add_u32 changes rounds)
unfolding stretch
stretch_lem zero changes a l h v = (l, omega arith, omega arith)
stretch_lem (suc rounds) changes a {s} l h v =
    let g = add_child-Grown [] a s l.started h in
    let (l', size', count) =
      stretch_lem rounds (add_u32 changes 1) a (add_child-IsLinked [] a l h)
        (omega (arith, g.fresh)) (omega arith) in
    (
      l',
      size' ∙ omega (arith, ap length g.items, length-append (kids s a) (s.fresh ∷ [])),
      count ∙ omega arith,
    )

-- `setSize` gives a node that has fewer than 2^32 children as many children as it was asked for, keeps the links, and returns by how many
-- there are more, as an `unsigned`.
pub set_size_lem :
    (qty a : ℕ) {s : Forest}
    → IsLinked s
    → a < s.fresh
    → length (kids s a) < u32_mod
    → let (s', changes) = set_size qty a s in
      IsLinked s' × (num_children a s' ≡ qty) × (changes ≡ sub_u32 qty (num_children a s))
unfolding set_size num_children Chain.quantity
set_size_lem qty a {s} l h w =
    let (s1, c1) = shrink (length (kids s a) - qty) 0 a s in
    let (l1, size1, fresh1, count1) =
      shrink_lem (length (kids s a) - qty) 0 a l (omega arith) w (omega arith) in
    let (l2, size2, count2) =
      stretch_lem (qty - length (kids s1 a)) c1 a l1 (omega (arith, fresh1))
        (omega (arith, count1)) in
    (l2, omega arith, count2 ∙ omega (arith, count1))
