-- ===== src/Storable/Renumbering.antt =====
-- system/storable/storable.cpp: the loop of `remove` that renumbers the children behind the gap.
use safely.Prelude.{
  ℕ, zero, suc, ◌≤◌, ◌<◌, ◌≡◌, ◌≢◌, sym, ap, ◌∙◌, arith, true, false, ◌||◌, ltb, leb, if◌then◌else◌,
  length, get_or, ℕ_discrete, dec_le, subst, u32_mod, sub_u32,
}
use safely.Chain
use safely.Chain.{Chain, null, erase_at}
use safely.Storable.{Forest, update}
use safely.Storable.Wad.{wad_of, renumber}
use safely.Storable.Links.{kids}

-- one round of the loop that renumbers
abbrev lowered : ℕ → Forest → Forest
lowered kid s = update s kid (record (s.node kid) { index = sub_u32 ((s.node kid).index) 1 })

-- the place that a child has, before it is renumbered from `ci` on: the items behind the gap have one too
-- many
abbrev place_before : ℕ → ℕ → ℕ → ℕ
place_before which ci j = if leb ci j || ltb j which then j else suc j

-- While the children are renumbered: their places, and what stays.
pub record Renumbered (a which ci : ℕ) (s0 s : Forest) : Type 0 where
  pub fresh : s.fresh ≡ s0.fresh
  pub items : (b : ℕ) → kids s b ≡ kids s0 b
  pub parent : (b : ℕ) → (s.node b).parent ≡ (s0.node b).parent
  pub places :
      (j : ℕ)
      → j < length (kids s0 a)
      → (s.node (get_or (kids s0 a) j null)).index ≡ place_before which ci j
  pub others : (b : ℕ) → (s0.node b).parent ≢ a → (s.node b).index ≡ (s0.node b).index

-- The items are apart, and point back.
pub record AreKids (a : ℕ) (s : Forest) : Type 0 where
  pub apart :
      (i j : ℕ)
      → i < length (kids s a)
      → j < length (kids s a)
      → get_or (kids s a) i null ≡ get_or (kids s a) j null
      → i ≡ j
  pub back : (i : ℕ) → i < length (kids s a) → (s.node (get_or (kids s a) i null)).parent ≡ a

module _ {a which ci : ℕ} {s0 s : Forest} (k : AreKids a s0)
    (r : Renumbered a which (suc ci) s0 s) where
  lowered_place :
      (j : ℕ)
      → length (kids s0 a) < u32_mod
      → which ≤ ci
      → ci < length (kids s0 a)
      → j < length (kids s0 a)
      → ((lowered (get_or (kids s0 a) ci null) s).node (get_or (kids s0 a) j null)).index
        ≡ place_before which ci j
  lowered_place j w h below l = elim (ℕ_discrete j ci) [
    | yes e ↦
        let at : (s.node (get_or (kids s0 a) ci null)).index ≡ suc ci =
          r.places ci below ∙ ground arith in
        let target : place_before which ci ci ≡ ci = ground arith in
        subst
          (λ i.
            ((lowered (get_or (kids s0 a) ci null) s).node (get_or (kids s0 a) i null)).index
            ≡ place_before which ci i)
          (sym e) (ground (arith, at, target))
    | no n ↦
        let other : get_or (kids s0 a) j null ≢ get_or (kids s0 a) ci null =
          λ same_kid. n (k.apart j ci l below same_kid) in
        let at = r.places j l in ground arith
  ]

  lowered-Renumbered :
      length (kids s0 a) < u32_mod
      → which ≤ ci
      → ci < length (kids s0 a)
      → Renumbered a which ci s0 (lowered (get_or (kids s0 a) ci null) s)
  lowered-Renumbered w h below = record {
    fresh = r.fresh;
    items = λ b.
        let same_items : kids (lowered (get_or (kids s0 a) ci null) s) b ≡ kids s b =
          ground arith in
        same_items ∙ r.items b;
    parent = λ b.
        let same_parent : ((lowered (get_or (kids s0 a) ci null) s).node b).parent
            ≡ (s.node b).parent =
          ground arith in
        same_parent ∙ r.parent b;
    places = λ j l. lowered_place j w h below l;
    others = λ b n.
        let other : b ≢ get_or (kids s0 a) ci null =
          λ e. n (ap (λ c. (s0.node c).parent) e ∙ k.back ci below) in
        let same_index : ((lowered (get_or (kids s0 a) ci null) s).node b).index
            ≡ (s.node b).index =
          ground arith in
        same_index ∙ r.others b n;
  }

pub renumber-Renumbered :
    (ci a which : ℕ) {s0 s : Forest}
    → AreKids a s0
    → length (kids s0 a) < u32_mod
    → ci ≤ length (kids s0 a)
    → Renumbered a which ci s0 s
    → Renumbered a which 0 s0 (renumber ci which a s)
unfolding renumber
renumber-Renumbered zero a which k w below r = r
renumber-Renumbered (suc ci) a which {s0} {s} k w below r = elim (dec_le which ci) [
  | yes h ↦
      let test : leb which ci ≡ true = ground arith in
      let here : Chain.nth ci (wad_of a s) ≡ get_or (kids s0 a) ci null =
        unfold Chain.nth in ground (arith, r.items a) in
      rw test (
        rw here
          (renumber-Renumbered ci a which k w (omega arith) (lowered-Renumbered k r w h below)))
  | no n ↦
      let test : leb which ci ≡ false = ground arith in
      rw test (record {
        fresh = r.fresh;
        items = r.items;
        parent = r.parent;
        places = λ j l. r.places j l ∙ ground arith;
        others = r.others;
      })
]
