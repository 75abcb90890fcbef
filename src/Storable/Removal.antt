-- ===== src/Storable/Removal.antt =====
-- system/storable/storable.cpp: `remove` renumbers the children behind the gap, and keeps the links.
use safely.Prelude.{
  ℕ, suc, ◌≤◌, ◌<◌, ◌≡◌, ◌≢◌, refl, sym, ap, ◌∙◌, arith, true, ltb, if◌then◌else◌, length, get_or,
  ℕ_discrete, subst, u32_mod,
}
use safely.Chain
use safely.Chain.{Chain, null, erase_at}
use safely.Chain.Items.{length-erase_at, get_or-erase_at}
use safely.Storable.{Forest, update, also, called_remote, mirror_remove}
use safely.Storable.Wad.{wad_of, renumber, removed}
use safely.Storable.Links.{kids, IsKid, IsLinked, Agrees, Agrees-IsLinked}
use safely.Storable.Renumbering.{Renumbered, AreKids, renumber-Renumbered}

-- the node with a child less, before its other children are renumbered
abbrev gap : ℕ → ℕ → Forest → Forest
gap which a s = update s a (record (s.node a) { wad = (Chain.remove_nth which ((s.node a).wad)).0 })

module _ {s : Forest} (which a : ℕ) (l : IsLinked s) (h : which < length (kids s a)) where
  gap_items : kids (gap which a s) a ≡ erase_at which (kids s a)
  unfolding Chain.remove_nth Chain.has
  gap_items = ground arith

  gap_size : suc (length (kids (gap which a s) a)) ≡ length (kids s a)
  gap_size = ap (λ xs. suc (length xs)) gap_items ∙ length-erase_at which (kids s a) h

  gap_parent : (b : ℕ) → ((gap which a s).node b).parent ≡ (s.node b).parent
  gap_parent b = ground arith

  gap_index : (b : ℕ) → ((gap which a s).node b).index ≡ (s.node b).index
  gap_index b = ground arith

  -- a child in front of the gap or behind it, by its place among all of them
  gap_at :
      (j : ℕ)
      → get_or (kids (gap which a s) a) j null
        ≡ get_or (kids s a) (if ltb j which then j else suc j) null
  gap_at j =
      ap (λ xs. get_or xs j null) gap_items ∙ get_or-erase_at which j (kids s a) ∙ ground arith

  gap-IsKid :
      (j : ℕ)
      → j < length (kids (gap which a s) a)
      → IsKid s a (if ltb j which then j else suc j) (get_or (kids (gap which a s) a) j null)
  gap-IsKid j k =
      let i = if ltb j which then j else suc j in
      subst (λ kid. IsKid s a i kid) (sym (gap_at j)) (l.linked a i (ground (arith, gap_size)))

  gap_place :
      (j : ℕ)
      → j < length (kids (gap which a s) a)
      → ((gap which a s).node (get_or (kids (gap which a s) a) j null)).index
        ≡ (if ltb j which then j else suc j)
  gap_place j k = gap_index (get_or (kids (gap which a s) a) j null) ∙ (gap-IsKid j k).3

  gap-AreKids : AreKids a (gap which a s)
  gap-AreKids = record {
    apart = λ i j m n e.
        let same_place =
          sym (gap_place i m) ∙ ap (λ kid. ((gap which a s).node kid).index) e ∙ gap_place j n in
        ground (arith, same_place);
    back = λ i m. gap_parent (get_or (kids (gap which a s) a) i null) ∙ (gap-IsKid i m).2;
  }

  gap-Renumbered :
      Renumbered a which (length (kids (gap which a s) a)) (gap which a s) (gap which a s)
  gap-Renumbered = record {
    fresh = refl;
    items = λ b. refl;
    parent = λ b. refl;
    places = λ j k. gap_place j k ∙ ground arith;
    others = λ b n. refl;
  }

  gap_others : (b : ℕ) → b ≢ a → kids (gap which a s) b ≡ kids s b
  gap_others b n = ground arith

  module _ {s' : Forest} (r : Renumbered a which 0 (gap which a s) s') where
    IsKid-there : (j : ℕ) → j < length (kids s' a) → IsKid s' a j (get_or (kids s' a) j null)
    IsKid-there j =
        subst (λ xs. j < length xs → IsKid s' a j (get_or xs j null)) (sym (r.items a))
          (λ k.
            let kid = get_or (kids (gap which a s) a) j null in
            let (after, before, up, place) = gap-IsKid j k in
            let at : (s'.node kid).index ≡ j = r.places j k ∙ ground arith in
            (after, omega (arith, r.fresh), r.parent kid ∙ gap_parent kid ∙ up, at))

    IsKid-elsewhere :
        (b j : ℕ) → b ≢ a → j < length (kids s b) → IsKid s' b j (get_or (kids s b) j null)
    IsKid-elsewhere b j n k =
        let kid = get_or (kids s b) j null in
        let (after, before, up, place) = l.linked b j k in
        let no_kid : ((gap which a s).node kid).parent ≢ a =
          λ e. n (sym up ∙ sym (gap_parent kid) ∙ e) in
        (
          after,
          omega (arith, r.fresh),
          r.parent kid ∙ gap_parent kid ∙ up,
          r.others kid no_kid ∙ gap_index kid ∙ place,
        )

    Renumbered-linked :
        (b j : ℕ) → j < length (kids s' b) → IsKid s' b j (get_or (kids s' b) j null)
    Renumbered-linked b j = elim (ℕ_discrete b a) [
      | yes e ↦
          subst (λ c. j < length (kids s' c) → IsKid s' c j (get_or (kids s' c) j null)) (sym e)
            (IsKid-there j)
      | no n ↦
          subst (λ xs. j < length xs → IsKid s' b j (get_or xs j null))
            (sym (r.items b ∙ gap_others b n)) (IsKid-elsewhere b j n)
    ]

    fewer : (b : ℕ) → length (kids s' b) ≤ length (kids s b)
    fewer b = elim (ℕ_discrete b a) [
      | yes e ↦
          subst (λ c. length (kids s' c) ≤ length (kids s c)) (sym e)
            (omega (arith, gap_size, ap length (r.items a)))
      | no n ↦ omega (arith, ap length (r.items b ∙ gap_others b n))
    ]

    Renumbered-IsLinked : IsLinked s'
    Renumbered-IsLinked = record {
      started = omega (arith, l.started, r.fresh);
      unused = λ b k. omega (arith, fewer b, l.unused b (omega (arith, r.fresh)));
      below =
          λ b k m. omega (arith, r.parent b, gap_parent b, l.below b k (omega (arith, r.fresh)));
      linked = λ b j k. Renumbered-linked b j k;
    }

remote_told : (which a : ℕ) (s : Forest) → Forest
remote_told which a s = called_remote (mirror_remove (Chain.nth which (wad_of a s))) s

told-Agrees : (which a : ℕ) (s : Forest) → Agrees s (remote_told which a s)
unfolding remote_told
told-Agrees which a s = record {
  fresh = ground arith;
  items = λ b. ground arith;
  parent = λ b. ground arith;
  index = λ b. ground arith;
}

also-Agrees : (a : ℕ) (s : Forest) → Agrees s (update s a (also true (s.node a)))
also-Agrees a s = record {
  fresh = refl;
  items = λ b. ground arith;
  parent = λ b. ground arith;
  index = λ b. ground arith;
}

pub removed_lem :
    (which a : ℕ) {s : Forest}
    → IsLinked s
    → which < length (kids s a)
    → length (kids s a) < u32_mod
    → IsLinked (removed which a s)
      × (kids (removed which a s) a ≡ erase_at which (kids s a))
      × ((removed which a s).fresh ≡ s.fresh)
      × ((b : ℕ) → ((removed which a s).node b).parent ≡ (s.node b).parent)
removed_lem which a {s} l h w =
    let s1 = remote_told which a s in
    let told = told-Agrees which a s in
    let l1 = Agrees-IsLinked told l in
    let h1 : which < length (kids s1 a) = omega (arith, ap length (told.items a)) in
    let size = gap_size which a l1 h1 in
    let s2 = gap which a s1 in
    let s3 = renumber (length (kids s2 a)) which a s2 in
    let r =
      renumber-Renumbered (length (kids s2 a)) a which (gap-AreKids which a l1 h1)
        (omega (arith, size, ap length (told.items a))) (omega arith)
        (gap-Renumbered which a l1 h1) in
    let last = also-Agrees a s3 in
    let whole : removed which a s ≡ update s3 a (also true (s3.node a)) =
      unfold removed remote_told Chain.quantity in refl in
    rw whole (
      Agrees-IsLinked last (Renumbered-IsLinked which a l1 h1 r),
      last.items a ∙ r.items a ∙ gap_items which a l1 h1 ∙ ap (erase_at which) (told.items a),
      last.fresh ∙ r.fresh ∙ told.fresh,
      λ b. last.parent b ∙ r.parent b ∙ gap_parent which a l1 h1 b ∙ told.parent b,
    )
