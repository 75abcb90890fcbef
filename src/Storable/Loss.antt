-- ===== src/Storable/Loss.antt =====
-- system/storable/storable.cpp: what `clone` leaves behind, and what `suicide` deletes twice.
use safely.Prelude.{
  ℕ, zero, suc, ◌<◌, ◌≡◌, refl, ap, ◌∙◌, arith, true, false, Option, some, [], ◌∷◌, ◌++◌, ltb, leb,
  ◌==◌, length, get_or, u32_mod, sub_u32, Bool-cases, inl, inr,
}
use safely.Chain
use safely.Chain.{Chain, null}
use safely.Storable.{Forest, is_wad, update, called_remote, mirror_remove}
use safely.Storable.Wad.{wad_of, num_children, has, renumber, removed, remove, filicide, suicide}
use safely.Storable.Links.{kids, IsLinked}
use safely.Storable.Notice.{heard, told_removal}
use safely.Storable.Changes.{clone, clone_kids, create_child, copied}

no_kids :
    (create : ℕ → ℕ → Forest → Option (Forest × ℕ)) (fuel this : ℕ) (s : Forest)
    → kids s this ≡ []
    → clone_kids create (suc fuel) 0 this s ≡ some s
unfolding clone_kids has num_children Chain.quantity
no_kids create fuel this s e =
    let test : ltb 0 (length (kids s this)) ≡ false = rw e refl in rw test refl

-- `clone` ends, and gives a node the type and the text of another; but none of its children: it goes
-- through those of the node itself, which it has just dropped.
pub clone_childless :
    (fuel this other : ℕ) (s : Forest)
    → (s' : Forest) × (clone (suc fuel) this other s ≡ some s')
      × (kids s' this ≡ [])
      × ((s'.node this).type ≡ (s.node other).type)
      × ((s'.node this).text ≡ (s.node other).text)
unfolding clone filicide Chain.clear
clone_childless fuel this other s =
    let s1 = filicide false this s in
    let s2 = update s1 this (copied (s1.node this) (s1.node other)) in
    let empty : kids s2 this ≡ [] = ground arith in
    let type : (s2.node this).type ≡ (s.node other).type = ground arith in
    let text : (s2.node this).text ≡ (s.node other).text = ground arith in
    let nothing = no_kids (create_child (clone fuel)) fuel this s2 empty in
    elim (Bool-cases (is_wad (s2.node other))) [
      | inl wad ↦ (s2, rw wad nothing, empty, type, text)
      | inr scalar ↦ (s2, rw scalar refl, empty, type, text)
    ]

renumber-wad :
    (ci which a b : ℕ) (s : Forest) → ((renumber ci which a s).node b).wad ≡ (s.node b).wad
unfolding renumber
renumber-wad zero which a b s = refl
renumber-wad (suc ci) which a b s =
    let kid = Chain.nth ci (wad_of a s) in
    let s' = update s kid (record (s.node kid) { index = sub_u32 ((s.node kid).index) 1 }) in
    let kept : (s'.node b).wad ≡ (s.node b).wad = ground arith in
    elim (Bool-cases (leb which ci)) [
      | inl on ↦ rw on (renumber-wad ci which a b s' ∙ kept)
      | inr stopped ↦ rw stopped refl
    ]

removed-deleted :
    (which a : ℕ) (s : Forest)
    → which < length (kids s a)
    → (wad_of a s).is_owner ≡ true
    → (wad_of a (removed which a s)).deleted
      ≡ (wad_of a s).deleted ++ (get_or (kids s a) which null ∷ [])
removed-deleted which a s h o =
    let s1 = called_remote (mirror_remove (Chain.nth which (wad_of a s))) s in
    let s2 =
      update s1 a (record (s1.node a) { wad = (Chain.remove_nth which ((s1.node a).wad)).0 }) in
    let s3 = renumber (Chain.quantity (wad_of a s2)) which a s2 in
    let whole : (wad_of a (removed which a s)) ≡ (s3.node a).wad = unfold removed in ground arith in
    let same_wad : (s1.node a).wad ≡ (s.node a).wad = ground arith in
    let less : (s2.node a).wad ≡ (Chain.remove_nth which ((s1.node a).wad)).0 = ground arith in
    let gone : ((Chain.remove_nth which ((s.node a).wad)).0).deleted
        ≡ (wad_of a s).deleted ++ (get_or (kids s a) which null ∷ []) =
      unfold Chain.remove_nth Chain.has in ground arith in
    ap (λ (c : Chain). c.deleted)
      (whole
        ∙ renumber-wad (Chain.quantity (wad_of a s2)) which a a s2
        ∙ less
        ∙ ap (λ (c : Chain). (Chain.remove_nth which c).0) same_wad)
    ∙ gone

suicided :
    (fuel this parent i : ℕ) (s s1 : Forest)
    → (s.node this).parent ≡ parent
    → (s.node this).index ≡ i
    → (parent == null) ≡ false
    → remove fuel i parent s ≡ some (s1, true)
    → suicide fuel true this s ≡ some (record s1 { deleted = s1.deleted ++ (this ∷ []) }, true)
unfolding suicide
suicided fuel this parent i s s1 up place real gone = rw up (rw place (rw real (rw gone refl)))

-- `suicide` with leave to delete, of a child of a node that owns its children, deletes it twice: the
-- parent's wad does, and then the node itself.
pub suicide_twice :
    (fuel parent i : ℕ) {s : Forest}
    → IsLinked s
    → 0 < parent
    → parent < s.fresh
    → parent < fuel
    → i < length (kids s parent)
    → length (kids s parent) < u32_mod
    → (wad_of parent s).is_owner ≡ true
    → let this = get_or (kids s parent) i null in
      (s' : Forest) × (suicide fuel true this s ≡ some (s', true))
      × ((wad_of parent s').deleted ≡ (wad_of parent s).deleted ++ (this ∷ []))
      × (s'.deleted ≡ (removed i parent s).deleted ++ (this ∷ []))
suicide_twice fuel parent i {s} l p h f k w o =
    let this = get_or (kids s parent) i null in
    let (after, before, up, place) = l.linked parent i k in
    let (calls, gone) = told_removal fuel i parent l p h f k w in
    let s1 = heard calls (removed i parent s) in
    (
      record s1 { deleted = s1.deleted ++ (this ∷ []) },
      suicided fuel this parent i s s1 up place (ground arith) gone,
      removed-deleted i parent s k o,
      refl,
    )
