-- ===== src/ChainSorter/Search.antt =====
-- system/chainsorter.h: the binary search of `indexFor` ends, at the place where a thing is or belongs.
use safely.Prelude.{
  ℕ, zero, suc, ◌+◌, ◌-◌, ◌/◌, ◌≤◌, ◌<◌, ◌≡◌, refl, ap, arith, Bool, true, false, ◌&&◌, some, ltb,
  ◌==◌, if◌then◌else◌, leb, int_max, ◌^◌, length, Bool-cases, inl, inr, subst, ℕ_discrete, dec_lt,
}
use safely.Prelude.Int.{ℤ, pos, negsuc}
use safely.Chain
use safely.Chain.{Chain}
use safely.ChainSorter.{below_zero, is_zero, narrow, place_for, index_for}

-- whether the target is above the thing at a place
abbrev pub above : (ℕ → ℤ) → Chain → ℕ → Bool
above ordinator list i = below_zero (ordinator (Chain.nth i list))

-- Where the target is above a thing it is above those before it.
abbrev pub IsSorted : (ℕ → ℤ) → Chain → Type 0
IsSorted ordinator list =
    (i j : ℕ)
    → i ≤ j
    → j < length list.items
    → above ordinator list j ≡ true
    → above ordinator list i ≡ true

-- The place where the target belongs: it is above what is before it, and not above what is from there on.
pub record IsPlace (ordinator : ℕ → ℤ) (list : Chain) (p : ℕ) : Type 0 where
  pub inside : p ≤ length list.items
  pub before : (i : ℕ) → i < p → above ordinator list i ≡ true
  pub behind : (i : ℕ) → p ≤ i → i < length list.items → above ordinator list i ≡ false

true-false : {b : Bool} → b ≡ true → b ≡ false → ⊥
true-false up down = cc

zero_not_below : (cmp : ℤ) → below_zero cmp ≡ true → is_zero cmp ≡ false
zero_not_below (pos n) e = absurd (true-false e refl)
zero_not_below (negsuc n) e = refl

module _ (ordinator : ℕ → ℤ) (list : Chain) (sorted : IsSorted ordinator list) where
  -- what the loop knows of its ends
  record Between (bot top : ℕ) : Type 0 where
    ordered : bot ≤ top
    inside : top < length list.items
    before : (i : ℕ) → i < bot → above ordinator list i ≡ true
    behind : (i : ℕ) → top < i → i < length list.items → above ordinator list i ≡ false
    at_end : above ordinator list top ≡ true → suc top ≡ length list.items

  not_above :
      (i j : ℕ)
      → i ≤ j
      → j < length list.items
      → above ordinator list i ≡ false
      → above ordinator list j ≡ false
  not_above i j h k e = elim (Bool-cases (above ordinator list j)) [
    | inl higher ↦ let lower_too = sorted i j h k higher in cc
    | inr not_higher ↦ not_higher
  ]

  raise :
      (bot top : ℕ)
      → Between bot top
      → bot < top
      → above ordinator list ((top + bot) / 2) ≡ true
      → Between ((top + bot) / 2 + 1) top
  raise bot top b h e = record {
    ordered = omega arith;
    inside = b.inside;
    before = λ i k. sorted i ((top + bot) / 2) (omega arith) (omega (arith, b.inside)) e;
    behind = b.behind;
    at_end = b.at_end;
  }

  lower :
      (bot top : ℕ)
      → Between bot top
      → bot < top
      → above ordinator list ((top + bot) / 2) ≡ false
      → Between bot ((top + bot) / 2)
  lower bot top b h e = record {
    ordered = omega arith;
    inside = omega (arith, b.inside);
    before = b.before;
    behind = λ i k l. not_above ((top + bot) / 2) i (omega arith) l e;
    at_end = λ up. absurd (true-false up e);
  }

  narrow_lem :
      (fuel bot top : ℕ)
      → top - bot < fuel
      → length list.items ≤ 2 ^ 30
      → Between bot top
      → (p : ℕ) × (narrow ordinator fuel list bot top ≡ some p) × Between p p
  unfolding narrow
  narrow_lem zero bot top h w b = absurd (omega arith)
  narrow_lem (suc fuel) bot top h w b = elim (dec_lt bot top) [
    | yes less ↦
        let more : ltb bot top ≡ true = ground arith in
        let held : leb int_max (top + bot) ≡ false = ground (arith, b.inside) in
        elim (Bool-cases (above ordinator list ((top + bot) / 2))) [
          | inl up ↦ rw more (
              rw held (
                rw up (
                  narrow_lem fuel ((top + bot) / 2 + 1) top (omega arith) w
                    (raise bot top b less up))))
          | inr down ↦ rw more (
              rw held (
                rw down (
                  narrow_lem fuel bot ((top + bot) / 2) (omega arith) w
                    (lower bot top b less down))))
        ]
    | no not_less ↦
        let stop : ltb bot top ≡ false = ground arith in
        let same : top ≡ bot = omega (arith, b.ordered) in
        (bot, rw stop refl, subst (λ t. Between bot t) same b)
  ]

  IsPlace-above :
      (p : ℕ) → Between p p → above ordinator list p ≡ true → IsPlace ordinator list (p + 1)
  IsPlace-above p b up = record {
    inside = omega (arith, b.inside);
    before = λ i h. sorted i p (omega arith) b.inside up;
    behind = λ i h k. b.behind i (omega arith) k;
  }

  IsPlace-at : (p : ℕ) → Between p p → above ordinator list p ≡ false → IsPlace ordinator list p
  IsPlace-at p b down = record {
    inside = omega (arith, b.inside);
    before = b.before;
    behind = λ i h k. not_above p i h k down;
  }

  -- what `indexFor` gives for the place where its target belongs
  abbrev pub answer : ℕ → ℤ
  answer p =
      if ltb p (length list.items) && is_zero (ordinator (Chain.nth p list))
      then pos p
      else negsuc p

  place_for_lem :
      (p : ℕ)
      → Between p p
      → (q : ℕ) × IsPlace ordinator list q × (place_for ordinator list p ≡ answer q)
  unfolding place_for
  place_for_lem p b = elim (Bool-cases (above ordinator list p)) [
    | inl up ↦
        let past : ltb (p + 1) (length list.items) ≡ false = ground (arith, b.at_end up) in
        let other = zero_not_below (ordinator (Chain.nth p list)) up in
        (p + 1, IsPlace-above p b up, rw past (rw other (rw up refl)))
    | inr down ↦
        let within : ltb p (length list.items) ≡ true = ground (arith, b.inside) in
        (p, IsPlace-at p b down, rw within (rw down refl))
  ]

  -- `indexFor` of a chain in order, of at most 2^30 items, ends, with one round more than there are items: there is a place where
  -- its target belongs, and the answer is that place if the thing there matches, and its complement if it
  -- does not or the place is the end.
  pub index_for_lem :
      length list.items ≤ 2 ^ 30
      → (p : ℕ) × IsPlace ordinator list p
        × (index_for ordinator (suc (length list.items)) list ≡ some (answer p))
  unfolding index_for Chain.quantity
  index_for_lem w = elim (ℕ_discrete (length list.items) 0) [
    | yes nothing ↦
        let size : (length list.items == 0) ≡ true = ground arith in
        let past : ltb 0 (length list.items) ≡ false = ground arith in
        let start : IsPlace ordinator list 0 = record {
          inside = omega arith;
          before = λ i h. absurd (omega arith);
          behind = λ i h k. absurd (omega arith);
        } in
        (0, start, rw size (rw past refl))
    | no something ↦
        let size : (length list.items == 0) ≡ false = ground arith in
        let within : (length list.items == int_max) ≡ false = ground arith in
        let fits : ltb int_max (length list.items) ≡ false = ground arith in
        let all : Between 0 (length list.items - 1) = record {
          ordered = omega arith;
          inside = omega arith;
          before = λ i h. absurd (omega arith);
          behind = λ i h k. absurd (omega arith);
          at_end = λ up. omega arith;
        } in
        let (p, ended, between) =
          narrow_lem (suc (length list.items)) 0 (length list.items - 1) (omega arith) w all in
        let (q, place, told) = place_for_lem p between in
        (q, place, rw size (rw within (rw fits (rw ended (ap some told)))))
  ]
