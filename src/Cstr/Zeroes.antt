-- ===== src/Cstr/Zeroes.antt =====
-- cppext/cstr.cpp: what `trailingZeroes` finds.
use safely.Prelude.{
  ℕ, zero, suc, ◌≤◌, ◌<◌, ◌≡◌, ◌≢◌, refl, sym, ap, subst, ◌∙◌, arith, ◌⊎◌, inl, inr, true, List,
  length, get_or, Bool-cases, ℕ_discrete,
}
use safely.Index.{bad_index}
use safely.Cstr.Text.{has_point, zeroes_from, trailing_zeroes}

-- Zeroes from a place to the end.
abbrev AllZero : ℕ → List ℕ → Type 0
AllZero p text = (i : ℕ) → p ≤ i → i < length text → get_or text i 0 ≡ b'0'

-- A place from which on there is nothing to keep: the point of a number, with zeroes behind it; or the first
-- of the zeroes at the end, behind a point that is further up.
pub IsUseless : ℕ → List ℕ → Type 0
IsUseless p text =
    (p < length text)
    × AllZero (suc p) text
    × ((get_or text p 0 ≡ b'.')
        ⊎ ((q : ℕ) × (get_or text p 0 ≡ b'0')
            × (suc q ≡ p)
            × (get_or text q 0 ≢ b'0')
            × ((r : ℕ) × (r ≤ q) × (get_or text r 0 ≡ b'.'))))

has_point_lem :
    (n : ℕ) (text : List ℕ) → has_point n text ≡ true → (r : ℕ) × (r < n) × (get_or text r 0 ≡ b'.')
unfolding has_point
has_point_lem zero text h = absurd cc
has_point_lem (suc n) text h = elim (ℕ_discrete (get_or text n 0) b'.') [
  | yes e ↦ (n, omega arith, e)
  | no d ↦ let (r, below, e) = has_point_lem n text (ground (arith, h)) in (r, omega arith, e)
]

down : (n : ℕ) (text : List ℕ) → AllZero (suc n) text → get_or text n 0 ≡ b'0' → AllZero n text
down n text z here i l m = elim (ℕ_discrete i n) [
  | yes e ↦ ap (λ k. get_or text k 0) e ∙ here
  | no d ↦ z i (omega arith) m
]

zeroes_from_lem :
    (n p : ℕ) (text : List ℕ)
    → n ≤ length text
    → length text < bad_index
    → AllZero n text
    → zeroes_from n text ≡ p
    → p ≢ bad_index
    → IsUseless p text
unfolding zeroes_from IsUseless
zeroes_from_lem zero p text h w z e b = absurd (b (sym e))
zeroes_from_lem (suc n) p text h w z e b = elim (ℕ_discrete (get_or text n 0) b'0') [
  | yes here ↦
      let step : zeroes_from (suc n) text ≡ zeroes_from n text = ground (arith, here) in
      zeroes_from_lem n p text (omega arith) w (down n text z here) (sym step ∙ e) b
  | no other ↦ elim (ℕ_discrete (get_or text n 0) b'.') [
    | yes point ↦
        let found : zeroes_from (suc n) text ≡ n = ground (arith, point) in
        subst (λ k. IsUseless k text) (sym found ∙ e) (omega arith, z, inl point)
    | no digit ↦ elim (ℕ_discrete (suc n) (length text)) [
      | yes last ↦
          let nothing : zeroes_from (suc n) text ≡ bad_index = ground (arith, other, digit, last) in
          absurd (b (sym e ∙ nothing))
      | no inside ↦ elim (Bool-cases (has_point (suc n) text)) [
        | inl up ↦
            let found : zeroes_from (suc n) text ≡ suc n =
              ground (arith, other, digit, inside, up) in
            let (r, below, point) = has_point_lem (suc n) text up in
            subst (λ k. IsUseless k text) (sym found ∙ e)
              (
                omega arith,
                (λ i l m. z i (omega arith) m),
                inr (
                  n,
                  z (suc n) (omega arith) (omega arith),
                  refl,
                  other,
                  (r, omega arith, point),
                ),
              )
        | inr none_up ↦
            let nothing : zeroes_from (suc n) text ≡ bad_index =
              ground (arith, other, digit, inside, none_up) in
            absurd (b (sym e ∙ nothing))
      ]
    ]
  ]
]

-- Where `trailingZeroes` of a text gives a place, which is not the invalid one, it is in the text, and behind
-- it there are but zeroes; there is the point of a number, or else the first of the zeroes at the end, with a
-- point somewhere before them.
pub trailing_zeroes_lem :
    (p : ℕ) (text : List ℕ)
    → length text < bad_index
    → trailing_zeroes text ≡ p
    → p ≢ bad_index
    → IsUseless p text
unfolding trailing_zeroes
trailing_zeroes_lem p text w e b = elim (ℕ_discrete (length text) 1) [
  | yes single ↦
      let nothing : trailing_zeroes text ≡ bad_index = ground (arith, single) in
      absurd (b (sym e ∙ nothing))
  | no more ↦
      let all : trailing_zeroes text ≡ zeroes_from (length text) text = ground (arith, more) in
      zeroes_from_lem (length text) p text (omega arith) w (λ i l m. absurd (omega arith))
        (sym all ∙ e) b
]
