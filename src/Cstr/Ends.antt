-- ===== src/Cstr/Ends.antt =====
-- cppext/cstr.cpp: the ends of a text, against what it means to begin or to end with another.
use safely.Prelude.{
  ℕ, zero, suc, ◌-◌, ◌≤◌, ◌≡◌, ◌↔◌, refl, sym, ap, ◌∙◌, arith, true, false, List, [], ◌∷◌, ◌++◌,
  length, sub_u32, int_max, ◌<◌, length-append, take, drop, ℕ_discrete, dec_lt,
}
use safely.Cstr.{same}
use safely.Cstr.Text.{ends_with, starts_with}

pub same_refl : (xs : List ℕ) → same xs xs ≡ true
unfolding same
same_refl [] = refl
same_refl (x ∷ xs) = ground (arith, same_refl xs)

same-eq : (xs ys : List ℕ) → same xs ys ≡ true → xs ≡ ys
unfolding same
same-eq [] [] h = refl
same-eq [] (y ∷ ys) h = absurd cc
same-eq (x ∷ xs) [] h = absurd cc
same-eq (x ∷ xs) (y ∷ ys) h =
    let head : x ≡ y = ground (arith, h) in
    let tail : same xs ys ≡ true = ground (arith, h) in
    ap (λ z. z ∷ xs) head ∙ ap (λ zs. y ∷ zs) (same-eq xs ys tail)

drop-append : (xs ys : List ℕ) → drop (length xs) (xs ++ ys) ≡ ys
drop-append [] ys = refl
drop-append (x ∷ xs) ys = drop-append xs ys

take-append-drop : (n : ℕ) (xs : List ℕ) → take n xs ++ drop n xs ≡ xs
take-append-drop zero xs = refl
take-append-drop (suc n) [] = refl
take-append-drop (suc n) (x ∷ xs) = ap (λ zs. x ∷ zs) (take-append-drop n xs)

ends_with_tail :
    (text ext : List ℕ)
    → length ext ≤ length text
    → length text < int_max
    → ends_with ext text ≡ same (drop (length text - length ext) text) ext
unfolding ends_with same
ends_with_tail [] [] h w = refl
ends_with_tail [] (e ∷ ext) h w = absurd (omega arith)
ends_with_tail (t ∷ text) ext h w =
    let offset : sub_u32 (length (t ∷ text)) (length ext) ≡ length (t ∷ text) - length ext =
      omega arith in
    elim (ℕ_discrete (length (t ∷ text)) (length ext)) [
      | yes same_size ↦
          let none_cut : length (t ∷ text) - length ext ≡ 0 = omega arith in
          let whole : ends_with ext (t ∷ text) ≡ same (t ∷ text) ext = ground (arith, same_size) in
          whole ∙ ap (λ k. same (drop k (t ∷ text)) ext) (sym none_cut)
      | no longer ↦ ground (arith, longer)
    ]

ends_with-append :
    (pre ext : List ℕ) → length (pre ++ ext) < int_max → ends_with ext (pre ++ ext) ≡ true
ends_with-append pre ext w =
    let size = length-append pre ext in
    let cut : length (pre ++ ext) - length ext ≡ length pre = omega arith in
    ends_with_tail (pre ++ ext) ext (omega arith) w
    ∙ ap (λ k. same (drop k (pre ++ ext)) ext) cut
    ∙ ap (λ xs. same xs ext) (drop-append pre ext)
    ∙ same_refl ext

ends_with-suffix :
    (text ext : List ℕ)
    → length text < int_max
    → length ext < int_max
    → ends_with ext text ≡ true
    → (pre : List ℕ) × (text ≡ pre ++ ext)
ends_with-suffix text ext w w' h = elim (dec_lt (length text) (length ext)) [
  | yes short ↦
      let refused : ends_with ext text ≡ false = unfold ends_with in ground (arith, short) in
      absurd cc
  | no enough ↦
      let n = length text - length ext in
      let tail = same-eq (drop n text) ext (sym (ends_with_tail text ext (omega arith) w) ∙ h) in
      (take n text, sym (take-append-drop n text) ∙ ap (λ xs. take n text ++ xs) tail)
]

starts_with-append : (other text : List ℕ) → starts_with other (other ++ text) ≡ true
unfolding starts_with
starts_with-append [] text = refl
starts_with-append (c ∷ other) text = ground (arith, starts_with-append other text)

starts_with-prefix :
    (text other : List ℕ) → starts_with other text ≡ true → (rest : List ℕ) × (text ≡ other ++ rest)
unfolding starts_with
starts_with-prefix text [] h = (text, refl)
starts_with-prefix [] (c ∷ other) h = absurd cc
starts_with-prefix (m ∷ text) (c ∷ other) h =
    let head : m ≡ c = ground (arith, h) in
    let more : starts_with other text ≡ true = ground (arith, h) in
    let (rest, e) = starts_with-prefix text other more in
    (rest, ap (λ z. z ∷ text) head ∙ ap (λ xs. c ∷ xs) e)

-- `endsWith` tells whether a text is another one with something before it, and `startsWith` whether it is
-- another one with something behind it; for texts shorter than 2^31.
pub ends-starts :
    (text other : List ℕ)
    → length text < int_max
    → length other < int_max
    → ((ends_with other text ≡ true) ↔ ((pre : List ℕ) × (text ≡ pre ++ other)))
      × ((starts_with other text ≡ true) ↔ ((rest : List ℕ) × (text ≡ other ++ rest)))
ends-starts text other w w' = (
  (
    ends_with-suffix text other w w',
    λ p. ap (ends_with other) p.1 ∙ ends_with-append p.0 other (omega (arith, ap length p.1)),
  ),
  (starts_with-prefix text other, λ p. ap (starts_with other) p.1 ∙ starts_with-append other p.0),
)
