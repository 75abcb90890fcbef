-- ===== src/Chain/Scanning.antt =====
-- system/chain.h: scanners, which go through the items in either direction, and `relocate`.
use mathlib.Core.Option
use safely.Prelude.{
  ℕ, zero, suc, ◌+◌, ◌≤◌, ◌<◌, ◌≡◌, ◌≢◌, refl, ap, ◌∙◌, arith, Bool, true, false, Option, none,
  some, List, [], ◌∷◌, ◌++◌, ltb, if◌then◌else◌, length, get_elem?, take, drop, drop-all, take-all,
  u32_mod,
}
use safely.Index.{bad_index}
use safely.Chain.{
  Chain, Scanner, scanner, has_next, next, rewind, has, relocate, move_items, pointer_size, settle,
}

abbrev pub at_step : ℕ → Bool → Scanner
at_step k in_reverse = record { step = k; in_reverse = in_reverse }

pub next-forward : (a : ℕ) → a + 1 < u32_mod → next (at_step a false) ≡ (a, at_step (suc a) false)
unfolding next
next-forward a h = ground arith

module _ {A : Type 0} where
  -- `while (scanner.hasNext()) use(scanner.next())`: the items that are used, in order. On fuel; `none`
  -- is a loop that has not ended.
  unfoldable pub visit : ℕ → Scanner → List A → Option (List (Option A))
  unfolding next has_next
  visit zero s items = none
  visit (suc fuel) s items =
      let (place, s') = next s in
      let rest = visit fuel s' items in
      if has_next items s then Option.map (λ used. get_elem? items place ∷ used) rest else some []

  abbrev pub each : List A → List (Option A)
  each [] = []
  each (x ∷ xs) = some x ∷ each xs

  unfoldable pub each_backwards : List A → List (Option A)
  each_backwards [] = []
  each_backwards (x ∷ xs) = each_backwards xs ++ (some x ∷ [])

  drop-cons_elem :
      (xs : List A) (a : ℕ)
      → a < length xs
      → (x : A) × (get_elem? xs a ≡ some x) × (drop a xs ≡ x ∷ drop (suc a) xs)
  drop-cons_elem [] a h = absurd (omega arith)
  drop-cons_elem (x ∷ xs) zero h = (x, refl, refl)
  drop-cons_elem (x ∷ xs) (suc a) h = drop-cons_elem xs a (omega arith)

  take-last :
      (xs : List A) (k : ℕ)
      → k < length xs
      → each_backwards (take (suc k) xs) ≡ get_elem? xs k ∷ each_backwards (take k xs)
  unfolding each_backwards
  take-last [] k h = absurd (omega arith)
  take-last (x ∷ xs) zero h = refl
  take-last (x ∷ xs) (suc k) h = rw (take-last xs k (omega arith)) refl

  pub has_next-forward :
      (a : ℕ) (items : List A) → has_next items (at_step a false) ≡ ltb a (length items)
  unfolding has_next
  has_next-forward a items = refl

  visit_step :
      (fuel : ℕ) (s : Scanner) (items : List A)
      → has_next items s ≡ true
      → visit (suc fuel) s items
        ≡ Option.map (λ used. get_elem? items (next s).0 ∷ used) (visit fuel (next s).1 items)
  unfolding visit
  visit_step fuel s items h = rw h refl

  visit_end :
      (fuel : ℕ) (s : Scanner) (items : List A)
      → has_next items s ≡ false
      → visit (suc fuel) s items ≡ some []
  unfolding visit
  visit_end fuel s items h = rw h refl

  forward_from :
      (left a : ℕ) (items : List A)
      → a + left ≡ length items
      → length items < u32_mod
      → visit (suc left) (at_step a false) items ≡ some (each (drop a items))
  forward_from zero a items e w =
      let ended : has_next items (at_step a false) ≡ false = unfold has_next in ground arith in
      let nothing_left : drop a items ≡ [] = drop-all a items (omega arith) in
      visit_end zero (at_step a false) items ended ∙ rw nothing_left refl
  forward_from (suc left) a items e w =
      let more : has_next items (at_step a false) ≡ true = unfold has_next in ground arith in
      let on : next (at_step a false) ≡ (a, at_step (suc a) false) = unfold next in ground arith in
      let (x, here, split) = drop-cons_elem items a (omega arith) in
      visit_step (suc left) (at_step a false) items more
      ∙ rw on (rw (forward_from left (suc a) items (omega arith) w) (rw here (rw split refl)))

  backward_from :
      (k : ℕ) (items : List A)
      → k ≤ length items
      → length items < u32_mod
      → visit (suc k) (at_step k true) items ≡ some (each_backwards (take k items))
  backward_from zero items h w =
      let ended : has_next items (at_step 0 true) ≡ false = unfold has_next in refl in
      visit_end zero (at_step 0 true) items ended ∙ (unfold each_backwards in refl)
  backward_from (suc k) items h w =
      let more : has_next items (at_step (suc k) true) ≡ true = unfold has_next in ground arith in
      let on : next (at_step (suc k) true) ≡ (k, at_step k true) = unfold next in ground arith in
      visit_step (suc k) (at_step (suc k) true) items more
      ∙ rw on
          (rw (backward_from k items (omega arith) w) (rw (take-last items k (omega arith)) refl))

  -- A loop over a scanner ends, with one round more than there are items, and uses every item once, in
  -- order, from the first on or, in reverse, from the last on.
  pub scanner-visits :
      (items : List A)
      → length items < u32_mod
      → (visit (suc (length items)) (scanner false items) items ≡ some (each items))
        × (visit (suc (length items)) (scanner true items) items ≡ some (each_backwards items))
  scanner-visits items w =
      unfold scanner in
      (
        forward_from (length items) 0 items (omega arith) w,
        backward_from (length items) items (omega arith) w
            ∙ ap (λ xs. some (each_backwards xs)) (take-all items),
      )

  -- `rewind` by the invalid length, its default, takes a scanner back to its start.
  pub rewind-restarts :
      (k : ℕ) (in_reverse : Bool) (items : List A)
      → k ≤ length items
      → length items < bad_index
      → rewind items bad_index (at_step k in_reverse) ≡ scanner in_reverse items
  unfolding rewind scanner
  rewind-restarts k true items h w = ground arith
  rewind-restarts k false items h w = ground arith

-- In a chain of eight items or fewer `relocate` of an item to another place reads or writes outside the
-- array.
pub relocate_outside :
    (from to : ℕ) (c : Chain)
    → length c.items ≤ 8
    → from < length c.items
    → to < length c.items
    → from ≢ to
    → relocate from to c ≡ none
unfolding relocate has move_items pointer_size settle
relocate_outside from to c h f t ne = ground arith
