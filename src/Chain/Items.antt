-- ===== src/Chain/Items.antt =====
-- system/chain.h: the items of a chain, counted and by place.
use safely.Prelude.{
  ℕ, zero, suc, ◌+◌, ◌≤◌, ◌<◌, ◌≡◌, ◌≢◌, refl, ◌∙◌, arith, true, false, List, [], ◌∷◌, ◌++◌, ltb,
  ◌==◌, if◌then◌else◌, length, get_or, set, take, drop, ℕ_discrete, subst, length-set,
}
use safely.Index.{bad_index}
use safely.Chain.{
  Chain, null, insert_at, erase_at, backwards, index_below, index_of, nth, has, remove_nth, remove,
  swap,
}

-- how often a number is in a list
abbrev pub one : ℕ → ℕ → ℕ
one x y = if x == y then 1 else 0

abbrev pub count : ℕ → List ℕ → ℕ
count x [] = 0
count x (y ∷ ys) = one x y + count x ys

pub count-append : (x : ℕ) (xs ys : List ℕ) → count x (xs ++ ys) ≡ count x xs + count x ys
count-append x [] ys = omega arith
count-append x (y ∷ xs) ys = omega (arith, count-append x xs ys)

pub count-insert_at :
    (x n thing : ℕ) (xs : List ℕ)
    → n ≤ length xs
    → count x (insert_at n thing xs) ≡ one x thing + count x xs
unfolding insert_at
count-insert_at x zero thing xs h = refl
count-insert_at x (suc n) thing [] h = absurd (omega arith)
count-insert_at x (suc n) thing (y ∷ xs) h =
    omega (arith, count-insert_at x n thing xs (omega arith))

pub count-erase_at :
    (x n : ℕ) (xs : List ℕ)
    → n < length xs
    → count x (erase_at n xs) + one x (get_or xs n null) ≡ count x xs
unfolding erase_at
count-erase_at x n [] h = absurd (omega arith)
count-erase_at x zero (y ∷ xs) h = omega arith
count-erase_at x (suc n) (y ∷ xs) h = omega (arith, count-erase_at x n xs (omega arith))

pub count-backwards : (x : ℕ) (xs : List ℕ) → count x (backwards xs) ≡ count x xs
unfolding backwards
count-backwards x [] = refl
count-backwards x (y ∷ xs) =
    omega (arith, count-append x (backwards xs) (y ∷ []), count-backwards x xs)

pub count-take-drop :
    (x n : ℕ) (xs : List ℕ) → count x (take n xs) + count x (drop n xs) ≡ count x xs
count-take-drop x zero xs = omega arith
count-take-drop x (suc n) [] = omega arith
count-take-drop x (suc n) (y ∷ xs) = omega (arith, count-take-drop x n xs)

count-set :
    (x i v : ℕ) (xs : List ℕ)
    → i < length xs
    → count x (set xs i v) + one x (get_or xs i null) ≡ count x xs + one x v
count-set x i v [] h = absurd (omega arith)
count-set x zero v (y ∷ xs) h = omega arith
count-set x (suc i) v (y ∷ xs) h = omega (arith, count-set x i v xs (omega arith))

get_or-set :
    (xs : List ℕ) (i v j : ℕ)
    → i < length xs
    → get_or (set xs i v) j null ≡ (if i == j then v else get_or xs j null)
get_or-set [] i v j h = absurd (omega arith)
get_or-set (x ∷ xs) zero v zero h = refl
get_or-set (x ∷ xs) zero v (suc j) h = ground arith
get_or-set (x ∷ xs) (suc i) v zero h = ground arith
get_or-set (x ∷ xs) (suc i) v (suc j) h = ground (arith, get_or-set xs i v j (omega arith))

pub count-swapped :
    (x i j : ℕ) (xs : List ℕ)
    → i < length xs
    → j < length xs
    → count x (set (set xs i (get_or xs j null)) j (get_or xs i null)) ≡ count x xs
count-swapped x i j xs h k =
    let a = get_or xs i null in
    let b = get_or xs j null in
    let xs' = set xs i b in
    let same : get_or xs' j null ≡ b = ground (arith, get_or-set xs i b j h) in
    let outer : count x (set xs' j a) + one x b ≡ count x xs' + one x a =
      subst (λ v. count x (set xs' j a) + one x v ≡ count x xs' + one x a) same
        (count-set x j a xs' (omega (arith, length-set xs i b))) in
    omega (arith, outer, count-set x i b xs h)

-- `swap` of two places of the chain exchanges what stands there and leaves the rest.
swap_items :
    (from to k : ℕ) (c : Chain)
    → from < length c.items
    → to < length c.items
    → let (c', told) = swap from to c in
      (told ≡ true)
      × (get_or c'.items k null ≡ (
          if to == k
          then get_or c.items from null
          else if from == k
          then get_or c.items to null
          else get_or c.items k null))
unfolding swap has
swap_items from to k c h w =
    let b = get_or c.items to null in
    ground (
      arith,
      get_or-set c.items from b k,
      get_or-set (set c.items from b) to (get_or c.items from null) k,
      length-set c.items from b,
    )

-- the loop of `indexOf`, where a thing is found and where it is not
index_below_lem :
    (n thing : ℕ) (xs : List ℕ) (k : ℕ)
    → k < n
    → n < bad_index
    → get_or xs k null ≡ thing
    → let i = index_below n thing xs in (k ≤ i) × (i < n) × (get_or xs i null ≡ thing)
unfolding index_below
index_below_lem zero thing xs k h w e = absurd (omega arith)
index_below_lem (suc n) thing xs k h w e = elim (ℕ_discrete (get_or xs n null) thing) [
  | yes here ↦ ground arith
  | no other ↦
      let k_less : k < n = elim (ℕ_discrete k n) [
        | yes same ↦ absurd (other (subst (λ m. get_or xs m null ≡ thing) same e))
        | no ne ↦ omega arith
      ] in
      let (above, below, holds) = index_below_lem n thing xs k k_less (omega arith) e in
      let rest : (get_or xs n null == thing) ≡ false = ground arith in
      rw rest (above, omega arith, holds)
]

index_below_none :
    (n thing : ℕ) (xs : List ℕ)
    → ((k : ℕ) → k < n → get_or xs k null ≢ thing)
    → index_below n thing xs ≡ bad_index
unfolding index_below
index_below_none zero thing xs h = refl
index_below_none (suc n) thing xs h =
    let other = h n (omega arith) in
    let rest : (get_or xs n null == thing) ≡ false = ground arith in
    rw rest (index_below_none n thing xs (λ k l. h k (omega arith)))

-- `indexOf` of a thing that is at some place of a chain, and not null, gives the last such place, where
-- `nth` gives the thing.
index_of_lem :
    (thing k : ℕ) (c : Chain)
    → thing ≢ null
    → length c.items < bad_index
    → k < length c.items
    → get_or c.items k null ≡ thing
    → let i = index_of thing c in (k ≤ i) × (i < length c.items) × (nth i c ≡ thing)
index_of_lem thing k c nz w h e =
    let test : (thing == null) ≡ false = ground arith in
    let (above, below, holds) = index_below_lem (length c.items) thing c.items k h w e in
    let place : index_of thing c ≡ index_below (length c.items) thing c.items =
      unfold index_of in rw test refl in
    rw place (above, below, (unfold nth in ground arith))

-- `remove` of a thing that is at no place changes nothing and returns false.
remove_absent :
    (thing : ℕ) (c : Chain)
    → length c.items < bad_index
    → ((k : ℕ) → k < length c.items → get_or c.items k null ≢ thing)
    → remove thing c ≡ (c, false)
remove_absent thing c w h =
    let nowhere : index_of thing c ≡ bad_index = elim (ℕ_discrete thing null) [
      | yes z ↦ let test : (thing == null) ≡ true = ground arith in unfold index_of in rw test refl
      | no nz ↦
          let test : (thing == null) ≡ false = ground arith in
          unfold index_of in rw test (index_below_none (length c.items) thing c.items h)
    ] in
    let out : has bad_index c ≡ false = unfold has in ground arith in
    unfold remove in rw nowhere (unfold remove_nth in rw out refl)

pub length-erase_at :
    (n : ℕ) (xs : List ℕ) → n < length xs → suc (length (erase_at n xs)) ≡ length xs
unfolding erase_at
length-erase_at n [] h = absurd (omega arith)
length-erase_at zero (x ∷ xs) h = refl
length-erase_at (suc n) (x ∷ xs) h = omega (arith, length-erase_at n xs (omega arith))

pub get_or-erase_at :
    (n i : ℕ) (xs : List ℕ)
    → get_or (erase_at n xs) i null ≡ (if ltb i n then get_or xs i null else get_or xs (suc i) null)
unfolding erase_at
get_or-erase_at n zero [] = ground arith
get_or-erase_at n (suc i) [] = ground arith
get_or-erase_at zero i (x ∷ xs) = ground arith
get_or-erase_at (suc n) zero (x ∷ xs) = ground arith
get_or-erase_at (suc n) (suc i) (x ∷ xs) = ground (arith, get_or-erase_at n i xs)

pub get_or-erase_at_before :
    (n i : ℕ) (xs : List ℕ) → i < n → get_or (erase_at n xs) i null ≡ get_or xs i null
get_or-erase_at_before n i xs h = get_or-erase_at n i xs ∙ ground arith
