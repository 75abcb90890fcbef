-- ===== src/Indexer/Contents.antt =====
-- cppext/buffer.h: what an indexer gives access to, and when that is memory it may touch.
use safely.Prelude.{
  none, some, ◌==◌, ℕ, zero, suc, set, ◌+◌, ◌-◌, ◌≤◌, ◌<◌, ◌≡◌, refl, arith, ◌&&◌, Option, List, [],
  ◌∷◌, ltb, leb, if◌then◌else◌, u32_mod, length, get_elem?, take, drop, ◌⊎◌, length-take,
  length-drop,
}
use safely.Ordinator.Laws.{IsValid}
use safely.Indexer.{Indexer, Memory}
use safely.Indexer.Writing.{overwrite, copy_object}

module _ {A : Type 0} where
  -- The pointer is in order, the items lie in memory, and only an empty view may be at null.
  pub record Fits (ix : Indexer) (mem : Memory A) : Type 0 where
    pub valid : IsValid ix.ord
    pub placed : (0 < ix.buffer) ⊎ (ix.length ≡ 0)
    pub inside : ix.buffer + ix.length ≤ length mem
    pub small : length mem < u32_mod

  -- the item at an index of the view, and at an index of its used part; none past the end
  abbrev pub item : Indexer → Memory A → ℕ → Option A
  item ix mem i = if ltb i ix.length then get_elem? mem (ix.buffer + i) else none

  abbrev pub used_item : Indexer → Memory A → ℕ → Option A
  used_item ix mem i = if ltb i ix.pointer then get_elem? mem (ix.buffer + i) else none

  -- what a write keeps of memory is its length
  pub Fits-resized :
      {ix : Indexer} {mem mem' : Memory A} → Fits ix mem → length mem' ≡ length mem → Fits ix mem'
  Fits-resized {ix} {mem} {mem'} f e = record {
    valid = f.valid;
    placed = f.placed;
    inside = omega arith;
    small = omega arith;
  }

  pub length-overwrite :
      (mem : Memory A) (a : ℕ) (vs : List A) → length (overwrite mem a vs) ≡ length mem
  unfolding overwrite
  length-overwrite [] a vs = refl
  length-overwrite (x ∷ xs) zero [] = refl
  length-overwrite (x ∷ xs) zero (v ∷ vs) = omega (arith, length-overwrite xs zero vs)
  length-overwrite (x ∷ xs) (suc a) vs = omega (arith, length-overwrite xs a vs)

  get_elem?-overwrite :
      (mem : Memory A) (a : ℕ) (vs : List A) (j : ℕ)
      → j < length mem
      → get_elem? (overwrite mem a vs) j
        ≡ (if leb a j && ltb j (a + length vs) then get_elem? vs (j - a) else get_elem? mem j)
  unfolding overwrite
  get_elem?-overwrite [] a vs j h = absurd (omega arith)
  get_elem?-overwrite (x ∷ xs) zero [] j h = ground arith
  get_elem?-overwrite (x ∷ xs) zero (v ∷ vs) zero h = ground arith
  get_elem?-overwrite (x ∷ xs) zero (v ∷ vs) (suc j) h =
      ground (arith, get_elem?-overwrite xs zero vs j)
  get_elem?-overwrite (x ∷ xs) (suc a) vs zero h = ground arith
  get_elem?-overwrite (x ∷ xs) (suc a) vs (suc j) h = ground (arith, get_elem?-overwrite xs a vs j)

  get_elem?-take : (n : ℕ) (xs : List A) (i : ℕ) → i < n → get_elem? (take n xs) i ≡ get_elem? xs i
  get_elem?-take zero xs i h = absurd (omega arith)
  get_elem?-take (suc n) [] i h = refl
  get_elem?-take (suc n) (x ∷ xs) zero h = refl
  get_elem?-take (suc n) (x ∷ xs) (suc i) h = get_elem?-take n xs i (omega arith)

  get_elem?-drop : (n : ℕ) (xs : List A) (i : ℕ) → get_elem? (drop n xs) i ≡ get_elem? xs (n + i)
  get_elem?-drop zero xs i = ground arith
  get_elem?-drop (suc n) [] i = refl
  get_elem?-drop (suc n) (x ∷ xs) i =
      let e : suc n + i ≡ suc (n + i) = omega arith in rw e (get_elem?-drop n xs i)

  -- A copied block holds what the source held before, and the rest of memory is as it was.
  pub get_elem?-copy_object :
      (s t n : ℕ) (mem : Memory A) (j : ℕ)
      → s + n ≤ length mem
      → t + n ≤ length mem
      → j < length mem
      → get_elem? (copy_object s t n mem) j
        ≡ (if leb t j && ltb j (t + n) then get_elem? mem (s + (j - t)) else get_elem? mem j)
  unfolding copy_object
  get_elem?-copy_object s t n mem j hs ht hj = ground (
    arith,
    get_elem?-overwrite mem t (take n (drop s mem)) j,
    length-take n (drop s mem),
    length-drop s mem,
    get_elem?-take n (drop s mem) (j - t),
    get_elem?-drop s mem (j - t),
  )

  pub length-copy_object :
      (s t n : ℕ) (mem : Memory A) → length (copy_object s t n mem) ≡ length mem
  unfolding copy_object
  length-copy_object s t n mem = length-overwrite mem t _

  pub get_elem?-set :
      (mem : Memory A) (a : ℕ) (v : A) (j : ℕ)
      → a < length mem
      → get_elem? (set mem a v) j ≡ (if a == j then some v else get_elem? mem j)
  get_elem?-set [] a v j h = absurd (omega arith)
  get_elem?-set (x ∷ xs) zero v zero h = refl
  get_elem?-set (x ∷ xs) zero v (suc j) h = ground arith
  get_elem?-set (x ∷ xs) (suc a) v zero h = ground arith
  get_elem?-set (x ∷ xs) (suc a) v (suc j) h = ground (arith, get_elem?-set xs a v j)
