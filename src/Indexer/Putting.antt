-- ===== src/Indexer/Putting.antt =====
-- cppext/buffer.h: `next()` as the target of an assignment and as a value, one item after another.
use safely.Prelude.{
  ℕ, zero, suc, ◌+◌, ◌≤◌, ◌<◌, ◌≡◌, refl, ap, ◌∙◌, arith, Option, none, some, List, [], ◌∷◌, ◌++◌,
  set, get_or, length,
}
use safely.Indexer.{Indexer, Memory, next}
use safely.Indexer.Writing.{overwrite}

-- An assignment through a reference; to the null reference it is without effect.
abbrev pub assign {ℓ} : {A : Type ℓ} → Option ℕ → A → Memory A → Memory A
assign none v mem = mem
assign (some a) v mem = set mem a v

-- `next() = v`
unfoldable pub put {ℓ} : {A : Type ℓ} → A → Indexer → Memory A → Memory A × Indexer
unfolding next
put v ix mem = let (reference, ix') = next ix in (assign reference v mem, ix')

-- the value behind a reference; behind the null reference it is zero
abbrev pub value_at : Option ℕ → Memory ℕ → ℕ
value_at none mem = 0
value_at (some a) mem = get_or mem a 0

-- the value of `next()`
unfoldable pub fetch : Indexer → Memory ℕ → ℕ × Indexer
unfolding next
fetch ix mem = let (reference, ix') = next ix in (value_at reference mem, ix')

-- the indexer with its pointer moved on
abbrev pub moved : ℕ → Indexer → Indexer
moved n ix = record ix { ord = record { pointer = ix.pointer + n; length = ix.length } }

module _ {A : Type 0} where
  -- a list of items assigned to `next()` in turn
  unfoldable pub put_all : List A → Indexer → Memory A → Memory A × Indexer
  unfolding put
  put_all [] ix mem = (mem, ix)
  put_all (v ∷ vs) ix mem = let (mem', ix') = put v ix mem in put_all vs ix' mem'

  pub put_room :
      (v : A) (ix : Indexer) (mem : Memory A)
      → ix.pointer < ix.length
      → put v ix mem ≡ (set mem (ix.buffer + ix.pointer) v, moved 1 ix)
  unfolding put next
  put_room v ix mem h = ground arith

  overwrite-nil : (mem : Memory A) (a : ℕ) → overwrite mem a [] ≡ mem
  unfolding overwrite
  overwrite-nil [] a = refl
  overwrite-nil (x ∷ xs) zero = refl
  overwrite-nil (x ∷ xs) (suc a) = ap (λ r. x ∷ r) (overwrite-nil xs a)

  overwrite-set :
      (mem : Memory A) (a : ℕ) (v : A) (vs : List A)
      → overwrite (set mem a v) (suc a) vs ≡ overwrite mem a (v ∷ vs)
  unfolding overwrite
  overwrite-set [] a v vs = refl
  overwrite-set (x ∷ xs) zero v vs = refl
  overwrite-set (x ∷ xs) (suc a) v vs = ap (λ r. x ∷ r) (overwrite-set xs a v vs)

  -- Items for which there is room are written one behind the other.
  pub put_all_room :
      (vs : List A) (ix : Indexer) (mem : Memory A)
      → ix.pointer + length vs ≤ ix.length
      → put_all vs ix mem ≡ (overwrite mem (ix.buffer + ix.pointer) vs, moved (length vs) ix)
  unfolding put_all
  put_all_room [] ix mem h = rw (overwrite-nil mem (ix.buffer + ix.pointer)) (ground arith)
  put_all_room (v ∷ vs) ix mem h =
      let a = ix.buffer + ix.pointer in
      ap (λ r. put_all vs r.1 r.0) (put_room v ix mem (omega arith))
      ∙ put_all_room vs (moved 1 ix) (set mem a v) (omega arith)
      ∙ (let e : ix.buffer + (ix.pointer + 1) ≡ suc a = omega arith in
          rw e (ground (arith, overwrite-set mem a v vs)))

  pub put_all-append :
      (vs ws : List A) (ix : Indexer) (mem : Memory A)
      → put_all (vs ++ ws) ix mem ≡ (let (mem', ix') = put_all vs ix mem in put_all ws ix' mem')
  unfolding put_all
  put_all-append [] ws ix mem = refl
  put_all-append (v ∷ vs) ws ix mem =
      let (mem', ix') = put v ix mem in put_all-append vs ws ix' mem'

pub fetch_room :
    (ix : Indexer) (mem : Memory ℕ)
    → ix.pointer < ix.length
    → fetch ix mem ≡ (get_or mem (ix.buffer + ix.pointer) 0, moved 1 ix)
fetch_room ix mem h = unfold fetch next in ground arith
