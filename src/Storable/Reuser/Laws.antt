-- ===== src/Storable/Reuser/Laws.antt =====
-- system/storable/storable.cpp: after `done`, a node has the children that `next` gave.
use mathlib.Core.Option
use safely.Prelude.{
  ℕ, zero, suc, ◌≤◌, ◌<◌, ◌≡◌, refl, sym, ap, ◌∙◌, arith, true, false, some, List, [], ◌∷◌, ltb,
  length, get_or, u32_mod, dec_lt,
}
use safely.Chain
use safely.Chain.{null}
use safely.Chain.Items.{length-erase_at, get_or-erase_at_before}
use safely.Storable.{Forest}
use safely.Storable.Wad.{num_children}
use safely.Storable.Links.{kids, IsLinked}
use safely.Storable.Notice.{remove_lem}
use safely.Storable.Reuser.{make, kill, done}
use safely.Storable.Reuser.OneNext.{reuser, Reused}
use safely.Storable.Reuser.Nexts.{reuse, reuse-Gave}

kill_lem :
    (fuel pointer killer a : ℕ) {s : Forest}
    → IsLinked s
    → 0 < a
    → a < s.fresh
    → a < fuel
    → length (kids s a) ≡ killer
    → killer < u32_mod
    → pointer ≤ killer
    → (s' : Forest) × (kill fuel pointer killer a s ≡ some s') × Reused a pointer s s'
unfolding kill Option.bind
kill_lem fuel pointer zero a {s} l p h f e w q =
    (s, refl, record { linked = l; fresh = omega arith; size = omega arith; old = λ i k m. refl })
kill_lem fuel pointer (suc killer) a {s} l p h f e w q = elim (dec_lt pointer (suc killer)) [
  | yes k ↦
      let test : ltb pointer (suc killer) ≡ true = ground arith in
      let (s1, did, l1, items, fresh) =
        remove_lem fuel killer a l p h f (omega arith) (omega arith) in
      let size =
        ap (λ xs. suc (length xs)) items ∙ length-erase_at killer (kids s a) (omega arith) in
      let (s', rest, x) =
        kill_lem fuel pointer killer a l1 p (omega arith) f (omega arith) (omega arith)
          (omega arith) in
      (
        s',
        rw test (rw did rest),
        record {
          linked = x.linked;
          fresh = omega (arith, x.fresh);
          size = x.size;
          old = λ i m n.
              x.old i (omega arith) n
              ∙ ap (λ xs. get_or xs i null) items
              ∙ get_or-erase_at_before killer i (kids s a) (omega arith);
        },
      )
  | no k ↦
      let test : ltb pointer (suc killer) ≡ false = ground arith in
      (
        s,
        rw test refl,
        record { linked = l; fresh = omega arith; size = omega arith; old = λ i m n. refl },
      )
]

same_lists :
    (xs ys : List ℕ)
    → length xs ≡ length ys
    → ((i : ℕ) → i < length xs → get_or xs i null ≡ get_or ys i null)
    → xs ≡ ys
same_lists [] [] e h = refl
same_lists [] (y ∷ ys) e h = absurd (omega arith)
same_lists (x ∷ xs) [] e h = absurd (omega arith)
same_lists (x ∷ xs) (y ∷ ys) e h =
    ap (λ z. z ∷ xs) (h 0 (omega arith))
    ∙ ap (λ zs. y ∷ zs) (same_lists xs ys (omega arith) (λ i j. h (suc i) (omega arith)))

-- The children of a node in a linked tree are reused, where there are fewer than 2^32. After a number of
-- calls of `next`, also below 2^32, each child that they gave has at least as many children as the wadding
-- says. The call of `done` then returns that number and ends, with more rounds than the node's address;
-- the node's children are those that the calls gave, in order, the old ones come first, and the links are
-- kept.
pub reuse-done :
    (fuel n w a : ℕ) {s : Forest}
    → IsLinked s
    → 0 < a
    → a < s.fresh
    → a < fuel
    → length (kids s a) < u32_mod
    → n < u32_mod
    → let (s1, r, given) = reuse n (make a w) s in
      ((i : ℕ) → i < n → w ≤ length (kids s1 (get_or given i null)))
      × ((s' : Forest) × (done fuel r s1 ≡ some (s', n))
          × IsLinked s'
          × (length given ≡ n)
          × (kids s' a ≡ given)
          × ((i : ℕ)
              → i < length (kids s a)
              → i < n
              → get_or given i null ≡ get_or (kids s a) i null))
unfolding make done num_children Chain.quantity
reuse-done fuel n w a {s} l p h f v q =
    let (s1, r, given) = reuse n (reuser w a 0) s in
    let x = reuse-Gave n w a 0 l h (omega arith) (omega arith) in
    let (s', did, y) =
      kill_lem fuel n (length (kids s1 a)) a x.reused.linked p (omega (arith, x.reused.fresh)) f
        refl (omega (arith, x.reused.size)) (omega (arith, x.reused.size)) in
    let counted : r ≡ reuser w a n = x.counted ∙ ap (reuser w a) (omega arith) in
    let whole : kids s' a ≡ given = same_lists (kids s' a) given (y.size ∙ sym x.many) (λ i j.
      y.old i (omega (arith, x.reused.size, y.size)) (omega (arith, y.size))
      ∙ sym (
          x.placed i (omega (arith, y.size))
          ∙ ap (λ k. get_or (kids s1 a) k null) (omega arith))) in
    (
      x.padded,
      (
        s',
        rw counted (rw did refl),
        y.linked,
        x.many,
        whole,
        λ i m o.
            x.placed i o
            ∙ ap (λ k. get_or (kids s1 a) k null) (omega arith)
            ∙ x.reused.old i m (omega arith),
      ),
    )
