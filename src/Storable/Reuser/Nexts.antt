-- ===== src/Storable/Reuser/Nexts.antt =====
-- system/storable/storable.cpp: what some calls of `next` give, and make of a node's children.
use safely.Prelude.{
  ℕ, zero, suc, ◌+◌, ◌≤◌, ◌<◌, ◌≡◌, refl, sym, ap, ◌∙◌, arith, List, [], ◌∷◌, length, get_or,
  u32_mod, max,
}
use safely.Chain.{null}
use safely.Storable.{Forest}
use safely.Storable.Links.{kids, IsLinked}
use safely.Storable.Reuser.{Reuser, next}
use safely.Storable.Reuser.OneNext.{reuser, Reused, Nexted, next-Nexted}

-- a number of calls of `next`, with the children that they give
unfoldable pub reuse : ℕ → Reuser → Forest → Forest × Reuser × List ℕ
unfolding next
reuse zero r s = (s, r, [])
reuse (suc n) r s =
    let (s1, r1, kid) = next r s in let (s', r', given) = reuse n r1 s1 in (s', r', kid ∷ given)

-- What some calls of `next` do: the children that they give are those from the pointer on.
pub record Gave (w a pointer n : ℕ) (s : Forest) (t : Forest × Reuser × List ℕ) : Type 0 where
  pub counted : t.1 ≡ reuser w a (pointer + n)
  pub reused : Reused a (max (length (kids s a)) (pointer + n)) s t.0
  pub more : (b : ℕ) → b < s.fresh → length (kids s b) ≤ length (kids t.0 b)
  pub many : length t.2 ≡ n
  pub placed : (i : ℕ) → i < n → get_or t.2 i null ≡ get_or (kids t.0 a) (pointer + i) null
  pub padded : (i : ℕ) → i < n → w ≤ length (kids t.0 (get_or t.2 i null))

reuse-step :
    (n w a pointer : ℕ) (s : Forest)
    → Nexted w a pointer s (next (reuser w a pointer) s)
    → reuse (suc n) (reuser w a pointer) s ≡ (
        let s1 = (next (reuser w a pointer) s).0 in
        let (s', r', given) = reuse n (reuser w a (pointer + 1)) s1 in
        (s', r', (next (reuser w a pointer) s).2 ∷ given))
unfolding reuse
reuse-step n w a pointer s x =
    let (s1, r1, kid) = next (reuser w a pointer) s in
    ap (λ r. let (s', r', given) = reuse n r s1 in (s', r', kid ∷ given)) x.counted

one_more_placed :
    (kid pointer n : ℕ) (given items : List ℕ)
    → kid ≡ get_or items pointer null
    → ((i : ℕ) → i < n → get_or given i null ≡ get_or items (pointer + 1 + i) null)
    → (i : ℕ) → i < suc n
    → get_or (kid ∷ given) i null ≡ get_or items (pointer + i) null
one_more_placed kid pointer n given items e h zero j =
    let here : pointer ≡ pointer + 0 = omega arith in e ∙ ap (λ k. get_or items k null) here
one_more_placed kid pointer n given items e h (suc i) j =
    let on : pointer + 1 + i ≡ pointer + suc i = omega arith in
    h i (omega arith) ∙ ap (λ k. get_or items k null) on

one_more_padded :
    (w kid n : ℕ) (given : List ℕ) (s : Forest)
    → w ≤ length (kids s kid)
    → ((i : ℕ) → i < n → w ≤ length (kids s (get_or given i null)))
    → (i : ℕ) → i < suc n
    → w ≤ length (kids s (get_or (kid ∷ given) i null))
one_more_padded w kid n given s k h zero j = k
one_more_padded w kid n given s k h (suc i) j = h i (omega arith)

one_more-Gave :
    (n w a pointer : ℕ) {s : Forest} {t : Forest × Reuser × ℕ} {u : Forest × Reuser × List ℕ}
    → Nexted w a pointer s t
    → Gave w a (pointer + 1) n t.0 u
    → Gave w a pointer (suc n) s (u.0, u.1, t.2 ∷ u.2)
one_more-Gave n w a pointer {s} {t} {u} x y =
    let within : pointer < length (kids t.0 a) = omega (arith, x.reused.size) in
    let (after, before, up, place) = x.reused.linked.linked a pointer within in
    let at : t.2 ≡ get_or (kids u.0 a) pointer null =
      x.placed ∙ sym (y.reused.old pointer within (omega arith)) in
    let kept = y.more t.2 (omega (arith, x.placed)) in
    record {
      counted = y.counted ∙ ap (reuser w a) (omega arith);
      reused = record {
        linked = y.reused.linked;
        fresh = omega (arith, x.reused.fresh, y.reused.fresh);
        size = y.reused.size ∙ omega (arith, x.reused.size);
        old = λ i m q.
            y.reused.old i (omega (arith, x.reused.size)) (omega (arith, x.reused.size))
            ∙ x.reused.old i m (omega arith);
      };
      more = λ b m. omega (arith, x.more b m, y.more b (omega (arith, x.reused.fresh)));
      many = ap suc y.many;
      placed = one_more_placed t.2 pointer n u.2 (kids u.0 a) at y.placed;
      padded = one_more_padded w t.2 n u.2 u.0 (omega (arith, x.padded)) y.padded;
    }

-- After a number of calls that begin where children are, or end.
pub reuse-Gave :
    (n w a pointer : ℕ) {s : Forest}
    → IsLinked s
    → a < s.fresh
    → pointer ≤ length (kids s a)
    → pointer + n < u32_mod
    → Gave w a pointer n s (reuse n (reuser w a pointer) s)
unfolding reuse
reuse-Gave zero w a pointer {s} l h p v = record {
  counted = ap (reuser w a) (omega arith);
  reused = record { linked = l; fresh = omega arith; size = omega arith; old = λ i m q. refl };
  more = λ b m. omega arith;
  many = refl;
  placed = λ i j. absurd (omega arith);
  padded = λ i j. absurd (omega arith);
}
reuse-Gave (suc n) w a pointer {s} l h p v =
    let x = next-Nexted w a pointer l h p (omega arith) in
    let y =
      reuse-Gave n w a (pointer + 1) x.reused.linked (omega (arith, x.reused.fresh))
        (omega (arith, x.reused.size)) (omega arith) in
    rw (reuse-step n w a pointer s x) (one_more-Gave n w a pointer x y)
