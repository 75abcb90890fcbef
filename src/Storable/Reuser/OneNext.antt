-- ===== src/Storable/Reuser/OneNext.antt =====
-- system/storable/storable.cpp: what a call of `next` gives, and makes of a node's children.
use safely.Prelude.{
  ℕ, zero, suc, ◌+◌, ◌-◌, ◌≤◌, ◌<◌, ◌≡◌, refl, sym, ap, ◌∙◌, arith, true, false, [], ◌∷◌, ltb, leb,
  ◌==◌, if◌then◌else◌, length, length-append, get_or, u32_mod, add_u32, dec_lt, max, ℕ_discrete,
  subst,
}
use safely.Chain
use safely.Chain.{null}
use safely.Storable.{not_defined, Forest}
use safely.Storable.Wad.{
  has, num_children, precreate, finish_creating_child, add_child, add_wad, presize, presize_loop,
}
use safely.Storable.Links.{kids, IsLinked, get_or-append, get_or-append_old}
use safely.Storable.Wadding.{presize_loop-Presized}
use safely.Storable.Widening.{add_wad-Widened}
use safely.Storable.Reuser.{Reuser, next}

abbrev pub reuser : ℕ → ℕ → ℕ → Reuser
reuser w a pointer = record { node = a; wadding = w; pointer = pointer }

-- What is known of a node's children after some calls: how many they are, and that the old ones stay.
pub record Reused (a count : ℕ) (s s' : Forest) : Type 0 where
  pub linked : IsLinked s'
  pub fresh : s.fresh ≤ s'.fresh
  pub size : length (kids s' a) ≡ count
  pub old :
      (i : ℕ)
      → i < length (kids s a)
      → i < count
      → get_or (kids s' a) i null ≡ get_or (kids s a) i null

-- What `next` does: it gives the child at the pointer, which has as many children as were asked for.
pub record Nexted (w a pointer : ℕ) (s : Forest) (t : Forest × Reuser × ℕ) : Type 0 where
  pub counted : t.1 ≡ reuser w a (pointer + 1)
  pub reused : Reused a (max (length (kids s a)) (pointer + 1)) s t.0
  pub more : (b : ℕ) → b < s.fresh → length (kids s b) ≤ length (kids t.0 b)
  pub placed : t.2 ≡ get_or (kids t.0 a) pointer null
  pub padded : w ≤ length (kids t.0 t.2)

presize_nothing :
    (w kid : ℕ) (s : Forest)
    → (if w == 0 then s else presize w not_defined kid s) ≡ presize w not_defined kid s
unfolding presize presize_loop
presize_nothing zero kid s =
    let none_needed : 0 - num_children kid s ≡ 0 = omega arith in rw none_needed refl
presize_nothing (suc w) kid s =
    let some_more : (suc w == 0) ≡ false = ground arith in rw some_more refl

add_wad_nothing : (a : ℕ) (s : Forest) → add_wad 0 not_defined [] a s ≡ add_child [] a s
unfolding add_wad add_child presize presize_loop
add_wad_nothing a s =
    let s1 = (precreate [] a s).0 in
    let noob = (precreate [] a s).1 in
    let none_needed : 0 - num_children noob s1 ≡ 0 = omega arith in
    ap (λ n. (finish_creating_child noob a (presize_loop n not_defined noob s1), noob)) none_needed

next-there :
    (w a pointer : ℕ) (s : Forest)
    → pointer < length (kids s a)
    → pointer + 1 < u32_mod
    → let kid = get_or (kids s a) pointer null in
      next (reuser w a pointer) s ≡ (presize w not_defined kid s, reuser w a (pointer + 1), kid)
unfolding next has num_children Chain.quantity Chain.nth Chain.has
next-there w a pointer s h v =
    let test : ltb pointer (length (kids s a)) ≡ true = ground arith in
    let found : leb (length (kids s a)) pointer ≡ false = ground arith in
    let up : add_u32 pointer 1 ≡ pointer + 1 = omega arith in
    let kid = get_or (kids s a) pointer null in
    rw test
      (rw up (rw found (ap (λ s'. (s', reuser w a (pointer + 1), kid)) (presize_nothing w kid s))))

next-new :
    (w a pointer : ℕ) (s : Forest)
    → length (kids s a) ≤ pointer
    → pointer + 1 < u32_mod
    → next (reuser w a pointer) s
      ≡ (let (s', noob) = add_wad w not_defined [] a s in (s', reuser w a (pointer + 1), noob))
unfolding next has num_children Chain.quantity
next-new w a pointer s h v =
    let test : ltb pointer (length (kids s a)) ≡ false = ground arith in
    let up : add_u32 pointer 1 ≡ pointer + 1 = omega arith in
    elim (ℕ_discrete w 0) [
      | yes e ↦
          let none : (w == 0) ≡ true = ground arith in
          rw test (
            rw up (
              rw none (
                rw e (
                  ap (λ (t : Forest × ℕ). (t.0, reuser 0 a (pointer + 1), t.1))
                    (sym (add_wad_nothing a s))))))
      | no n ↦
          let some_more : (w == 0) ≡ false = ground arith in rw test (rw up (rw some_more refl))
    ]

there-Nexted :
    (w a pointer : ℕ) {s : Forest}
    → IsLinked s
    → pointer < length (kids s a)
    → (let kid = get_or (kids s a) pointer null in
        Nexted w a pointer s (presize w not_defined kid s, reuser w a (pointer + 1), kid))
unfolding presize num_children Chain.quantity
there-Nexted w a pointer {s} l h =
    let kid = get_or (kids s a) pointer null in
    let (after, before, up, place) = l.linked a pointer h in
    let x = presize_loop-Presized (w - length (kids s kid)) not_defined kid l before in
    let s' = presize_loop (w - length (kids s kid)) not_defined kid s in
    let same : kids s' a ≡ kids s a = x.others a (omega arith) (omega arith) in
    record {
      counted = refl;
      reused = record {
        linked = x.linked;
        fresh = x.fresh;
        size = ap length same ∙ omega arith;
        old = λ i m q. ap (λ xs. get_or xs i null) same;
      };
      more = λ b m. elim (ℕ_discrete b kid) [
        | yes e ↦
            subst (λ c. length (kids s c) ≤ length (kids s' c)) (sym e) (omega (arith, x.size))
        | no n ↦ omega (arith, ap length (x.others b m n))
      ];
      placed = sym (ap (λ xs. get_or xs pointer null) same);
      padded = omega (arith, x.size);
    }

new-Nexted :
    (w a pointer : ℕ) {s : Forest}
    → IsLinked s
    → a < s.fresh
    → length (kids s a) ≡ pointer
    → (let (s', noob) = add_wad w not_defined [] a s in
        Nexted w a pointer s (s', reuser w a (pointer + 1), noob))
new-Nexted w a pointer {s} l h e =
    let (x, given) = add_wad-Widened w not_defined [] a l h in
    let s' = (add_wad w not_defined [] a s).0 in
    let size = ap length x.items ∙ length-append (kids s a) (s.fresh ∷ []) in
    let last : get_or (kids s' a) pointer null ≡ s.fresh =
      ap (λ xs. get_or xs pointer null) x.items
      ∙ get_or-append (kids s a) s.fresh pointer null
      ∙ ground arith in
    record {
      counted = refl;
      reused = record {
        linked = x.linked;
        fresh = omega (arith, x.fresh);
        size = size ∙ omega arith;
        old = λ i m q.
            ap (λ xs. get_or xs i null) x.items ∙ get_or-append_old (kids s a) s.fresh i null m;
      };
      more = λ b m. elim (ℕ_discrete b a) [
        | yes same ↦
            subst (λ c. length (kids s c) ≤ length (kids s' c)) (sym same) (omega (arith, size))
        | no n ↦ omega (arith, ap length (x.others b m n))
      ];
      placed = given ∙ sym last;
      padded = omega (arith, x.size, ap (λ c. length (kids s' c)) given);
    }

pub next-Nexted :
    (w a pointer : ℕ) {s : Forest}
    → IsLinked s
    → a < s.fresh
    → pointer ≤ length (kids s a)
    → pointer + 1 < u32_mod
    → Nexted w a pointer s (next (reuser w a pointer) s)
next-Nexted w a pointer {s} l h p v = elim (dec_lt pointer (length (kids s a))) [
  | yes k ↦ rw (next-there w a pointer s k v) (there-Nexted w a pointer l k)
  | no k ↦ rw (next-new w a pointer s (omega arith) v) (new-Nexted w a pointer l h (omega arith))
]
