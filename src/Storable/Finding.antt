-- ===== src/Storable/Finding.antt =====
-- system/storable/storable.cpp: `getChild` finds again what it made.
use safely.Prelude.{
  ℕ, ◌≤◌, ◌<◌, ◌≡◌, ◌≢◌, refl, sym, ap, ◌∙◌, arith, Bool, true, false, List, [], ◌∷◌, ◌==◌,
  if◌then◌else◌, ℕ_discrete,
}
use safely.Chain.{null}
use safely.Storable.{Node, Forest}
use safely.Storable.Wad.{existing_child, add_child}
use safely.Storable.Links.{IsLinked, add_child-Grown, add_child-IsLinked}
use safely.Storable.Path.{advance, get_child}
use safely.Storable.Names.{
  IsName, AllNames, advance-name, Extends, existing_child-Extends, found_kid, add_child-names,
  add_child-found,
}

get_child-step :
    (autocreate : Bool) (lname : List ℕ) (progeny : List (List ℕ)) (a : ℕ) (s : Forest)
    {s1 : Forest} {next : ℕ}
    → advance autocreate lname a s ≡ (s1, next)
    → next ≢ null
    → get_child autocreate (lname ∷ progeny) a s ≡ get_child autocreate progeny next s1
unfolding get_child
get_child-step autocreate lname progeny a s {s1} {next} e n =
    let test : (next == null) ≡ false = ground arith in
    ap
      (λ (r : Forest × ℕ).
        if r.1 == null then (r.0, null) else get_child autocreate progeny r.1 r.0)
      e
    ∙ rw test refl

advance-found :
    (autocreate : Bool) (lname : List ℕ) (a : ℕ) (s : Forest)
    → IsName lname
    → existing_child lname a s ≢ null
    → advance autocreate lname a s ≡ (s, existing_child lname a s)
advance-found autocreate lname a s h n =
    let test : (existing_child lname a s == null) ≡ false = ground arith in
    advance-name autocreate lname a s h ∙ rw test refl

advance-new :
    (lname : List ℕ) (a : ℕ) (s : Forest)
    → IsName lname
    → existing_child lname a s ≡ null
    → advance true lname a s ≡ ((add_child lname a s).0, s.fresh)
advance-new lname a s h e =
    let test : (existing_child lname a s == null) ≡ true = ground arith in
    let noob : add_child lname a s ≡ ((add_child lname a s).0, s.fresh) =
      unfold add_child in refl in
    advance-name true lname a s h ∙ rw test noob

-- what `getChild` makes of a node's memory, and that it finds the same node again
record Found (progeny : List (List ℕ)) (a : ℕ) (s : Forest) (r : Forest × ℕ) : Type 0 where
  linked : IsLinked r.0
  extends : Extends a s r.0
  after : a ≤ r.1
  again : get_child false progeny a r.0 ≡ r

through-Found :
    (lname : List ℕ) (progeny : List (List ℕ)) (a : ℕ) {s : Forest} {r : Forest × ℕ}
    → IsName lname
    → IsLinked s
    → existing_child lname a s ≢ null
    → 0 < a
    → Found progeny (existing_child lname a s) s r
    → Found (lname ∷ progeny) a s r
through-Found lname progeny a {s} {r} h l n p x =
    let (after, before) = found_kid lname a l n in
    let there = existing_child-Extends lname a l x.extends after in
    record {
      linked = x.linked;
      extends = record {
        fresh = x.extends.fresh;
        names = x.extends.names;
        items = λ b k. x.extends.items b (omega arith);
      };
      after = omega (arith, x.after);
      again =
          get_child-step false lname progeny a r.0
            (advance-found false lname a r.0 h (λ e. n (sym there ∙ e)) ∙ ap (λ k. (r.0, k)) there)
            n
          ∙ x.again;
    }

through_new :
    (lname : List ℕ) (progeny : List (List ℕ)) (a : ℕ) {s : Forest} {r : Forest × ℕ}
    → IsName lname
    → IsLinked s
    → existing_child lname a s ≡ null
    → a < s.fresh
    → Found progeny s.fresh (add_child lname a s).0 r
    → Found (lname ∷ progeny) a s r
through_new lname progeny a {s} {r} h l e k x =
    let g = add_child-Grown lname a s l.started k in
    let (names, named) = add_child-names lname a s k in
    let l1 = add_child-IsLinked lname a l k in
    let there : existing_child lname a r.0 ≡ s.fresh =
      existing_child-Extends lname a l1 x.extends k ∙ add_child-found lname a l k e in
    let real : s.fresh ≢ null = omega (arith, l.started) in
    record {
      linked = x.linked;
      extends = record {
        fresh = omega (arith, x.extends.fresh, g.fresh);
        names = λ b m. x.extends.names b (omega (arith, g.fresh)) ∙ names b (omega arith);
        items = λ b m.
            x.extends.items b (omega arith)
            ∙ ap (λ (n : Node). n.wad.items) (g.others b (omega arith) (omega arith));
      };
      after = omega (arith, x.after);
      again =
          get_child-step false lname progeny a r.0
            (advance-found false lname a r.0 h (λ z. real (sym there ∙ z))
              ∙ ap (λ kid. (r.0, kid)) there)
            real
          ∙ x.again;
    }

get_child-Found :
    (progeny : List (List ℕ)) (a : ℕ) {s : Forest}
    → AllNames progeny
    → IsLinked s
    → 0 < a
    → a < s.fresh
    → Found progeny a s (get_child true progeny a s)
get_child-Found [] a h l p k =
    unfold get_child in
    record {
      linked = l;
      extends = record { fresh = omega arith; names = λ b m. refl; items = λ b m. refl };
      after = omega arith;
      again = refl;
    }
get_child-Found (lname ∷ progeny) a {s} h l p k =
    elim (ℕ_discrete (existing_child lname a s) null) [
      | yes e ↦
          let g = add_child-Grown lname a s l.started k in
          let step =
            get_child-step true lname progeny a s (advance-new lname a s h.0 e)
              (omega (arith, l.started)) in
          rw step (
            through_new lname progeny a h.0 l e k (
              get_child-Found progeny s.fresh h.1 (add_child-IsLinked lname a l k) (omega arith)
                (omega (arith, g.fresh))))
      | no n ↦
          let (after, before) = found_kid lname a l n in
          let step = get_child-step true lname progeny a s (advance-found true lname a s h.0 n) n in
          rw step (
            through-Found lname progeny a h.0 l n p
              (get_child-Found progeny (existing_child lname a s) h.1 l (omega arith) before))
    ]

-- `getChild` along names, from a node in a linked tree and with leave to create, gives a node and keeps the
-- links; and along the same names, without that leave, it then finds the same node and changes nothing.
pub get_child_again :
    (progeny : List (List ℕ)) (a : ℕ) {s : Forest}
    → AllNames progeny
    → IsLinked s
    → 0 < a
    → a < s.fresh
    → let (s', found) = get_child true progeny a s in
      IsLinked s' × (found ≢ null) × (get_child false progeny a s' ≡ (s', found))
get_child_again progeny a {s} h l p k =
    let x = get_child-Found progeny a h l p k in (x.linked, omega (arith, x.after), x.again)
