-- ===== src/Storable/Wadding.antt =====
-- system/storable/storable.cpp: what `presize` makes of the links and of the other nodes.
use safely.Prelude.{
  ℕ, zero, suc, ◌+◌, ◌≤◌, ◌<◌, ◌≡◌, ◌≢◌, refl, ap, ◌∙◌, arith, [], ◌∷◌, length, length-append,
}
use safely.Storable.{Kind, Quality, defaulted, Node, Forest, update, set_type, set_quality}
use safely.Storable.Wad.{add_child, presize_loop}
use safely.Storable.Links.{
  kids, IsLinked, Agrees, Agrees-IsLinked, Grown-same, add_child-Grown, add_child-IsLinked,
}

typed-Agrees :
    (a : ℕ) (type : Kind) (quality : Quality) (s : Forest)
    → Agrees s (update s a (set_quality quality (set_type type (s.node a)).0).0)
unfolding set_quality set_type
typed-Agrees a type quality s = record {
  fresh = refl;
  items = λ b. ground arith;
  parent = λ b. ground arith;
  index = λ b. ground arith;
}

-- A node has a number of new children, which are behind all nodes that there were.
pub record Presized (s : Forest) (a rounds : ℕ) (s' : Forest) : Type 0 where
  pub linked : IsLinked s'
  pub fresh : s.fresh ≤ s'.fresh
  pub size : length (kids s' a) ≡ length (kids s a) + rounds
  pub others : (b : ℕ) → b < s.fresh → b ≢ a → kids s' b ≡ kids s b
  pub parent : (b : ℕ) → b < s.fresh → (s'.node b).parent ≡ (s.node b).parent

pub presize_loop-Presized :
    (rounds : ℕ) (type : Kind) (a : ℕ) {s : Forest}
    → IsLinked s
    → a < s.fresh
    → Presized s a rounds (presize_loop rounds type a s)
unfolding presize_loop
presize_loop-Presized zero type a l h = record {
  linked = l;
  fresh = omega arith;
  size = omega arith;
  others = λ b k n. refl;
  parent = λ b k. refl;
}
presize_loop-Presized (suc rounds) type a {s} l h =
    let s1 = (add_child [] a s).0 in
    let kid = (add_child [] a s).1 in
    let g = add_child-Grown [] a s l.started h in
    let t = typed-Agrees kid type defaulted s1 in
    let x =
      presize_loop-Presized rounds type a (Agrees-IsLinked t (add_child-IsLinked [] a l h))
        (omega (arith, g.fresh)) in
    record {
      linked = x.linked;
      fresh = omega (arith, x.fresh, g.fresh);
      size =
          x.size
          ∙ omega (
            arith,
            ap length (t.items a),
            ap length g.items,
            length-append (kids s a) (s.fresh ∷ []),
          );
      others = λ b k n.
          x.others b (omega (arith, g.fresh)) n
          ∙ t.items b
          ∙ ap (λ (m : Node). m.wad.items) (g.others b n (omega arith));
      parent = λ b k.
          x.parent b (omega (arith, g.fresh)) ∙ t.parent b ∙ (Grown-same g b (omega arith)).0;
    }
