-- ===== src/Storable/Notice.antt =====
-- system/storable/storable.cpp: whom `notify` and `recursiveNotify` tell.
use mathlib.Core.List
use safely.Prelude.{
  ℕ, zero, suc, ◌<◌, ◌≡◌, ◌≢◌, refl, sym, ap, ◌∙◌, arith, Bool, true, false, some, List, [], ◌∷◌,
  ◌++◌, append-nil, append_assoc, ltb, ◌==◌, if◌then◌else◌, ℕ_discrete, length, u32_mod,
}
use safely.Chain
use safely.Chain.{erase_at}
use safely.Storable.Wad.{remove, removed, has, num_children}
use safely.Storable.Removal.{removed_lem}
use safely.Chain.{null}
use safely.Storable.{
  Call, child_changed, value_changed, mirror_alter, Forest, called, called_remote, recursive_notify,
  notify,
}
use safely.Storable.Links.{kids, IsLinked}

-- The nodes above a node, from its parent to the root.
abbrev pub AreAbove : Forest → ℕ → List ℕ → Type 0
AreAbove s a [] = (s.node a).parent ≡ null
AreAbove s a (p ∷ ps) = ((s.node a).parent ≡ p) × (p ≢ null) × AreAbove s p ps

-- the memory with more calls
abbrev pub heard : List Call → Forest → Forest
heard calls s = record s { calls = s.calls ++ calls }

AreAbove-heard :
    (calls : List Call) (s : Forest) (a : ℕ) (ps : List ℕ)
    → AreAbove (heard calls s) a ps
    → AreAbove s a ps
AreAbove-heard calls s a [] h = h
AreAbove-heard calls s a (p ∷ ps) h = (h.0, h.1, AreAbove-heard calls s p ps h.2)

heard-IsLinked : (calls : List Call) {s : Forest} → IsLinked s → IsLinked (heard calls s)
heard-IsLinked calls l = record {
  started = l.started;
  unused = l.unused;
  below = l.below;
  linked = l.linked;
}

recursive_notify_lem :
    (fuel a : ℕ) {s : Forest}
    → IsLinked s
    → 0 < a
    → a < s.fresh
    → a < fuel
    → (ps : List ℕ) × AreAbove s a ps
      × (recursive_notify fuel a s ≡ some (heard (List.map child_changed ps) s))
unfolding recursive_notify
recursive_notify_lem zero a l p h f = absurd (omega arith)
recursive_notify_lem (suc fuel) a {s} l p h f =
    let up = (s.node a).parent in
    elim (ℕ_discrete up null) [
      | yes e ↦
          let test : (up == null) ≡ true = ground arith in
          ([], e, rw test (ap (λ cs. some (record s { calls = cs })) (sym (append-nil s.calls))))
      | no n ↦
          let test : (up == null) ≡ false = ground arith in
          let less = l.below a p h in
          let s' = heard (child_changed up ∷ []) s in
          let (ps, above, told) =
            recursive_notify_lem fuel up (heard-IsLinked (child_changed up ∷ []) l) (omega arith)
              (omega arith) (omega arith) in
          (
            up ∷ ps,
            (refl, n, AreAbove-heard (child_changed up ∷ []) s up ps above),
            rw test (
                told
                ∙ ap (λ cs. some (record s { calls = cs }))
                    (append_assoc s.calls (child_changed up ∷ []) (List.map child_changed ps))),
          )
    ]

first_calls :
    (remote : Bool) (a : ℕ) (s : Forest)
    → called (value_changed a) (if remote then called (mirror_alter a) s else s)
      ≡ heard ((if remote then mirror_alter a ∷ [] else []) ++ (value_changed a ∷ [])) s
first_calls true a s =
    ap (λ cs. record s { calls = cs })
      (append_assoc s.calls (mirror_alter a ∷ []) (value_changed a ∷ []))
first_calls false a s = refl

-- `notify` of a node ends, with more rounds than its address, and changes nothing; it tells the mirror, if
-- there is one, then who watches the node, then who watches the children of each node above it, up to the
-- root.
pub notify_lem :
    (fuel a : ℕ) {s : Forest}
    → IsLinked s
    → 0 < a
    → a < s.fresh
    → a < fuel
    → (ps : List ℕ) × AreAbove s a ps
      × (notify fuel a s
          ≡ some (
              heard
                ((if s.remote then mirror_alter a ∷ [] else [])
                  ++ (value_changed a ∷ List.map child_changed ps))
                s))
unfolding notify
notify_lem fuel a {s} l p h f =
    let first = if s.remote then mirror_alter a ∷ [] else [] in
    let start = first ++ (value_changed a ∷ []) in
    let (ps, above, told) = recursive_notify_lem fuel a (heard-IsLinked start l) p h f in
    let begun : called (value_changed a) (called_remote (mirror_alter a) s) ≡ heard start s =
      first_calls s.remote a s in
    (
      ps,
      AreAbove-heard start s a ps above,
      rw begun (
          told
          ∙ ap (λ cs. some (record s { calls = cs }))
              (append_assoc s.calls start (List.map child_changed ps)
                ∙ ap (λ cs. s.calls ++ cs)
                    (append_assoc first (value_changed a ∷ []) (List.map child_changed ps)))),
    )

pub told_removal :
    (fuel which a : ℕ) {s : Forest}
    → IsLinked s
    → 0 < a
    → a < s.fresh
    → a < fuel
    → which < length (kids s a)
    → length (kids s a) < u32_mod
    → (calls : List Call) × (remove fuel which a s ≡ some (heard calls (removed which a s), true))
unfolding remove has num_children Chain.quantity
told_removal fuel which a {s} l p h f k w =
    let test : ltb which (length (kids s a)) ≡ true = ground arith in
    let (l', items, fresh, parents) = removed_lem which a l k w in
    let (ps, above, told) = notify_lem fuel a l' p (omega arith) f in
    let calls =
      (if (removed which a s).remote then mirror_alter a ∷ [] else [])
      ++ (value_changed a ∷ List.map child_changed ps) in
    (calls, rw test (rw told refl))

-- `remove` of a child that there is takes it out of its place, renumbers the others, which keeps the
-- links, and ends, with more rounds than the node's address.
pub remove_lem :
    (fuel which a : ℕ) {s : Forest}
    → IsLinked s
    → 0 < a
    → a < s.fresh
    → a < fuel
    → which < length (kids s a)
    → length (kids s a) < u32_mod
    → (s' : Forest) × (remove fuel which a s ≡ some (s', true))
      × IsLinked s'
      × (kids s' a ≡ erase_at which (kids s a))
      × (s'.fresh ≡ s.fresh)
remove_lem fuel which a l p h f k w =
    let (l', items, fresh, parents) = removed_lem which a l k w in
    let (calls, gone) = told_removal fuel which a l p h f k w in
    (heard calls (removed which a _), gone, heard-IsLinked calls l', items, fresh)
