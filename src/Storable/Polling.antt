-- ===== src/Storable/Polling.antt =====
-- system/storable/storable.cpp: when `isModified` says that a node, or what hangs on it, was changed.
use mathlib.Core.Option
use safely.Prelude.{
  ℕ, zero, suc, ◌-◌, ◌≤◌, ◌<◌, ◌≡◌, refl, arith, Bool, true, false, ◌&&◌, ◌||◌, Option, some, List,
  [], ◌∷◌, ltb, if◌then◌else◌, length, get_or, Bool-cases, inl, inr, ◌⊎◌,
}
use safely.Chain.{null}
use safely.Storable.{rank, Node, Forest, is_wad}
use safely.Storable.Links.{kids, IsLinked}
use safely.Storable.Changes.{any_kid, is_modified}

-- A node that holds a value or children and was changed, or a wad with such a node among its children; but
-- no volatile node, nor anything that hangs on one.
pub data IsDirty (s : Forest) : ℕ → Type 0 where
  own :
      {a : ℕ}
      → (s.node a).is_volatile ≡ false
      → ltb 1 (rank ((s.node a).type)) ≡ true
      → (s.node a).modified ≡ true
      → IsDirty s a
  inner :
      {a : ℕ} (i : ℕ)
      → (s.node a).is_volatile ≡ false
      → is_wad (s.node a) ≡ true
      → i < length (kids s a)
      → IsDirty s (get_or (kids s a) i null)
      → IsDirty s a

-- An answer that there is, and that is true when a statement holds.
abbrev Tells {ℓ} : Option Bool → Type ℓ → Type ℓ
Tells answer P = (b : Bool) × (answer ≡ some b) × (b ≡ true → P) × (P → b ≡ true)

abbrev AnyKid : Forest → List ℕ → Type 0
AnyKid s xs = (i : ℕ) × (i < length xs) × IsDirty s (get_or xs i null)

or_if :
    (b b' : Bool) (o : Option Bool) → o ≡ some b' → (if b then some true else o) ≡ some (b || b')
or_if true b' o e = refl
or_if false b' o e = e

or_cases : (b b' : Bool) → (b || b') ≡ true → (b ≡ true) ⊎ (b' ≡ true)
or_cases true b' e = inl refl
or_cases false b' e = inr e

or_right : (b b' : Bool) → b' ≡ true → (b || b') ≡ true
or_right true b' e = refl
or_right false b' e = e

or_left : (b b' : Bool) → b ≡ true → (b || b') ≡ true
or_left true b' e = refl
or_left false b' e = cc

not_both : {b : Bool} → b ≡ true → b ≡ false → ⊥
not_both e f = cc

AnyKid-true :
    (s : Forest) (x : ℕ) (xs : List ℕ) (b b' : Bool)
    → (IsDirty s x → b ≡ true)
    → (AnyKid s xs → b' ≡ true)
    → AnyKid s (x ∷ xs)
    → (b || b') ≡ true
AnyKid-true s x xs b b' h k (zero, less, dirty) = or_left b b' (h dirty)
AnyKid-true s x xs b b' h k (suc i, less, dirty) = or_right b b' (k (i, omega arith, dirty))

any_kid_lem :
    (test : ℕ → Option Bool) (s : Forest) (xs : List ℕ)
    → ((i : ℕ) → i < length xs → Tells (test (get_or xs i null)) (IsDirty s (get_or xs i null)))
    → Tells (any_kid test xs) (AnyKid s xs)
unfolding any_kid Option.bind
any_kid_lem test s [] h =
    (false, refl, λ e. absurd (not_both e refl), λ k. absurd (omega (arith, k.1)))
any_kid_lem test s (x ∷ xs) h =
    let (b, e, sound, complete) = h 0 (omega arith) in
    let (b', e', sound', complete') = any_kid_lem test s xs (λ i k. h (suc i) (omega arith)) in
    (
      b || b',
      rw e (or_if b b' (any_kid test xs) e'),
      λ t. elim (or_cases b b' t) [
        | inl here ↦ (0, omega arith, sound here)
        | inr later ↦ let (i, less, dirty) = sound' later in (suc i, omega arith, dirty)
      ],
      AnyKid-true s x xs b b' complete complete',
    )

-- a wad's own mark, and its children's
IsDirty-wad :
    (s : Forest) (a : ℕ) (b : Bool)
    → (s.node a).is_volatile ≡ false
    → is_wad (s.node a) ≡ true
    → (AnyKid s (kids s a) → b ≡ true)
    → IsDirty s a
    → (b || (s.node a).modified) ≡ true
IsDirty-wad s a b v w h (own still typed modified) = or_right b ((s.node a).modified) modified
IsDirty-wad s a b v w h (inner i still wad less dirty) =
    or_left b ((s.node a).modified) (h (i, less, dirty))

IsDirty-scalar :
    (s : Forest) (a : ℕ)
    → is_wad (s.node a) ≡ false
    → IsDirty s a
    → (ltb 1 (rank ((s.node a).type)) && (s.node a).modified) ≡ true
IsDirty-scalar s a w (own still typed modified) = rw typed modified
IsDirty-scalar s a w (inner i still wad less dirty) = absurd (not_both wad w)

IsDirty-still : {s : Forest} {a : ℕ} → IsDirty s a → (s.node a).is_volatile ≡ false
IsDirty-still (own still typed modified) = still
IsDirty-still (inner i still wad less dirty) = still

wad_typed : (n : Node) → is_wad n ≡ true → ltb 1 (rank n.type) ≡ true
wad_typed n w = ground arith

both_true : (b b' : Bool) → (b && b') ≡ true → (b ≡ true) × (b' ≡ true)
both_true true b' e = (refl, e)
both_true false b' e = absurd (not_both e refl)

-- `isModified` of a node in a linked tree ends, with as many rounds as there are younger nodes and one
-- more, and says whether the node is dirty.
pub is_modified-IsDirty :
    (fuel a : ℕ) {s : Forest}
    → IsLinked s
    → a < s.fresh
    → s.fresh - a ≤ fuel
    → (b : Bool) × (is_modified fuel a s ≡ some b)
      × (b ≡ true → IsDirty s a)
      × (IsDirty s a → b ≡ true)
unfolding is_modified
is_modified-IsDirty zero a l h f = absurd (omega arith)
is_modified-IsDirty (suc fuel) a {s} l h f =
    let n = s.node a in
    let (inside, e, sound, complete) =
      any_kid_lem (λ kid. is_modified fuel kid s) s (kids s a)
        (λ i k.
          let (after, before, up, place) = l.linked a i k in
          is_modified-IsDirty fuel (get_or (kids s a) i null) l before (omega arith)) in
    elim (Bool-cases n.is_volatile) [
      | inl volatile ↦ (
        false,
        rw volatile refl,
        λ t. absurd (not_both t refl),
        λ d. absurd (not_both volatile (IsDirty-still d)),
      )
      | inr still ↦ elim (Bool-cases (is_wad n)) [
        | inl wad ↦ (
          inside || n.modified,
          rw still (rw wad (rw e refl)),
          λ t. elim (or_cases inside n.modified t) [
            | inl found ↦ let (i, less, dirty) = sound found in inner i still wad less dirty
            | inr mine ↦ own still (wad_typed n wad) mine
          ],
          IsDirty-wad s a inside still wad complete,
        )
        | inr scalar ↦ (
          ltb 1 (rank n.type) && n.modified,
          rw still (rw scalar refl),
          λ t.
              let (typed, mine) = both_true (ltb 1 (rank n.type)) n.modified t in
              own still typed mine,
          IsDirty-scalar s a scalar,
        )
      ]
    ]
