-- ===== src/Storable/Roots.antt =====
-- system/storable/storable.cpp: `getRoot`, which climbs one step at most, and `suicide`.
use safely.Prelude.{
  ℕ, zero, suc, ◌≡◌, ◌≢◌, refl, arith, true, false, none, some, ◌==◌, if◌then◌else◌, ℕ_discrete,
}
use safely.Chain.{null}
use safely.Storable.{Forest}
use safely.Storable.Path.{root_loop, get_root}

-- from a parent that has a parent the loop comes back to itself
root_loop_forever :
    (fuel this : ℕ) (s : Forest)
    → (s.node this).parent ≢ null
    → (s.node (s.node this).parent).parent ≢ null
    → root_loop fuel this ((s.node this).parent) s ≡ none
unfolding root_loop
root_loop_forever zero this s h k = refl
root_loop_forever (suc fuel) this s h k =
    let up : (((s.node this).parent) == null) ≡ false = ground arith in
    let more : ((s.node (s.node this).parent).parent == null) ≡ false = ground arith in
    rw up (rw more (root_loop_forever fuel this s h k))

-- `getRoot` of a node gives the node itself if it has no parent, its parent if that has none, and otherwise
-- never returns, whatever the fuel.
pub get_root_lem :
    (fuel this : ℕ) (s : Forest)
    → this ≢ null
    → let parent = (s.node this).parent in
      get_root (suc (suc fuel)) this s ≡ (
        if parent == null
        then some this
        else if (s.node parent).parent == null
        then some parent
        else none)
unfolding get_root root_loop
get_root_lem fuel this s h =
    let real : (this == null) ≡ false = ground arith in
    let parent = (s.node this).parent in
    elim (ℕ_discrete parent null) [
      | yes e ↦ let top : (parent == null) ≡ true = ground arith in rw real (rw top refl)
      | no n ↦
          let below : (parent == null) ≡ false = ground arith in
          elim (ℕ_discrete ((s.node parent).parent) null) [
            | yes e ↦
                let top : ((s.node parent).parent == null) ≡ true = ground arith in
                rw real (rw below (rw top refl))
            | no m ↦
                let more : ((s.node parent).parent == null) ≡ false = ground arith in
                rw real (rw below (rw more (root_loop_forever fuel this s n m)))
          ]
    ]
