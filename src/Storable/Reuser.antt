-- ===== src/Storable/Reuser.antt =====
-- system/storable/storable.cpp: `StoredListReuser`, which goes through the children of a node, makes those
-- that are missing and removes what is left over.
pub mod OneNext
pub mod Nexts
pub mod Laws
use mathlib.Core.Option
use safely.Prelude.{
  ℕ, zero, suc, ◌+◌, ◌-◌, Bool, true, false, not, Option, none, some, List, [], ltb, ◌==◌,
  if◌then◌else◌, add_u32,
}
use safely.Chain
use safely.Storable.{Kind, not_defined, Forest}
use safely.Storable.Wad.{wad_of, num_children, has, add_child, add_wad, presize, remove}

pub record Reuser : Type 0 where
  pub node : ℕ
  pub wadding : ℕ
  pub pointer : ℕ

unfoldable pub make : ℕ → ℕ → Reuser
make node wadding = record { node = node; wadding = wadding; pointer = 0 }

-- `next`, with the child that it gives
unfoldable pub next : Reuser → Forest → Forest × Reuser × ℕ
unfolding has Chain.nth presize add_wad add_child
next r s =
    let r' = record r { pointer = add_u32 r.pointer 1 } in
    let kid = Chain.nth r.pointer (wad_of r.node s) in
    let (wad_made, wad_noob) = add_wad r.wadding not_defined [] r.node s in
    let (made, noob) = add_child [] r.node s in
    if has r.pointer r.node s
    then (if r.wadding == 0 then s else presize r.wadding not_defined kid s, r', kid)
    else if r.wadding == 0
    then (made, r', noob)
    else (wad_made, r', wad_noob)

-- the loop of `done`, from the last child down
unfoldable pub kill : ℕ → ℕ → ℕ → ℕ → Forest → Option Forest
unfolding remove
kill fuel pointer zero node s = some s
kill fuel pointer (suc killer) node s =
    if ltb pointer (suc killer)
    then Option.bind (remove fuel killer node s)
        (λ (r : Forest × Bool). kill fuel pointer killer node r.0)
    else some s

-- `done`, with the count that it returns
unfoldable pub done : ℕ → Reuser → Forest → Option (Forest × ℕ)
unfolding kill num_children
done fuel r s =
    Option.map (λ s'. (s', r.pointer)) (kill fuel r.pointer (num_children r.node s) r.node s)
