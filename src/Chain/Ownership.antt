-- ===== src/Chain/Ownership.antt =====
-- system/chain.h: what becomes of the things that are given to a chain that owns them.
use safely.Prelude.{ℕ, ◌+◌, ◌≤◌, ◌≡◌, true, some, List, [], ◌∷◌, ◌==◌, if◌then◌else◌, length}
use safely.Chain.{Chain, null, append, insert, remove_nth, take_nth, remove, clipto, swap, clear}
use safely.Chain.Items.{count}

-- A chain, what was given to it, and what was taken out of it by `takeNth`.
pub record World : Type 0 where
  pub chain : Chain
  pub given : List ℕ
  pub taken : List ℕ

abbrev pub noted : ℕ → List ℕ → List ℕ
noted thing things = if thing == null then things else thing ∷ things

-- One call of an operation.
pub data Step (w : World) : World → Type 0 where
  appended :
      (thing : ℕ)
      → Step w (record w { chain = (append thing w.chain).0; given = noted thing w.given })
  inserted :
      (thing location : ℕ)
      → location ≤ length (w.chain.items)
      → Step w (record w { chain = (insert thing location w.chain).0; given = noted thing w.given })
  removed_nth : (n : ℕ) → Step w (record w { chain = (remove_nth n w.chain).0 })
  removed : (thing : ℕ) → Step w (record w { chain = (remove thing w.chain).0 })
  taken_nth :
      (n : ℕ)
      → Step w (record w {
        chain = (take_nth n w.chain).0;
        taken = noted (take_nth n w.chain).1 w.taken;
      })
  clipped : (mark : ℕ) {c : Chain} → clipto mark w.chain ≡ some c → Step w (record w { chain = c })
  swapped : (from to : ℕ) → Step w (record w { chain = (swap from to w.chain).0 })
  cleared : Step w (record w { chain = clear w.chain })

pub data Runs : World → World → Type 0 where
  still : {w : World} → Runs w w
  step_on : {w v u : World} → Step w v → Runs v u → Runs w u

-- Each thing is in the chain, deleted or taken out as often as it was given.
pub record IsBalanced (w : World) : Type 0 where
  pub owner : w.chain.is_owner ≡ true
  pub balance :
      (x : ℕ)
      → count x (w.chain.items) + count x (w.chain.deleted) + count x w.taken ≡ count x w.given

abbrev pub empty_world : World
empty_world = record {
  chain = record { is_owner = true; items = []; deleted = [] };
  given = [];
  taken = [];
}
