-- ===== src/CircularBuffer/Queue.antt =====
-- What a client of `CircularBuffer` is promised: a queue of at most `cap` items, oldest first.
use safely.Prelude.{ℕ, Bool, true, false, List, [], ◌∷◌, ◌++◌, ltb, if◌then◌else◌, length}

pub data Op {ℓ} (A : Type ℓ) : Type ℓ where
  push_item : A → Op A
  roll_item : A → Op A
  take_next : Op A
  flush_all : Op A

-- what a call gives back: `push` a flag, `next` an item
pub data Reply {ℓ} (A : Type ℓ) : Type ℓ where
  pushed : Bool → Reply A
  item : A → Reply A
  nothing : Reply A

module _ {ℓ} {A : Type ℓ} where
  -- the queue without its oldest item
  unfoldable pub behind : List A → List A
  behind [] = []
  behind (x ∷ q) = q

  module _ (cap : ℕ) where
    unfoldable pub step : Op A → List A → Reply A × List A
    unfolding behind
    step (push_item x) q =
        if ltb (length q) cap then (pushed true, q ++ (x ∷ [])) else (pushed false, q)
    step (roll_item x) q = (nothing, (if ltb (length q) cap then q else behind q) ++ (x ∷ []))
    step take_next [] = (nothing, [])
    step take_next (x ∷ q) = (item x, q)
    step flush_all q = (nothing, [])

    unfoldable pub run : List (Op A) → List A → List (Reply A)
    unfolding step
    run [] q = []
    run (op ∷ ops) q = let (r, q') = step op q in r ∷ run ops q'
