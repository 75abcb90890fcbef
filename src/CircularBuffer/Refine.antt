-- ===== src/CircularBuffer/Refine.antt =====
-- A `CircularBuffer` behaves as the bounded queue of the items between its read and write positions.
use safely.Prelude.{
  ℕ, ◌<◌, ◌≡◌, refl, ap, arith, true, List, [], ◌∷◌, none, some, if◌then◌else◌, length, ◌∙◌, dec_lt,
  lt→ltb,
}
use safely.CircularBuffer.{CircularBuffer, flush, next, push, roll, has_next}
use safely.CircularBuffer.Queue
use safely.CircularBuffer.Queue.{
  Op, push_item, roll_item, take_next, flush_all, Reply, pushed, item, nothing, behind,
}
use safely.CircularBuffer.Holding.{
  Holds, push-full, push-Holds, next-Holds, flush-Holds, has_next-Holds, roll-Holds, ltb-false,
}

module _ {A : Type 0} (cap : ℕ) where
  -- One call on the code's side. A client asks `hasNext` before it calls `next`.
  pub step : Op A → CircularBuffer A → Reply A × CircularBuffer A
  step (push_item x) b = let (flag, b') = push x b in (pushed flag, b')
  step (roll_item x) b = (nothing, roll x b)
  step take_next b =
      let (out, b') = next b in
      if has_next b then (elim out [ some x ↦ item x | none ↦ nothing ], b') else (nothing, b)
  step flush_all b = (nothing, flush b)

  pub run : List (Op A) → CircularBuffer A → List (Reply A)
  unfolding step
  run [] b = []
  run (op ∷ ops) b = let (r, b') = step op b in r ∷ run ops b'

  -- Each call gives the reply of the bounded queue, and leaves the buffer holding the queue's result.
  step-Holds :
      (op : Op A) (b : CircularBuffer A) (q : List A)
      → Holds cap b q
      → 0 < cap
      → ((step op b).0 ≡ (Queue.step cap op q).0) × Holds cap (step op b).1 (Queue.step cap op q).1
  unfolding step Queue.step
  step-Holds (push_item x) b q h c = elim (dec_lt (length q) cap) [
    | yes p ↦ let (told, h') = push-Holds cap b q x h p in rw (lt→ltb _ _ p) (ap pushed told, h')
    | no p ↦
        rw (ltb-false (length q) cap p, push-full cap b q x h (omega (arith, h.fits))) (refl, h)
  ]
  step-Holds (roll_item x) b q h c = (refl, roll-Holds cap b q x h c)
  step-Holds take_next b [] h c = rw (has_next-Holds cap b [] h) (refl, h)
  step-Holds take_next b (x ∷ q) h c =
      let (got, h') = next-Holds cap b x q h in
      let more : has_next b ≡ true = has_next-Holds cap b (x ∷ q) h ∙ ground arith in
      rw (more, got) (refl, h')
  step-Holds flush_all b q h c = (refl, flush-Holds cap b q h)

  -- From a buffer that holds a queue and has at least one place, every sequence of calls of `push`,
  -- `roll`, `next` and `flush` is answered as the bounded queue of that many places answers it,
  -- where `next` is called only after `hasNext` has said yes, and where `push` says whether there was
  -- room for the item.
  pub run_refines :
      (ops : List (Op A)) (b : CircularBuffer A) (q : List A)
      → Holds cap b q
      → 0 < cap
      → run ops b ≡ Queue.run cap ops q
  unfolding run Queue.run
  run_refines [] b q h c = refl
  run_refines (op ∷ ops) b q h c =
      let (r, h') = step-Holds op b q h c in
      rw (r, run_refines ops (step op b).1 (Queue.step cap op q).1 h' c)
