-- ===== src/CircularBuffer/Holding.antt =====
-- A `CircularBuffer` holds a queue: what lies between its read and write positions, and what each call
-- makes of it.
use mathlib.Core.List.{map, map-append}
use safely.Prelude.{
  ℕ, zero, suc, ◌+◌, ◌-◌, ◌≤◌, ◌<◌, ◌≡◌, refl, ap, arith, true, false, not, List, [], ◌∷◌, ◌++◌,
  Option, some, ltb, leb, ◌==◌, if◌then◌else◌, length, get_elem?, set, u32_mod, length-set,
  get_elem?-set_self, get_elem?-set_ne, length-append, dec_lt, lt→ltb,
}
use safely.CircularBuffer.{CircularBuffer, flush, make, next, push, roll, unget, has_next}
use safely.CircularBuffer.Queue.{behind}

-- the position after one
abbrev bump : ℕ → ℕ → ℕ
bump cap p = if leb cap (p + 1) then 0 else p + 1

-- the position a number of steps on, at most once round
abbrev ahead : ℕ → ℕ → ℕ → ℕ
ahead cap p n = if ltb (p + n) cap then p + n else p + n - cap

pub ltb-false : (a b : ℕ) → ¬ (a < b) → ltb a b ≡ false
ltb-false a b h = ground arith

module _ {A : Type 0} (cap : ℕ) where
  abbrev window : List A → ℕ → ℕ → List (Option A)
  window buf p zero = []
  window buf p (suc n) = get_elem? buf p ∷ window buf (bump cap p) n

  length-window : (buf : List A) (p n : ℕ) → length (window buf p n) ≡ n
  length-window buf p zero = refl
  length-window buf p (suc n) = ap suc (length-window buf (bump cap p) n)

  -- Writing behind a window extends it.
  window-set :
      (buf : List A) (x : A) (p n w : ℕ)
      → cap ≤ length buf
      → p < cap
      → n < cap
      → w ≡ ahead cap p n
      → window (set buf w x) p (suc n) ≡ window buf p n ++ (some x ∷ [])
  window-set buf x p zero w c hp hn e =
      let at : w ≡ p = ground arith in rw at (rw (get_elem?-set_self buf p x (omega arith)))
  window-set buf x p (suc n) w c hp hn e =
      rw (get_elem?-set_ne buf {i = w} {j = p} x (ground arith)) (
        ap (◌∷◌ (get_elem? buf p))
          (window-set buf x (bump cap p) n w c (ground arith) (omega arith) (ground arith)))

  -- The buffer holds this queue: where the read position is, how far ahead of it the write position
  -- is, what the flags say, and which items lie between.
  pub record Holds (b : CircularBuffer A) (q : List A) : Type 0 where
    pub round : b.length ≡ cap
    pub small : cap < u32_mod
    pub storage : cap ≤ length b.buffer
    pub pointer_in : b.pointer < cap
    pub fits : length q ≤ cap
    pub write_at : b.writer ≡ ahead cap b.pointer (length q)
    pub full_flag : b.full ≡ (length q == cap)
    pub empty_flag : b.empty ≡ (length q == 0)
    pub items : window b.buffer b.pointer (length q) ≡ map some q

  length-snoc : (q : List A) (x : A) → length (q ++ (x ∷ [])) ≡ length q + 1
  length-snoc q x = omega (arith, length-append q (x ∷ []))

  -- A fresh buffer holds the empty queue.
  make-Holds :
      (allocation : List A)
      → 0 < cap
      → cap < u32_mod
      → cap ≤ length allocation
      → Holds (make allocation cap) []
  unfolding make
  make-Holds allocation h s c = record {
    round = refl;
    small = s;
    storage = c;
    pointer_in = h;
    fits = omega arith;
    write_at = ground arith;
    full_flag = ground arith;
    empty_flag = refl;
    items = refl;
  }

  pub push-full :
      (b : CircularBuffer A) (q : List A) (x : A)
      → Holds b q
      → length q ≡ cap
      → push x b ≡ (false, b)
  unfolding push
  push-full b q x h e = ground (arith, h)

  pub push-Holds :
      (b : CircularBuffer A) (q : List A) (x : A)
      → Holds b q
      → length q < cap
      → ((push x b).0 ≡ true) × Holds (push x b).1 (q ++ (x ∷ []))
  unfolding push
  push-Holds b q x h l = (
    ground (arith, h),
    record {
      round = ground (arith, h);
      small = h.small;
      storage = ground (arith, h, length-set b.buffer b.writer x);
      pointer_in = ground (arith, h);
      fits = ground (arith, h, length-snoc q x);
      write_at = ground (arith, h, length-snoc q x);
      full_flag = ground (arith, h, length-snoc q x);
      empty_flag = ground (arith, h, length-snoc q x);
      items = ground (
        arith,
        h,
        length-snoc q x,
        map-append some q (x ∷ []),
        window-set b.buffer x b.pointer (length q) b.writer,
      );
    },
  )

  pub next-Holds :
      (b : CircularBuffer A) (x : A) (q : List A)
      → Holds b (x ∷ q)
      → ((next b).0 ≡ some x) × Holds (next b).1 q
  unfolding next
  next-Holds b x q h = (
    ground (arith, h),
    record {
      round = ground (arith, h);
      small = h.small;
      storage = ground (arith, h);
      pointer_in = ground (arith, h);
      fits = ground (arith, h);
      write_at = ground (arith, h);
      full_flag = ground (arith, h);
      empty_flag = ground (arith, h);
      items = ground (arith, h);
    },
  )

  pub flush-Holds : (b : CircularBuffer A) (q : List A) → Holds b q → Holds (flush b) []
  unfolding flush
  flush-Holds b q h = record {
    round = h.round;
    small = h.small;
    storage = h.storage;
    pointer_in = ground (arith, h);
    fits = omega arith;
    write_at = ground (arith, h);
    full_flag = ground (arith, h);
    empty_flag = refl;
    items = refl;
  }

  pub has_next-Holds :
      (b : CircularBuffer A) (q : List A) → Holds b q → has_next b ≡ not (length q == 0)
  unfolding has_next
  has_next-Holds b q h = ap not h.empty_flag

  roll-room : (b : CircularBuffer A) (x : A) → b.full ≡ false → roll x b ≡ (push x b).1
  unfolding roll
  roll-room b x e = ground arith

  roll-full : (b : CircularBuffer A) (x : A) → b.full ≡ true → roll x b ≡ (push x (next b).1).1
  unfolding roll
  roll-full b x e = ground arith

  pub roll-Holds :
      (b : CircularBuffer A) (q : List A) (x : A)
      → Holds b q
      → 0 < cap
      → Holds (roll x b) ((if ltb (length q) cap then q else behind q) ++ (x ∷ []))
  unfolding behind
  roll-Holds b q x h c = elim (dec_lt (length q) cap) [
    | yes p ↦ rw (lt→ltb _ _ p, roll-room b x (ground (arith, h))) (push-Holds b q x h p).1
    | no p ↦
        rw (ltb-false (length q) cap p, roll-full b x (ground (arith, h)))
          (roll_full b q x h (omega arith))
  ]
    where
      roll_full :
          (b : CircularBuffer A) (q : List A) (x : A)
          → Holds b q
          → 0 < length q
          → Holds (push x (next b).1).1 (behind q ++ (x ∷ []))
      roll_full b [] x h l = absurd (omega arith)
      roll_full b (y ∷ q) x h l =
          (push-Holds (next b).1 q x (next-Holds b y q h).1 (omega (arith, h.fits))).1

  -- `unget` of a buffer that holds an item and has room for two more brings back the item before the
  -- read position as the oldest of the queue.
  unget-Holds :
      (b : CircularBuffer A) (q : List A) (x : A)
      → Holds b q
      → 0 < length q
      → length q + 1 < cap
      → get_elem? b.buffer (if b.pointer == 0 then cap - 1 else b.pointer - 1) ≡ some x
      → Holds (unget b) (x ∷ q)
  unfolding unget
  unget-Holds b q x h l r e = record {
    round = ground (arith, h);
    small = h.small;
    storage = ground (arith, h);
    pointer_in = ground (arith, h);
    fits = ground (arith, h);
    write_at = ground (arith, h);
    full_flag = ground (arith, h);
    empty_flag = ground (arith, h);
    items = ground (arith, h);
  }

  -- At an empty buffer of more than one place `unget` moves the read position but leaves the flag: no
  -- queue describes the result.
  unget_empty : (b : CircularBuffer A) (q : List A) → Holds b [] → 1 < cap → ¬ Holds (unget b) q
  unfolding unget
  unget_empty b q h c after = ground (arith, h, after)
