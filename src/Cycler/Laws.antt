-- ===== src/Cycler/Laws.antt =====
-- cppext/cycler.cpp: counting by one and jumping by an offset, and where the two part.
use safely.Prelude.{
  ℕ, zero, suc, ◌+◌, ◌-◌, ◌%◌, ◌^◌, ◌≤◌, ◌<◌, ◌≡◌, ◌↔◌, ◌∙◌, sym, ap, arith, true, some, leb,
  if◌then◌else◌, u32_mod, add_u32, sub_u32, dec_lt,
}
use native.Mathlib.Nat.{mod-lt, mod-eq_of_lt, add-mod_left}
use safely.Cycler.{Cycler, unwrap, increment, decrement, next, preset, plus, minus}

-- a cycle that is not empty and whose length an `int` can hold, and a value within it
pub record IsValid (c : Cycler) : Type 0 where
  pub positive : 0 < c.length
  pub small : c.length ≤ 2 ^ 31
  pub within : c.value < c.length

-- With such a length the loops of `unwrap` end at once, and what is left is the remainder.
unwrap-eq :
    (fuel length v : ℕ)
    → 0 < length
    → length ≤ 2 ^ 31
    → unwrap (suc fuel) length v ≡ some (v % length)
unfolding unwrap
unwrap-eq fuel length v h s = ground (arith, mod-lt v h)

-- a number of increments
pub increments : ℕ → Cycler → Cycler
increments zero c = c
increments (suc k) c = increments k (increment c)

increment-eq :
    (c : Cycler)
    → IsValid c
    → increment c
      ≡ record { length = c.length; value = if leb c.length (c.value + 1) then 0 else c.value + 1 }
unfolding increment
increment-eq c v = ground (arith, v)

increment-IsValid : (c : Cycler) → IsValid c → IsValid (increment c)
increment-IsValid c v = rw (increment-eq c v) (ground (arith, v))

turn :
    (length value k : ℕ)
    → value < length
    → ((if leb length (value + 1) then 0 else value + 1) + k) % length ≡ (value + suc k) % length
turn length value k h = elim (dec_lt (value + 1) length) [
  | yes p ↦
      let e : (if leb length (value + 1) then 0 else value + 1) + k ≡ value + suc k =
        ground arith in
      rw e
  | no p ↦
      let e : (if leb length (value + 1) then 0 else value + 1) + k ≡ k = ground arith in
      let r : value + suc k ≡ length + k = omega arith in rw (e, r) (sym (add-mod_left length k))
]

increments-eq :
    (k : ℕ) (c : Cycler)
    → IsValid c
    → increments k c ≡ record { length = c.length; value = (c.value + k) % c.length }
unfolding increments
increments-eq zero c v =
    let e : c.value + 0 ≡ c.value = omega arith in rw (e, mod-eq_of_lt v.within)
increments-eq (suc k) c v =
    increments-eq k (increment c) (increment-IsValid c v)
    ∙ rw (increment-eq c v)
        (ap (λ n. record { length = c.length; value = n }) (turn c.length c.value k v.within))

-- In a cycle whose length is positive and at most 2^31, incrementing a number of times adds it
-- modulo the length. Adding that number at once gives the value that this leads to, if the sum is an
-- `unsigned`; one round of fuel is enough for the loops of `unwrap`.
pub increments-plus :
    (k fuel : ℕ) (c : Cycler)
    → IsValid c
    → c.value + k < u32_mod
    → (increments k c ≡ record { length = c.length; value = (c.value + k) % c.length })
      × (plus (suc fuel) c k ≡ some (increments k c).value)
unfolding plus
increments-plus k fuel c v h =
    let sum : add_u32 c.value k ≡ c.value + k = omega arith in
    (
      increments-eq k c v,
      rw (sum, increments-eq k c v) (unwrap-eq fuel c.length (c.value + k) v.positive v.small),
    )

-- `decrement` undoes `increment` and the other way round, and `next` tells a new cycle exactly where
-- the value was the last one, which is where `preset` puts it.
pub decrement-increment :
    (c : Cycler)
    → IsValid c
    → (decrement (increment c) ≡ c)
      × (increment (decrement c) ≡ c)
      × (((next c).0 ≡ true) ↔ (c.value + 1 ≡ c.length))
      × ((next (preset c)).0 ≡ true)
unfolding increment decrement next preset
decrement-increment c v = ground (arith, v)

-- In a cycle whose length is positive and at most 2^31, subtracting an offset at once gives the
-- value less the offset, while this stays in the present cycle. Past its start it gives the
-- remainder by the length of the difference modulo 2^32.
pub minus_lem :
    (n fuel : ℕ) (c : Cycler)
    → IsValid c
    → n < u32_mod
    → minus (suc fuel) c n
      ≡ some (if leb n c.value then c.value - n else (u32_mod + c.value - n) % c.length)
unfolding minus
minus_lem n fuel c v h =
    unwrap-eq fuel c.length (sub_u32 c.value n) v.positive v.small
    ∙ ap some (elim (dec_lt c.value n) [
      | yes p ↦
          let e : sub_u32 c.value n ≡ u32_mod + c.value - n = omega arith in rw e (ground arith)
      | no p ↦
          let e : sub_u32 c.value n ≡ c.value - n = omega arith in
          let inside : c.value - n < c.length = omega (arith, v) in
          rw e (mod-eq_of_lt inside ∙ ground arith)
    ])
