-- ===== src/NanoSeconds/Laws.antt =====
-- posix/nanoseconds.cpp: sums, differences and the division of times that are in order, which have from 0
-- to 999999999 nanoseconds.
use safely.Prelude.{
  ℕ, zero, suc, ◌+◌, ◌-◌, ◌*◌, ◌/◌, ◌%◌, ◌≤◌, ◌<◌, ◌≡◌, ◌≢◌, refl, sym, ap, ◌∙◌, arith, true, false,
  some, ltb, leb, ◌==◌, add_u32, u32_mod, dec_lt, dec_le,
}
use safely.Prelude.Int.{ℤ, pos, negsuc, ltb_ℤ, ◌+ℤ◌, ◌-ℤ◌, ◌*ℤ◌, int_laws}
use safely.NanoSeconds.{
  NanoSeconds, billion, one_meg, make, minus, plus, is_after, is_from, is_same, is_zero, modulate,
  modulated, set_millis, ms, signabs,
}

-- a time in order
abbrev time : ℤ → ℕ → NanoSeconds
time seconds nanos = make seconds (pos nanos)

plus_plain :
    (s s' : ℤ) (n n' : ℕ)
    → n + n' ≤ billion
    → plus (time s n) (time s' n') ≡ time (s +ℤ s') (n + n')
unfolding plus
plus_plain s s' n n' h =
    let sum : pos n +ℤ pos n' ≡ pos (n + n') = omega int_laws in
    let test : ltb_ℤ (pos billion) (pos (n + n')) ≡ false = ground arith in rw sum (rw test refl)

plus_carried :
    (s s' : ℤ) (n n' : ℕ)
    → billion < n + n'
    → plus (time s n) (time s' n') ≡ time (s +ℤ s' +ℤ pos 1) (n + n' - billion)
unfolding plus
plus_carried s s' n n' h =
    let sum : pos n +ℤ pos n' ≡ pos (n + n') = omega int_laws in
    let less : pos (n + n') -ℤ pos billion ≡ pos (n + n' - billion) = omega int_laws in
    let test : ltb_ℤ (pos billion) (pos (n + n')) ≡ true = ground arith in
    rw sum (rw test (rw less refl))

minus_plain :
    (s s' : ℤ) (n n' : ℕ) → n' ≤ n → minus (time s n) (time s' n') ≡ time (s -ℤ s') (n - n')
unfolding minus
minus_plain s s' n n' h =
    let less : pos n -ℤ pos n' ≡ pos (n - n') = omega int_laws in
    let test : ltb_ℤ (pos (n - n')) (pos 0) ≡ false = ground arith in rw less (rw test refl)

minus_borrowed :
    (s s' : ℤ) (n n' : ℕ)
    → n < n'
    → n' < billion
    → minus (time s n) (time s' n') ≡ time (s -ℤ s' -ℤ pos 1) (n + billion - n')
unfolding minus
minus_borrowed s s' n n' h k =
    let less : pos n -ℤ pos n' ≡ negsuc (n' - n - 1) = omega int_laws in
    let more : negsuc (n' - n - 1) +ℤ pos billion ≡ pos (n + billion - n') = omega int_laws in
    let test : ltb_ℤ (negsuc (n' - n - 1)) (pos 0) ≡ true = ground arith in
    rw less (rw test (rw more refl))

-- `+` and then `-` of the same time gives the time that it began with, where the nanoseconds of both are
-- below a billion; even where their sum is a billion and is not carried.
pub minus-plus :
    (s s' : ℤ) (n n' : ℕ)
    → n < billion
    → n' < billion
    → minus (plus (time s n) (time s' n')) (time s' n') ≡ time s n
minus-plus s s' n n' h h' = elim (dec_lt billion (n + n')) [
  | yes k ↦ rw (plus_carried s s' n n' k) (
      rw (minus_borrowed (s +ℤ s' +ℤ pos 1) s' (n + n' - billion) n' (omega arith) h') (
        let secs : s +ℤ s' +ℤ pos 1 -ℤ s' -ℤ pos 1 ≡ s = omega int_laws in
        let nanos : n + n' - billion + billion - n' ≡ n = omega arith in rw secs (rw nanos refl)))
  | no k ↦ rw (plus_plain s s' n n' (omega arith)) (
      rw (minus_plain (s +ℤ s') s' (n + n') n' (omega arith)) (
        let secs : s +ℤ s' -ℤ s' ≡ s = omega int_laws in
        let nanos : n + n' - n' ≡ n = omega arith in rw secs (rw nanos refl)))
]

-- The sum of two times in order is in order, except where their nanoseconds make a billion.
pub plus_carry :
    (s s' : ℤ) (n n' : ℕ)
    → n < billion
    → n' < billion
    → let sum = plus (time s n) (time s' n') in
      (n + n' ≢ billion → (m : ℕ) × (sum.tv_nsec ≡ pos m) × (m < billion))
      × (n + n' ≡ billion → sum.tv_nsec ≡ pos billion)
plus_carry s s' n n' h h' = elim (dec_lt billion (n + n')) [
  | yes k ↦
      rw (plus_carried s s' n n' k)
        (λ apart. (n + n' - billion, refl, omega arith), λ e. absurd (omega arith))
  | no k ↦
      rw (plus_plain s s' n n' (omega arith)) (λ apart. (n + n', refl, omega arith), λ e. ap pos e)
]

minus_nanos :
    (a b c d : ℕ)
    → b < billion
    → d < billion
    → c * billion + d ≤ a * billion + b
    → (e : ℕ) × (f : ℕ) × (minus (time (pos a) b) (time (pos c) d) ≡ time (pos e) f)
      × (f < billion)
      × (e * billion + f + (c * billion + d) ≡ a * billion + b)
minus_nanos a b c d h k le = elim (dec_le d b) [
  | yes l ↦
      let secs : pos a -ℤ pos c ≡ pos (a - c) = omega int_laws in
      (a - c, b - d, minus_plain (pos a) (pos c) b d l ∙ rw secs refl, omega arith, omega arith)
  | no l ↦
      let secs : pos a -ℤ pos c -ℤ pos 1 ≡ pos (a - c - 1) = omega int_laws in
      (
        a - c - 1,
        b + billion - d,
        minus_borrowed (pos a) (pos c) b d (omega arith) k ∙ rw secs refl,
        omega arith,
        omega arith,
      )
]

is_from_nanos :
    (a b c d : ℕ)
    → b < billion
    → d < billion
    → is_from (time (pos a) b) (time (pos c) d) ≡ leb (c * billion + d) (a * billion + b)
is_from_nanos a b c d h k = ground arith

wrapped : (cycles q : ℕ) → (add_u32 cycles 1 + q) % u32_mod ≡ (cycles + suc q) % u32_mod
wrapped cycles q = omega arith

one_more : (q i r : ℕ) {t t' : ℕ} → q * i + r ≡ t' → t' + i ≡ t → suc q * i + r ≡ t
one_more q i r e f = let more : suc q * i ≡ q * i + i = ground arith in omega arith

modulate_lem :
    (fuel cycles a b c d : ℕ)
    → b < billion
    → d < billion
    → 0 < c * billion + d
    → a * billion + b < fuel
    → cycles < u32_mod
    → (e : ℕ) × (f : ℕ) × (q : ℕ) × (modulate fuel (time (pos c) d) cycles (time (pos a) b)
        ≡ some (time (pos e) f, (cycles + q) % u32_mod))
      × (f < billion)
      × (e * billion + f < c * billion + d)
      × (q * (c * billion + d) + (e * billion + f) ≡ a * billion + b)
unfolding modulate
modulate_lem zero cycles a b c d h k p fl w = absurd (omega arith)
modulate_lem (suc fuel) cycles a b c d h k p fl w =
    elim (dec_le (c * billion + d) (a * billion + b)) [
      | yes l ↦
          let (a', b', less, small, sum) = minus_nanos a b c d h k l in
          let (e, f, q, rest, fine, below, total) =
            modulate_lem fuel (add_u32 cycles 1) a' b' c d small k p (omega arith) (omega arith) in
          let on : is_from (time (pos a) b) (time (pos c) d) ≡ true =
            is_from_nanos a b c d h k ∙ ground arith in
          (
            e,
            f,
            suc q,
            rw on (rw less (rw (sym (wrapped cycles q)) rest)),
            fine,
            below,
            one_more q (c * billion + d) (e * billion + f) total sum,
          )
      | no l ↦
          let off : is_from (time (pos a) b) (time (pos c) d) ≡ false =
            is_from_nanos a b c d h k ∙ ground arith in
          let none_more : (cycles + 0) % u32_mod ≡ cycles = omega arith in
          (a, b, 0, rw off (rw none_more refl), h, omega arith, omega arith)
    ]

-- `modulated` of a time from 0 on by an interval, both in order and the interval not 0, ends, with more
-- rounds than the time has nanoseconds. It divides: the cycles, which an `unsigned` counts, times the
-- interval and what is left, which is in order and less than the interval, make the time.
pub modulated_lem :
    (fuel a b c d : ℕ)
    → b < billion
    → d < billion
    → 0 < c * billion + d
    → a * billion + b < fuel
    → (e : ℕ) × (f : ℕ) × (q : ℕ) × (modulated fuel (time (pos c) d) (time (pos a) b)
        ≡ some (time (pos e) f, q % u32_mod))
      × (f < billion)
      × (e * billion + f < c * billion + d)
      × (q * (c * billion + d) + (e * billion + f) ≡ a * billion + b)
unfolding modulated
modulated_lem fuel a b c d h k p fl =
    let (e, f, q, ended, fine, below, total) = modulate_lem fuel 0 a b c d h k p fl (omega arith) in
    let real : is_zero (time (pos c) d) ≡ false = ground arith in
    let count : 0 + q ≡ q = omega arith in
    (
      e,
      f,
      q,
      rw real (ended ∙ ap (λ n. some (time (pos e) f, n % u32_mod)) count),
      fine,
      below,
      total,
    )

-- `>` of times from 0 on that are in order tells whether the one has more nanoseconds than the other, and
-- `>=` whether it has no fewer; `==` tells the rest.
is_after_nanos :
    (a b c d : ℕ)
    → b < billion
    → d < billion
    → (is_after (time (pos a) b) (time (pos c) d) ≡ ltb (c * billion + d) (a * billion + b))
      × (is_from (time (pos a) b) (time (pos c) d) ≡ leb (c * billion + d) (a * billion + b))
      × (is_same (time (pos a) b) (time (pos c) d) ≡ (a * billion + b == c * billion + d))
is_after_nanos a b c d h k = (ground arith, is_from_nanos a b c d h k, ground arith)

-- `ms` of what `setMillis` makes of a count of milliseconds is that count.
ms-set_millis : (n : ℕ) → n < u32_mod → ms (set_millis n) ≡ n
unfolding ms set_millis
ms-set_millis n h =
    let product : pos (n / 1000) *ℤ pos 1000 ≡ pos (n / 1000 * 1000) =
      unfold ◌*ℤ◌ in ground arith in
    let sum : pos (n % 1000 * one_meg) +ℤ pos 999999 ≡ pos (n % 1000 * one_meg + 999999) =
      omega int_laws in
    elim (dec_lt 0 n) [
      | yes p ↦
          let sign : signabs (make (pos (n / 1000)) (pos (n % 1000 * one_meg))) ≡ pos 1 =
            ground arith in
          rw sign (rw product (rw sum (ground arith)))
      | no z ↦
          let sign : signabs (make (pos (n / 1000)) (pos (n % 1000 * one_meg))) ≡ pos 0 =
            ground arith in
          rw sign (omega arith)
    ]
