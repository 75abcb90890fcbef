-- ===== src/Twiddler/Laws.antt =====
-- cppext/twiddler.cpp: how many calls of `pwm` are true.
use safely.Prelude.{
  ℕ, zero, suc, ◌+◌, ◌-◌, ◌*◌, ◌/◌, ◌≤◌, ◌<◌, ◌≡◌, refl, sym, ap, ◌∙◌, arith, true, false,
  if◌then◌else◌, dec_lt, dec_le, ltb, int_max,
}
use safely.Prelude.Int.{pos, negsuc, ltb_ℤ, quotient, ◌+ℤ◌, ◌-ℤ◌, -ℤ_parts, int_laws}
use safely.Twiddler.{IntegerTwiddler, set_ratio, pwm}

-- a number of calls: what is left, and how many were true
unfoldable pub pwms : ℕ → IntegerTwiddler → IntegerTwiddler × ℕ
pwms zero t = (t, 0)
pwms (suc n) t =
    let (t', on) = pwm t in let (last, count) = pwms n t' in (last, if on then suc count else count)

-- a twiddler whose `twiddle` is a number above the least that it reaches
abbrev at : ℕ → ℕ → ℕ → IntegerTwiddler
at a b w = record { above = pos a; below = pos b; twiddle = pos w -ℤ pos b }

pwm_on : (a b w : ℕ) → b ≤ w → pwm (at a b w) ≡ (at a b (w - b), true)
unfolding pwm
pwm_on a b w h =
    let test : ltb_ℤ (pos w -ℤ pos b) (pos 0) ≡ false = ground (arith, -ℤ_parts (pos w) (pos b)) in
    let less : pos w -ℤ pos b -ℤ pos b ≡ pos (w - b) -ℤ pos b = omega int_laws in
    rw test (rw less refl)

pwm_off : (a b w : ℕ) → w < b → pwm (at a b w) ≡ (at a b (w + a), false)
unfolding pwm
pwm_off a b w h =
    let test : ltb_ℤ (pos w -ℤ pos b) (pos 0) ≡ true = ground (arith, -ℤ_parts (pos w) (pos b)) in
    let more : pos w -ℤ pos b +ℤ pos a ≡ pos (w + a) -ℤ pos b = omega int_laws in
    rw test (rw more refl)

pwms_lem :
    (n a b w : ℕ)
    → w < a + b
    → (w' : ℕ) × (trues : ℕ) × (falses : ℕ) × (pwms n (at a b w) ≡ (at a b w', trues))
      × (w' < a + b)
      × (trues + falses ≡ n)
      × (w' + b * trues ≡ w + a * falses)
unfolding pwms
pwms_lem zero a b w h = (w, 0, 0, refl, h, omega arith, omega arith)
pwms_lem (suc n) a b w h = elim (dec_le b w) [
  | yes k ↦
      let (w', trues, falses, ends, small, sum, moved) = pwms_lem n a b (w - b) (omega arith) in
      let more : b * suc trues ≡ b * trues + b = ground arith in
      (w', suc trues, falses, rw (pwm_on a b w k) (rw ends refl), small, omega arith, omega arith)
  | no k ↦
      let (w', trues, falses, ends, small, sum, moved) = pwms_lem n a b (w + a) (omega arith) in
      let more : a * suc falses ≡ a * falses + a = ground arith in
      (
        w',
        trues,
        suc falses,
        rw (pwm_off a b w (omega arith)) (rw ends refl),
        small,
        omega arith,
        omega arith,
      )
]

too_few :
    (b w w' trues d : ℕ)
    → w' + b * trues ≡ w + (trues + suc d) * (b + suc d)
    → trues + suc d + b ≤ w'
too_few b w w' trues d e = omega arith

too_many :
    (a w w' falses d : ℕ)
    → w' + (falses + suc d) * (a + suc d) ≡ w + a * falses
    → a + (falses + suc d) ≤ w
too_many a w w' falses d e = omega arith

period :
    (a b w w' trues falses : ℕ)
    → w < a + b
    → w' < a + b
    → trues + falses ≡ a + b
    → w' + b * trues ≡ w + a * falses
    → trues ≡ a
period a b w w' trues falses h k sum moved = elim (dec_lt trues a) [
  | yes few ↦
      let d = a - trues - 1 in
      let parts : a ≡ trues + suc d = omega arith in
      let rest : falses ≡ b + suc d = omega arith in
      let much =
        too_few b w w' trues d
          (moved ∙ ap (λ n. w + n * falses) parts ∙ ap (λ n. w + (trues + suc d) * n) rest) in
      absurd (omega arith)
  | no enough ↦ elim (dec_lt a trues) [
    | no n ↦ omega arith
    | yes many ↦
        let d = trues - a - 1 in
        let parts : b ≡ falses + suc d = omega arith in
        let rest : trues ≡ a + suc d = omega arith in
        let much = too_many a w w' falses d (
          ap (λ n. w' + (falses + suc d) * n) (sym rest)
          ∙ ap (λ n. w' + n * trues) (sym parts)
          ∙ moved) in
        absurd (omega arith)
  ]
]

same_again : (a b w w' : ℕ) → w' + b * a ≡ w + a * b → w' ≡ w
same_again a b w w' e = omega arith

pwms-at : (m a b w : ℕ) → w < a + b → (w' : ℕ) × (w' < a + b) × ((pwms m (at a b w)).0 ≡ at a b w')
pwms-at m a b w h =
    let (w', trues, falses, ends, small, sum, moved) = pwms_lem m a b w h in
    (w', small, ap (λ (r : IntegerTwiddler × ℕ). r.0) ends)

-- the middle of the way, as a place on it
centered :
    (numer denom : ℕ)
    → 0 < numer
    → 0 < denom
    → (w : ℕ) × (w < numer + denom)
      × (record {
        above = pos numer;
        below = pos denom;
        twiddle = quotient (pos numer -ℤ pos denom) 2;
      }
          ≡ at numer denom w)
centered numer denom h k = elim (dec_le denom numer) [
  | yes le ↦ (
    denom + (numer - denom) / 2,
    omega arith,
    let start : quotient (pos numer -ℤ pos denom) 2
            ≡ pos (denom + (numer - denom) / 2) -ℤ pos denom =
          let less : pos numer -ℤ pos denom ≡ pos (numer - denom) = omega int_laws in
          rw less (omega int_laws) in
        ap (λ n. record { above = pos numer; below = pos denom; twiddle = n }) start,
  )
  | no gt ↦ (
    denom - (denom - numer) / 2,
    omega arith,
    let start : quotient (pos numer -ℤ pos denom) 2
            ≡ pos (denom - (denom - numer) / 2) -ℤ pos denom =
          let less : pos numer -ℤ pos denom ≡ negsuc (denom - numer - 1) = omega int_laws in
          rw less (omega int_laws) in
        ap (λ n. record { above = pos numer; below = pos denom; twiddle = n }) start,
  )
]

-- `setRatio` with `center` starts in the middle of the way
set_ratio_start :
    (numer denom : ℕ) (t : IntegerTwiddler)
    → 0 < numer
    → 0 < denom
    → numer < int_max
    → denom < int_max
    → (w : ℕ) × (w < numer + denom) × (set_ratio numer denom true t ≡ at numer denom w)
unfolding set_ratio
set_ratio_start numer denom t h k s s' =
    let first : ltb numer int_max ≡ true = ground arith in
    let second : ltb denom int_max ≡ true = ground arith in
    rw first (rw second (centered numer denom h k))

-- After `setRatio` with `center`, to two parts that are not 0 and below 2^31, and any number of calls of
-- `pwm`, as many of the next calls as there are in both parts together are true as there are in the first
-- part, and then it is as before them.
pub pwms-set_ratio :
    (m numer denom : ℕ) (t : IntegerTwiddler)
    → 0 < numer
    → 0 < denom
    → numer < int_max
    → denom < int_max
    → let now = (pwms m (set_ratio numer denom true t)).0 in pwms (numer + denom) now ≡ (now, numer)
pwms-set_ratio m numer denom t h k s s' =
    let (w, low, start) = set_ratio_start numer denom t h k s s' in
    let (v, small, now) = pwms-at m numer denom w low in
    let (v', trues, falses, ends, small', sum, moved) =
      pwms_lem (numer + denom) numer denom v small in
    let count = period numer denom v v' trues falses small small' sum moved in
    let rest : falses ≡ denom = omega arith in
    let back : v' ≡ v =
      same_again numer denom v v'
        (ap (λ n. v' + denom * n) (sym count) ∙ moved ∙ ap (λ n. v + numer * n) rest) in
    rw start (rw now (ends ∙ rw back (rw count refl)))
