-- ===== src/Extremer/Laws.antt =====
-- cppext/extremer.h: the value kept is the extreme of all that were shown, at the first or last place
-- where it stood.
use safely.Prelude.{
  ℕ, zero, suc, ◌+◌, ◌≤◌, ◌≡◌, refl, arith, Bool, true, false, List, [], ◌∷◌, if◌then◌else◌, some,
  get_elem?, ◌⊎◌, inl, inr, Bool-cases, sym, ◌∙◌,
}
use mathlib.Core.Bool.{true≢false}
use safely.Extremer.{Extremer, reset, refuses, inspect}

-- at least as good as, for the least and for the greatest
abbrev pub Beats : Bool → ℕ → ℕ → Type 0
Beats true a b = a ≤ b
Beats false a b = b ≤ a

Beats-refl : (n : Bool) (a : ℕ) → Beats n a a
Beats-refl true a = omega arith
Beats-refl false a = omega arith

Beats-trans : (n : Bool) (a b c : ℕ) → Beats n a b → Beats n b c → Beats n a c
Beats-trans true a b c h k = omega arith
Beats-trans false a b c h k = omega arith

Beats-antisym : (n : Bool) (a b : ℕ) → Beats n a b → Beats n b a → a ≡ b
Beats-antisym true a b h k = omega arith
Beats-antisym false a b h k = omega arith

-- A value that is turned down is no better, and one that is taken no worse; an equal one goes by the
-- second flag.
refused-Beats : (n p : Bool) (e v : ℕ) → refuses n p e v ≡ true → Beats n e v
unfolding refuses
refused-Beats true p e v h = ground arith
refused-Beats false p e v h = ground arith

taken-Beats : (n p : Bool) (e v : ℕ) → refuses n p e v ≡ false → Beats n v e
unfolding refuses
taken-Beats true p e v h = ground arith
taken-Beats false p e v h = ground arith

refused-equal : (n p : Bool) (e : ℕ) → refuses n p e e ≡ p
unfolding refuses
refused-equal n p e = ground arith

module _ (n p : Bool) where
  -- values shown in order, at locations that count up
  pub inspect_all : ℕ → List ℕ → Extremer → Extremer
  inspect_all loc [] x = x
  inspect_all loc (v ∷ vs) x = inspect_all (loc + 1) vs (inspect n p loc v x).1

  at : ℕ → ℕ → Extremer
  at loc v = record { simple = record { started = true; extremum = v }; location = loc }

  inspect-at :
      (loc v : ℕ) (x : Extremer)
      → x.simple.started ≡ true
      → (inspect n p loc v x).1 ≡ (if refuses n p x.simple.extremum v then x else at loc v)
  unfolding inspect at
  inspect-at loc v x s = ground arith

  -- what a list of values shown after another one leaves
  record Keeps (loc : ℕ) (vs : List ℕ) (x r : Extremer) : Type 0 where
    pub is_started : r.simple.started ≡ true
    pub beats_old : Beats n r.simple.extremum x.simple.extremum
    pub beats_all : (j v : ℕ) → get_elem? vs j ≡ some v → Beats n r.simple.extremum v
    pub stays_or_stands :
        (r ≡ x) ⊎ ((j : ℕ) × (r.location ≡ loc + j) × (get_elem? vs j ≡ some r.simple.extremum))
    pub earliest : p ≡ true → r.simple.extremum ≡ x.simple.extremum → r ≡ x
    pub first : p ≡ true → (j : ℕ) → get_elem? vs j ≡ some r.simple.extremum → r.location ≤ loc + j
    pub last : p ≡ false → (j : ℕ) → get_elem? vs j ≡ some r.simple.extremum → loc + j ≤ r.location

  Keeps-refused :
      (loc v : ℕ) (vs : List ℕ) (x r : Extremer)
      → x.location ≤ loc
      → refuses n p x.simple.extremum v ≡ true
      → Keeps (loc + 1) vs x r
      → Keeps loc (v ∷ vs) x r
  Keeps-refused loc v vs x r l refused ih =
      let worse = refused-Beats n p x.simple.extremum v refused in
      let same = λ (e : v ≡ r.simple.extremum).
        Beats-antisym n r.simple.extremum x.simple.extremum ih.beats_old (rw e at worse) in
      record {
        is_started = ih.is_started;
        beats_old = ih.beats_old;
        beats_all = elim [
          | zero ↦ λ w h.
              let e : v ≡ w = cc in
              rw e at (Beats-trans n r.simple.extremum x.simple.extremum v ih.beats_old worse)
          | suc j ↦ λ w h. ih.beats_all j w h
        ];
        stays_or_stands = elim ih.stays_or_stands [
          | inl e ↦ inl e
          | inr (j, l', g) ↦ inr (suc j, omega arith, g)
        ];
        earliest = ih.earliest;
        first = λ t. elim [
          | zero ↦ λ h. let e = ih.earliest t (same (cc)) in rw e (omega arith)
          | suc j ↦ λ h. omega (arith, ih.first t j h)
        ];
        last = λ f. elim [
          | zero ↦ λ h.
              let e : v ≡ r.simple.extremum = cc in
              let e' : x.simple.extremum ≡ v = sym (same e) ∙ sym e in
              let again : refuses n p v v ≡ true = rw e' at refused in
              absurd (true≢false (sym again ∙ refused-equal n p v ∙ f))
          | suc j ↦ λ h. omega (arith, ih.last f j h)
        ];
      }

  Keeps-taken :
      (loc v : ℕ) (vs : List ℕ) (x r : Extremer)
      → refuses n p x.simple.extremum v ≡ false
      → Keeps (loc + 1) vs (at loc v) r
      → Keeps loc (v ∷ vs) x r
  unfolding at
  Keeps-taken loc v vs x r taken ih =
      let better = taken-Beats n p x.simple.extremum v taken in
      record {
        is_started = ih.is_started;
        beats_old = Beats-trans n r.simple.extremum v x.simple.extremum ih.beats_old better;
        beats_all = elim [
          | zero ↦ λ w h. let e : v ≡ w = cc in rw e at ih.beats_old
          | suc j ↦ λ w h. ih.beats_all j w h
        ];
        stays_or_stands = elim ih.stays_or_stands [
          | inl e ↦ inr (0, rw e (omega arith), rw e)
          | inr (j, l', g) ↦ inr (suc j, omega arith, g)
        ];
        earliest = λ t e.
            let low : Beats n r.simple.extremum v = ih.beats_old in
            let e' : x.simple.extremum ≡ v =
              Beats-antisym n x.simple.extremum v (rw e at low) better in
            let again : refuses n p v v ≡ false = rw e' at taken in
            absurd (true≢false (sym t ∙ sym (refused-equal n p v) ∙ again));
        first = λ t. elim [
          | zero ↦ λ h.
              let here : v ≡ r.simple.extremum = cc in
              let e = ih.earliest t (sym here) in rw e (omega arith)
          | suc j ↦ λ h. omega (arith, ih.first t j h)
        ];
        last = λ f. elim [
          | zero ↦ λ h. elim ih.stays_or_stands [
            | inl e ↦ rw e (omega arith)
            | inr (j, l', g) ↦ omega arith
          ]
          | suc j ↦ λ h. omega (arith, ih.last f j h)
        ];
      }

  inspect_all-Keeps :
      (loc : ℕ) (vs : List ℕ) (x : Extremer)
      → x.simple.started ≡ true
      → x.location ≤ loc
      → Keeps loc vs x (inspect_all loc vs x)
  unfolding inspect_all
  inspect_all-Keeps loc [] x s l = record {
    is_started = s;
    beats_old = Beats-refl n _;
    beats_all = λ j v h. cc;
    stays_or_stands = inl refl;
    earliest = λ _ _. refl;
    first = λ t j h. cc;
    last = λ t j h. cc;
  }
  inspect_all-Keeps loc (v ∷ vs) x s l = elim (Bool-cases (refuses n p x.simple.extremum v)) [
    | inl refused ↦
        rw (inspect-at loc v x s, refused)
          (Keeps-refused loc v vs x _ l refused (inspect_all-Keeps (loc + 1) vs x s (omega arith)))
    | inr taken ↦
        rw (inspect-at loc v x s, taken)
          (Keeps-taken loc v vs x _ taken (
            inspect_all-Keeps (loc + 1) vs (at loc v) (unfold at in refl)
              (unfold at in omega arith)))
  ]

  inspect-fresh : (loc v : ℕ) → (inspect n p loc v reset).1 ≡ at loc v
  unfolding inspect at
  inspect-fresh loc v = refl

  inspect_all-fresh :
      (v : ℕ) (vs : List ℕ) → Keeps 0 (v ∷ vs) (at 0 v) (inspect_all 0 (v ∷ vs) reset)
  unfolding inspect_all
  inspect_all-fresh v vs =
      let ih = inspect_all-Keeps 1 vs (at 0 v) (unfold at in refl) (unfold at in omega arith) in
      let again : refuses n p v v ≡ p = refused-equal n p v in
      rw (inspect-fresh 0 v) (elim (Bool-cases p) [
        | inl e ↦
            Keeps-refused 0 v vs (at 0 v) _ (unfold at in omega arith) (unfold at in again ∙ e) ih
        | inr e ↦ Keeps-taken 0 v vs (at 0 v) _ (unfold at in again ∙ e) ih
      ])

  -- Shown a list that is not empty, with its positions as the locations, a fresh `Extremer` keeps a
  -- value that no other beats and a location where that value stands: the first such where its
  -- second flag is set, and the last where it is not.
  pub inspect_all-extreme :
      (v : ℕ) (vs : List ℕ)
      → let r = inspect_all 0 (v ∷ vs) reset in
        (get_elem? (v ∷ vs) r.location ≡ some r.simple.extremum)
        × ((j w : ℕ) → get_elem? (v ∷ vs) j ≡ some w → Beats n r.simple.extremum w)
        × (p ≡ true → (j : ℕ) → get_elem? (v ∷ vs) j ≡ some r.simple.extremum → r.location ≤ j)
        × (p ≡ false → (j : ℕ) → get_elem? (v ∷ vs) j ≡ some r.simple.extremum → j ≤ r.location)
  inspect_all-extreme v vs =
      let k = inspect_all-fresh v vs in
      (
        elim k.stays_or_stands [
          | inl e ↦ rw (e) (unfold at in refl)
          | inr (j, l, g) ↦
              let e : (inspect_all 0 (v ∷ vs) reset).location ≡ j = omega arith in rw e g
        ],
        k.beats_all,
        λ t j h. omega (arith, k.first t j h),
        λ f j h. omega (arith, k.last f j h),
      )
