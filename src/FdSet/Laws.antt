-- ===== src/FdSet/Laws.antt =====
-- posix/fdset.cpp: the greatest descriptor, through any calls.
use safely.Prelude.{
  ℕ, zero, suc, ◌≤◌, ◌<◌, ◌≡◌, ◌≢◌, ◌⊎◌, inl, inr, refl, arith, Bool, true, false, not, ◌&&◌, ◌||◌,
  ◌==◌, if◌then◌else◌, List, [], ◌∷◌, Bool-cases, ℕ_discrete, dec_lt, ◌∙◌, ap,
}
use safely.Prelude.Int.{ℤ, pos, negsuc, pos_part, ltb_ℤ, equal, ◌≤ℤ◌}
use safely.FdSet.{FdSet, fd_setsize, assign, valid_fd, clear, make, include, go_down, exclude}

-- The greatest descriptor is that of a set whose bits are all below the size of `fd_set`.
record IsGreatest (s : FdSet) : Type 0 where
  above : (n : ℕ) → s.group n ≡ true → (pos n ≤ℤ s.maxfd) × (n < fd_setsize)
  reached : (s.maxfd ≡ negsuc 0) ⊎ ((n : ℕ) × (s.maxfd ≡ pos n) × (s.group n ≡ true))

not_both : {b : Bool} → b ≡ true → b ≡ false → ⊥
not_both e f = cc

clear-IsGreatest : (s : FdSet) → IsGreatest (clear s)
clear-IsGreatest s = record { above = λ n h. absurd (ground arith); reached = inl refl }

go_down_step :
    (m : ℕ) (s : FdSet)
    → m < fd_setsize
    → go_down (suc m) s ≡ (if s.group m then pos m else go_down m s)
unfolding go_down
go_down_step m s h = let small : valid_fd (pos m) ≡ true = ground arith in rw small refl

below_if : (n m : ℕ) (s : FdSet) → n < suc m → s.group n ≡ true → s.group m ≡ false → n < m
below_if n m s k g off = elim (ℕ_discrete n m) [
  | yes e ↦ absurd (not_both g (ap s.group e ∙ off))
  | no p ↦ omega arith
]

go_down_lem :
    (m : ℕ) (s : FdSet)
    → m ≤ fd_setsize
    → ((n : ℕ) → n < m → s.group n ≡ true → pos n ≤ℤ go_down m s)
      × ((go_down m s ≡ negsuc 0) ⊎ ((n : ℕ) × (go_down m s ≡ pos n) × (s.group n ≡ true)))
unfolding go_down
go_down_lem zero s h = (λ n k. absurd (omega arith), inl refl)
go_down_lem (suc m) s h =
    let (above, reached) = go_down_lem m s (omega arith) in
    let step = go_down_step m s (omega arith) in
    elim (Bool-cases (s.group m)) [
      | inl on ↦
          let e : go_down (suc m) s ≡ pos m = step ∙ rw on refl in
          rw e ((λ n k g. omega arith), inr (m, refl, on))
      | inr off ↦
          let e : go_down (suc m) s ≡ go_down m s = step ∙ rw off refl in
          rw e ((λ n k g. above n (below_if n m s k g off) g), reached)
    ]

include-IsGreatest : (fd : ℤ) (s : FdSet) → IsGreatest s → IsGreatest (include fd s).0
unfolding include
include-IsGreatest (negsuc k) s g =
    let test : valid_fd (negsuc k) ≡ false = ground arith in rw test g
include-IsGreatest (pos k) s g = elim (dec_lt k fd_setsize) [
  | no h ↦ let test : valid_fd (pos k) ≡ false = ground arith in rw test g
  | yes h ↦
      let test : valid_fd (pos k) ≡ true = ground arith in
      rw test (record {
        above = λ n on. elim (ℕ_discrete n k) [
          | yes e ↦ (ground arith, omega arith)
          | no p ↦
              let was : s.group n ≡ true = ground arith in
              let (low, small) = g.above n was in (ground (arith, low), small)
        ];
        reached = elim (Bool-cases (ltb_ℤ s.maxfd (pos k))) [
          | inl up ↦ rw up (inr (k, refl, ground arith))
          | inr stay ↦ rw stay (elim g.reached [
            | inl e ↦
                let up : ltb_ℤ s.maxfd (pos k) ≡ true = rw e (ground arith) in
                absurd (not_both up stay)
            | inr (n, e, on) ↦ inr (n, e, ground arith)
          ])
        ];
      })
]

equal-pos : (k : ℕ) (m : ℤ) → equal (pos k) m ≡ true → m ≡ pos k
equal-pos k (pos n) h = ground arith
equal-pos k (negsuc n) h = absurd (ground arith)

equal-same : (k n : ℕ) (m : ℤ) → m ≡ pos n → equal (pos k) m ≡ false → n ≢ k
equal-same k n m e h = λ same. not_both (rw e (ground arith)) h

exclude-IsGreatest : (fd : ℤ) (s : FdSet) → IsGreatest s → IsGreatest (exclude fd s).0
unfolding exclude
exclude-IsGreatest (negsuc k) s g =
    let test : valid_fd (negsuc k) ≡ false = ground arith in rw test g
exclude-IsGreatest (pos k) s g = elim (dec_lt k fd_setsize) [
  | no h ↦ let test : valid_fd (pos k) ≡ false = ground arith in rw test g
  | yes h ↦
      let test : valid_fd (pos k) ≡ true = ground arith in
      let s1 = record s { group = assign k false s.group } in
      rw test (elim (Bool-cases (equal (pos k) s.maxfd)) [
        | inl top ↦
            let at : pos_part s.maxfd ≡ k = ap pos_part (equal-pos k s.maxfd top) in
            let (above, reached) = go_down_lem (pos_part s.maxfd) s1 (omega arith) in
            rw top (record {
              above = λ n on.
                  let was : (s.group n ≡ true) × (n ≢ k) = ground arith in
                  let (low, small) = g.above n was.0 in
                  (above n (ground (arith, low, equal-pos k s.maxfd top)) on, small);
              reached = reached;
            })
        | inr other ↦ rw other (record {
          above = λ n on. let was : s.group n ≡ true = ground arith in g.above n was;
          reached = elim g.reached [
            | inl e ↦ inl e
            | inr (n, e, on) ↦
                inr (n, e, let apart = equal-same k n s.maxfd e other in ground arith)
          ];
        })
      ])
]

pub data Op : Type 0 where
  add : ℤ → Op
  drop_out : ℤ → Op
  clear_all : Op

abbrev step : Op → FdSet → FdSet
step (add fd) s = (include fd s).0
step (drop_out fd) s = (exclude fd s).0
step clear_all s = clear s

unfoldable pub calls : List Op → FdSet → FdSet
calls [] s = s
calls (op ∷ ops) s = calls ops (step op s)

-- A set of numbers that is asked for the same: whether a number is in it afterwards.
abbrev touched : Op → ℕ → Bool → Bool
touched (add fd) n was = (valid_fd fd && (n == pos_part fd)) || was
touched (drop_out fd) n was = not (valid_fd fd && (n == pos_part fd)) && was
touched clear_all n was = false

unfoldable pub is_member : List Op → ℕ → Bool → Bool
is_member [] n was = was
is_member (op ∷ ops) n was = is_member ops n (touched op n was)

step-touched : (op : Op) (s : FdSet) (n : ℕ) → (step op s).group n ≡ touched op n (s.group n)
unfolding include exclude
step-touched (add fd) s n = ground arith
step-touched (drop_out fd) s n = ground arith
step-touched clear_all s n = refl

step-IsGreatest : (op : Op) (s : FdSet) → IsGreatest s → IsGreatest (step op s)
step-IsGreatest (add fd) s g = include-IsGreatest fd s g
step-IsGreatest (drop_out fd) s g = exclude-IsGreatest fd s g
step-IsGreatest clear_all s g = clear-IsGreatest s

calls-Kept :
    (ops : List Op) (s : FdSet)
    → IsGreatest s
    → IsGreatest (calls ops s) × ((n : ℕ) → (calls ops s).group n ≡ is_member ops n (s.group n))
unfolding calls is_member
calls-Kept [] s g = (g, λ n. refl)
calls-Kept (op ∷ ops) s g =
    let (rest, same) = calls-Kept ops (step op s) (step-IsGreatest op s g) in
    (rest, λ n. same n ∙ ap (is_member ops n) (step-touched op s n))

-- After any calls of `include`, `exclude` and `clear` on a new set, the descriptors in it are those that the
-- calls ask for, without the invalid ones, and `maxfd` is the greatest of them, or -1 where there is none.
pub calls-greatest :
    (memory : ℕ → Bool) (ops : List Op)
    → let s = calls ops (make memory) in
      ((n : ℕ) → s.group n ≡ is_member ops n false)
      × ((n : ℕ) → s.group n ≡ true → (pos n ≤ℤ s.maxfd) × (n < fd_setsize))
      × ((s.maxfd ≡ negsuc 0) ⊎ ((n : ℕ) × (s.maxfd ≡ pos n) × (s.group n ≡ true)))
calls-greatest memory ops =
    let (g, same) = calls-Kept ops (make memory) (clear-IsGreatest (make memory)) in
    (same, g.above, g.reached)
