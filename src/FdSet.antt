-- ===== src/FdSet.antt =====
-- posix/fdset.h and fdset.cpp: a set of file descriptors, with the greatest of them for `select`.
--
-- A descriptor is an `int`, and the bits of `fd_set` are a function. `SelectorSet`, which calls `select`, is
-- not modelled.
pub mod Laws
use safely.Prelude.{ℕ, zero, suc, Bool, true, false, not, ◌&&◌, ltb, leb, ◌==◌, if◌then◌else◌}
use safely.Prelude.Int.{ℤ, pos, negsuc, pos_part, ltb_ℤ, equal}

-- `__FD_SETSIZE` of the GNU library
abbrev pub fd_setsize : ℕ
fd_setsize = 1024

pub record FdSet : Type 0 where
  pub maxfd : ℤ
  pub group : ℕ → Bool

-- `FD_SET` and `FD_CLR`
abbrev pub assign : ℕ → Bool → (ℕ → Bool) → ℕ → Bool
assign fd on group n = if n == fd then on else group n

abbrev pub valid_fd : ℤ → Bool
valid_fd fd = not (ltb_ℤ fd (pos 0)) && ltb_ℤ fd (pos fd_setsize)

abbrev not_trivial : FdSet → Bool
not_trivial s = not (ltb_ℤ s.maxfd (pos 0))

abbrev includes : ℤ → FdSet → Bool
includes fd s = valid_fd fd && s.group (pos_part fd)

abbrev pub clear : FdSet → FdSet
clear s = record { maxfd = negsuc 0; group = λ n. false }

-- the constructor, in memory that holds any bits
abbrev pub make : (ℕ → Bool) → FdSet
make group = clear (record { maxfd = pos 0; group = group })

unfoldable pub include : ℤ → FdSet → FdSet × Bool
include fd s =
    let s' = record s {
      maxfd = if ltb_ℤ s.maxfd fd then fd else s.maxfd;
      group = assign (pos_part fd) true s.group;
    } in
    if valid_fd fd then (s', not_trivial s') else (s, false)

-- the loop of `exclude`, from a greatest descriptor that is not negative; it ends below the next one that
-- is in the set
unfoldable pub go_down : ℕ → FdSet → ℤ
go_down zero s = negsuc 0
go_down (suc maxfd) s =
    let rest = go_down maxfd s in if includes (pos maxfd) s then pos maxfd else rest

unfoldable pub exclude : ℤ → FdSet → FdSet × Bool
unfolding go_down
exclude fd s =
    let s1 = record s { group = assign (pos_part fd) false s.group } in
    let s2 = record s1 {
      maxfd = if equal fd s1.maxfd then go_down (pos_part s1.maxfd) s1 else s1.maxfd;
    } in
    if valid_fd fd then (s2, not_trivial s2) else (s, false)
