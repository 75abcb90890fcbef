-- ===== src/Prelude/Ranges.antt =====
-- Tests over a range of numbers, which the checker evaluates at each of them.
use Prim.Native.Nat.{ℕ, zero, suc, ◌<◌}
use mathlib.Core.Path.{◌≡◌}
use mathlib.Core.Bool.{Bool, true, false}
use native.Mathlib.Omega.{arith}
use safely.Prelude.Tests.{if◌then◌else◌}

-- whether a test holds at all numbers that are less than a bound
unfoldable pub every : (ℕ → Bool) → ℕ → Bool
every test zero = true
every test (suc bound) = if test bound then every test bound else false

pub every-at : (test : ℕ → Bool) (bound k : ℕ) → k < bound → every test bound ≡ true → test k ≡ true
unfolding every
every-at test zero k less _ = absurd (omega arith)
every-at test (suc bound) k less holds = ground (arith, every-at test bound k)
