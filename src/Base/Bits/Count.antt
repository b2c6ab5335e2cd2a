-- ===== src/Base/Bits/Count.antt =====
-- The compiler's bit counts. `fuel` is the width of the word.
use Prim.Native.Nat.{ℕ, zero, suc, ◌/◌, ◌%◌, ◌^◌, ◌≤◌, ◌<◌}
use mathlib.Core.Path.{◌≡◌}
use mathlib.Core.Logic.{◌≢◌, inl, inr}
use mathlib.Core.Bool.{true, false}
use native.Mathlib.Nat.{pow-suc}
use native.Mathlib.Omega.{arith}
use abcmalloc.Base.Tests.{◌==◌, ltb, if◌then◌else◌, Bool-cases, lt-of-ltb}
use abcmalloc.Base.Bits.{bit}

-- `__builtin_ctz`: the position of the lowest bit that is set.
unfoldable pub ctz : ℕ → ℕ → ℕ
ctz zero a = 0
ctz (suc fuel) a = if a % 2 == 1 then 0 else suc (ctz fuel (a / 2))

-- `(width - 1) - __builtin_clz(v)`: the position of the highest bit that is set.
unfoldable pub floor_log2 : ℕ → ℕ → ℕ
floor_log2 zero v = 0
floor_log2 (suc fuel) v = if ltb v 2 then 0 else suc (floor_log2 fuel (v / 2))

pub ctz-lt : (w a : ℕ) → a ≢ 0 → a < 2 ^ w → ctz w a < w
unfolding ctz
ctz-lt zero a p q = absurd (p (omega arith))
ctz-lt (suc w) a p q = ground (arith, pow-suc 2 w, ctz-lt w (a / 2))

pub bit-ctz : (w a : ℕ) → a ≢ 0 → a < 2 ^ w → bit a (ctz w a) ≡ true
unfolding ctz bit
bit-ctz zero a p q = absurd (p (omega arith))
bit-ctz (suc w) a p q = ground (arith, pow-suc 2 w, bit-ctz w (a / 2))

-- Below the lowest bit there is none.
pub bit-below_ctz : (w a j : ℕ) → j < ctz w a → bit a j ≡ false
unfolding ctz bit
bit-below_ctz zero a j h = elim h [ ]
bit-below_ctz (suc w) a zero h = ground arith
bit-below_ctz (suc w) a (suc j) h = ground (arith, bit-below_ctz w (a / 2) j)

pub floor_log2-le : (w v : ℕ) → 0 < v → 2 ^ floor_log2 w v ≤ v
unfolding floor_log2
floor_log2-le zero v p = omega arith
floor_log2-le (suc w) v p =
    ground (arith, pow-suc 2 (floor_log2 w (v / 2)), floor_log2-le w (v / 2))

pub lt-floor_log2 : (w v : ℕ) → v < 2 ^ w → v < 2 ^ suc (floor_log2 w v)
unfolding floor_log2
lt-floor_log2 zero v p = omega arith
lt-floor_log2 (suc w) v p = elim (Bool-cases (ltb v 2)) [
  | inl small ↦ rw small (omega (arith, lt-of-ltb v 2 small))
  | inr large ↦ rw large (
      omega (
        arith,
        pow-suc 2 (suc (floor_log2 w (v / 2))),
        pow-suc 2 w,
        lt-floor_log2 w (v / 2) (omega (arith, pow-suc 2 w)),
      ))
]

pub floor_log2-lt : (w v : ℕ) → 0 < v → v < 2 ^ w → floor_log2 w v < w
unfolding floor_log2
floor_log2-lt zero v p q = absurd (omega arith)
floor_log2-lt (suc w) v p q = ground (arith, pow-suc 2 w, floor_log2-lt w (v / 2))
