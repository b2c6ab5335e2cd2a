-- ===== src/Base/Bits/Mask.antt =====
-- A bitmap of `w` bits: `m |= 1 << i`, and `m &= ~(1 << i)`.
use Prim.Native.Nat.{ℕ, suc, ◌-◌, ◌^◌, ◌<◌, bit_and, bit_or}
use mathlib.Core.Path.{◌≡◌, ◌∙◌, ap}
use mathlib.Core.Bool.{not, ◌&&◌, ◌||◌}
use native.Mathlib.Nat.{pow-suc, pow-le-pow_right, one-le-pow}
use native.Mathlib.Omega.{arith}
use abcmalloc.Base.Tests.{◌==◌}
use abcmalloc.Base.Bits.{bit, bit-or, bit-and, bit-pow, bit-complement, bit_or-lt, bit_and-lt}

-- `m | (1 << i)`
unfoldable pub set_bit : ℕ → ℕ → ℕ
set_bit m i = bit_or m (2 ^ i)

-- `m & ~(1 << i)`, in `w` bits
unfoldable pub clear_bit : ℕ → ℕ → ℕ → ℕ
clear_bit w m i = bit_and m (2 ^ w - 1 - 2 ^ i)

pub bit-set_bit : (m i j : ℕ) → bit (set_bit m i) j ≡ (bit m j || (i == j))
unfolding set_bit
bit-set_bit m i j = bit-or j m (2 ^ i) ∙ ap (λ b. bit m j || b) (bit-pow i j)

pub pow-lt : (w i : ℕ) → i < w → 2 ^ i < 2 ^ w
pow-lt w i h = omega (
  arith,
  pow-suc 2 i,
  one-le-pow i 2 (omega arith),
  pow-le-pow_right {n = 2} (omega arith) {i = suc i} {j = w} h,
)

pub bit-clear_bit :
    (w m i j : ℕ) → i < w → j < w → bit (clear_bit w m i) j ≡ (bit m j && not (i == j))
unfolding clear_bit
bit-clear_bit w m i j p q =
    bit-and j m (2 ^ w - 1 - 2 ^ i)
    ∙ ap (λ b. bit m j && b) (bit-complement j w (2 ^ i) (pow-lt w i p) q)
    ∙ ap (λ b. bit m j && not b) (bit-pow i j)

pub set_bit-lt : (w m i : ℕ) → m < 2 ^ w → i < w → set_bit m i < 2 ^ w
unfolding set_bit
set_bit-lt w m i h p = bit_or-lt w m (2 ^ i) h (pow-lt w i p)

pub clear_bit-lt : (w m i : ℕ) → m < 2 ^ w → clear_bit w m i < 2 ^ w
unfolding clear_bit
clear_bit-lt w m i h = bit_and-lt w m (2 ^ w - 1 - 2 ^ i) h
