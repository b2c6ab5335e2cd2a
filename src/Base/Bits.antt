-- ===== src/Base/Bits.antt =====
-- Single bits of the native numbers, and what `|`, `&`, `~`, the shifts and the compiler's bit
-- counts (`__builtin_ctz`, `__builtin_clz`) do to them.
mod Step
pub mod Count
pub mod Mask
use Step.{bit_or-lowest, bit_and-lowest}
use Prim.Native.Nat.{ℕ, zero, suc, ◌+◌, ◌-◌, ◌*◌, ◌/◌, ◌%◌, ◌^◌, ◌≤◌, ◌<◌}
use Prim.Native.Nat.{bit_and, bit_or, bit_and-bitwise}
use mathlib.Core.Path.{◌≡◌, refl, sym, ap, ◌∙◌}
use mathlib.Core.Bool.{Bool, true, false, not, ◌&&◌, ◌||◌}
use native.Mathlib.Nat.{pow-suc, div-div-eq-div-mul}
use native.Mathlib.Omega.{arith}
use abcmalloc.Base.Tests.{◌==◌}

-- Bit `i` of `a`.
unfoldable pub bit : ℕ → ℕ → Bool
bit a zero = a % 2 == 1
bit a (suc i) = bit (a / 2) i

pub bit-zero : (i : ℕ) → bit 0 i ≡ false
unfolding bit
bit-zero zero = refl
bit-zero (suc i) = bit-zero i

pub bit-or : (i a b : ℕ) → bit (bit_or a b) i ≡ (bit a i || bit b i)
unfolding bit
bit-or zero a b = ground (arith, bit_or-lowest a b)
bit-or (suc i) a b = ap (λ q. bit q i) (omega (arith, bit_or-lowest a b)) ∙ bit-or i (a / 2) (b / 2)

pub bit-and : (i a b : ℕ) → bit (bit_and a b) i ≡ (bit a i && bit b i)
unfolding bit
bit-and zero a b = ground (arith, bit_and-lowest a b)
bit-and (suc i) a b =
    ap (λ q. bit q i) (omega (arith, bit_and-lowest a b)) ∙ bit-and i (a / 2) (b / 2)

-- `1 << k` has bit `k` alone.
pub bit-pow : (k i : ℕ) → bit (2 ^ k) i ≡ (k == i)
unfolding bit
bit-pow zero zero = refl
bit-pow zero (suc i) = bit-zero i ∙ ground arith
bit-pow (suc k) zero = ground (arith, pow-suc 2 k)
bit-pow (suc k) (suc i) =
    ap (λ q. bit q i) (omega (arith, pow-suc 2 k)) ∙ bit-pow k i ∙ ground arith

-- `~a` in `w` bits.
pub bit-complement : (i w a : ℕ) → a < 2 ^ w → i < w → bit (2 ^ w - 1 - a) i ≡ not (bit a i)
unfolding bit
bit-complement i zero a p q = absurd (omega arith)
bit-complement zero (suc w) a p q = ground (arith, pow-suc 2 w)
bit-complement (suc i) (suc w) a p q =
    ap (λ q. bit q i) (omega (arith, pow-suc 2 w))
    ∙ bit-complement i w (a / 2) (omega (arith, pow-suc 2 w)) (omega arith)

-- A number below `2 ^ n` without a bit below `n` is zero.
pub eq_zero_of_bits : (n a : ℕ) → a < 2 ^ n → ((i : ℕ) → i < n → bit a i ≡ false) → a ≡ 0
unfolding bit
eq_zero_of_bits zero a p h = omega arith
eq_zero_of_bits (suc n) a p h = ground (
  arith,
  h 0 (omega arith),
  eq_zero_of_bits n (a / 2) (omega (arith, pow-suc 2 n)) (λ i q. h (suc i) (omega arith)),
)

-- `a >> k`.
pub bit-shr : (k i a : ℕ) → bit (a / 2 ^ k) i ≡ bit a (k + i)
unfolding bit
bit-shr zero i a =
    ap (λ n. bit n i) {y = a} (omega arith) ∙ ap (bit a) {x = i} {y = 0 + i} (omega arith)
bit-shr (suc k) i a =
    ap (λ n. bit n i)
      (ap (λ n. a / n) {y = 2 * 2 ^ k} (omega (arith, pow-suc 2 k))
        ∙ sym (div-div-eq-div-mul a 2 (2 ^ k)))
    ∙ bit-shr k i (a / 2)
    ∙ ap (bit a) {x = suc (k + i)} {y = suc k + i} (omega arith)

-- A bit at or above the width is not set.
pub bit-above : (w i a : ℕ) → a < 2 ^ w → w ≤ i → bit a i ≡ false
unfolding bit
bit-above zero i a p q = rw (zero_eq) (bit-zero i)
  where
    zero_eq : a ≡ 0
    zero_eq = omega arith
bit-above (suc w) zero a p q = absurd (omega arith)
bit-above (suc w) (suc i) a p q = bit-above w i (a / 2) (omega (arith, pow-suc 2 w)) (omega arith)

-- `|` of two `w`-bit numbers fits `w` bits, and so does `&` with one.
pub bit_or-lt : (w a b : ℕ) → a < 2 ^ w → b < 2 ^ w → bit_or a b < 2 ^ w
bit_or-lt zero a b p q = rw (a_zero, b_zero) (omega arith)
  where
    a_zero : a ≡ 0
    a_zero = omega arith

    b_zero : b ≡ 0
    b_zero = omega arith
bit_or-lt (suc w) a b p q = omega (
  arith,
  bit_or-lowest a b,
  pow-suc 2 w,
  bit_or-lt w (a / 2) (b / 2) (omega (arith, pow-suc 2 w)) (omega (arith, pow-suc 2 w)),
)

pub bit_and-lt : (w a b : ℕ) → a < 2 ^ w → bit_and a b < 2 ^ w
bit_and-lt zero a b p = rw (a_zero, bit_and-bitwise) (omega arith)
  where
    a_zero : a ≡ 0
    a_zero = omega arith
bit_and-lt (suc w) a b p = omega (
  arith,
  bit_and-lowest a b,
  pow-suc 2 w,
  bit_and-lt w (a / 2) (b / 2) (omega (arith, pow-suc 2 w)),
)
