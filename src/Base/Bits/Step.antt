-- ===== src/Base/Bits/Step.antt =====
-- The lowest digit of `|` and `&`, with no fuel.
use Prim.Native.Nat.{ℕ, zero, suc, ◌+◌, ◌-◌, ◌*◌, ◌/◌, ◌%◌, ◌≤◌, min, max}
use Prim.Native.Nat.{bit_and, bit_or, digits, bitwise, bit_and-bitwise, bit_or-bitwise}
use mathlib.Core.Path.{◌≡◌, refl, ap, ◌∙◌}
use native.Mathlib.Omega.{arith}

module _ (low : ℕ → ℕ) (f : ℕ → ℕ → ℕ) where
  -- One more round changes nothing where the fuel covers the left operand.
  one_more_round : (y x fuel : ℕ) → x ≤ fuel → digits low f (suc fuel) x y ≡ digits low f fuel x y
  one_more_round y zero zero h = refl
  one_more_round y zero (suc fuel) h = refl
  one_more_round y (suc x) zero h = absurd (omega arith)
  one_more_round y (suc x) (suc fuel) h =
      ap (λ q. q * 2 + f (suc x % 2) (y % 2))
        (one_more_round (y / 2) (suc x / 2) fuel (omega arith))

  -- Nor do many.
  spare_rounds : (spare x y : ℕ) → digits low f (x + spare) x y ≡ digits low f x x y
  spare_rounds zero x y = ap (λ n. digits low f n x y) {x = x + 0} {y = x} (omega arith)
  spare_rounds (suc spare) x y =
      ap (λ n. digits low f n x y) {x = x + suc spare} {y = suc (x + spare)} (omega arith)
      ∙ one_more_round y x (x + spare) (omega arith)
      ∙ spare_rounds spare x y

  lowest_digit :
      (x y : ℕ)
      → bitwise low f (suc x) y ≡ f (suc x % 2) (y % 2) + 2 * bitwise low f (suc x / 2) (y / 2)
  lowest_digit x y = omega (
    arith,
    ap (λ n. digits low f n (suc x / 2) (y / 2)) {x = suc x / 2 + (x - suc x / 2)} {y = x}
        (omega arith),
    spare_rounds (x - suc x / 2) (suc x / 2) (y / 2),
  )

pub bit_or-lowest : (x y : ℕ) → bit_or x y ≡ max (x % 2) (y % 2) + 2 * bit_or (x / 2) (y / 2)
bit_or-lowest (suc x) y = simp bit_or-bitwise (lowest_digit (λ n. n) max x y)
bit_or-lowest zero y = simp bit_or-bitwise (omega arith)

pub bit_and-lowest : (x y : ℕ) → bit_and x y ≡ min (x % 2) (y % 2) + 2 * bit_and (x / 2) (y / 2)
bit_and-lowest (suc x) y = simp bit_and-bitwise (lowest_digit (λ n. 0) min x y)
bit_and-lowest zero y = simp bit_and-bitwise (omega arith)
