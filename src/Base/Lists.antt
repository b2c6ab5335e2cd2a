-- ===== src/Base/Lists.antt =====
-- Lists measured by native numbers.
use Prim.Native.Nat.{ℕ, suc, ◌+◌}
use mathlib.Core.Path.{◌≡◌, refl}
use mathlib.Core.List.{List, [], ◌∷◌, ◌++◌}
use mathlib.Core.Bool.{Bool}
use native.Mathlib.Omega.{arith}
use abcmalloc.Base.Tests.{if◌then◌else◌}

module _ {ℓ} {A : Type ℓ} where
  abbrev pub length : List A → ℕ
  length [] = 0
  length (x ∷ xs) = suc (length xs)

  pub length-append : (xs ys : List A) → length (xs ++ ys) ≡ length xs + length ys
  length-append [] ys = omega arith
  length-append (x ∷ xs) ys = omega (arith, length-append xs ys)

module _ {ℓ} {A : Type ℓ} where
  -- The elements that pass a test, in order.
  abbrev pub filter_by : (A → Bool) → List A → List A
  filter_by t [] = []
  filter_by t (x ∷ xs) = if t x then x ∷ filter_by t xs else filter_by t xs

  pub filter_by-append :
      (t : A → Bool) (xs ys : List A) → filter_by t (xs ++ ys) ≡ filter_by t xs ++ filter_by t ys
  filter_by-append t [] ys = refl
  filter_by-append t (x ∷ xs) ys = ground (arith, filter_by-append t xs ys)
