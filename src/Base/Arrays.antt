-- ===== src/Base/Arrays.antt =====
-- Arrays as functions of the index. A write changes one cell. The length of an array is not part
-- of its value: that the code stays within it is stated where it is proved.
use Prim.Native.Nat.{ℕ, zero, suc, ◌+◌, ◌≤◌, ◌<◌}
use mathlib.Core.Path.{◌≡◌, refl, ap}
use mathlib.Core.Logic.{◌≢◌}
use mathlib.Core.List.{List, [], ◌∷◌, ◌++◌}
use native.Mathlib.Omega.{arith}
use abcmalloc.Base.Tests.{◌==◌, if◌then◌else◌, if_cases, eq-of-==, ne-of-==}

module _ {ℓ} {A : Type ℓ} where
  -- The array `f` after `f[i] = v`.
  abbrev pub update : (ℕ → A) → ℕ → A → ℕ → A
  update f i v j = if i == j then v else f j

  -- The first `n` cells, in order.
  abbrev pub first_cells : (ℕ → A) → ℕ → List A
  first_cells f zero = []
  first_cells f (suc n) = first_cells f n ++ (f n ∷ [])

  pub update_self : (f : ℕ → A) (i : ℕ) (v : A) → update f i v i ≡ v
  update_self f i v = ground arith

  pub update-ne : (f : ℕ → A) (i : ℕ) (v : A) (j : ℕ) → i ≢ j → update f i v j ≡ f j
  update-ne f i v j h = ground arith

  -- Two arrays that agree below `n` have the same first `n` cells.
  pub first_cells-congr :
      (f g : ℕ → A) (n : ℕ) → ((j : ℕ) → j < n → f j ≡ g j) → first_cells f n ≡ first_cells g n
  first_cells-congr f g zero h = refl
  first_cells-congr f g (suc n) h =
      λ i. first_cells-congr f g n (λ j p. h j (omega arith)) i ++ (h n (omega arith) i ∷ [])

  -- A write at or above `n` leaves the first `n` cells.
  pub first_cells-update :
      (f : ℕ → A) (i : ℕ) (v : A) (n : ℕ) → n ≤ i → first_cells (update f i v) n ≡ first_cells f n
  first_cells-update f i v n h =
      first_cells-congr (update f i v) f n (λ j p. update-ne f i v j (omega arith))

  pub first_cells-add_one :
      (f : ℕ → A) (n : ℕ) → first_cells f (n + 1) ≡ first_cells f n ++ (f n ∷ [])
  first_cells-add_one f n = ap (first_cells f) {x = n + 1} {y = suc n} (omega arith)

module _ {ℓ κ} {A : Type ℓ} where
  -- To prove `P` of a cell after a write is to prove it of what was written, and of the old cell.
  pub update_cases :
      (P : A → Type κ) (f : ℕ → A) (b : ℕ) (x : A) (i : ℕ)
      → (b ≡ i → P x)
      → (b ≢ i → P (f i))
      → P (update f b x i)
  update_cases P f b x i here there =
      if_cases P (b == i) (λ e. here (eq-of-== b i e)) (λ e. there (ne-of-== b i e))
