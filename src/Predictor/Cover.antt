-- ===== src/Predictor/Cover.antt =====
-- The size that src/prediction.hpp predicts is at least the size asked for.
use abcmalloc.Base.{
  ℕ, ◌+◌, ◌*◌, ◌/◌, ◌%◌, ◌^◌, ◌<◌, ◌≤◌, ◌≡◌, refl, not, ◌||◌, ◌==◌, ltb, arith, add64, sub64,
  if_cases, lt-of-ltb,
}
use native.Mathlib.Nat.{lt-div-mul-add, div-le_self, one-le-pow}
use abcmalloc.Predictor.{Predictor, Classes, of_class, align_to_page, predict_size}

-- A whole number of pages, of at least `n` bytes.
abbrev pub Covers : (page n r : ℕ) → Type 0
Covers page n r = (n ≤ r) × ((q : ℕ) × (r ≡ q * 2 ^ page))

align_to_page-Covers :
    (page n m : ℕ) → n ≤ m → m + 2 ^ page < 2 ^ 64 → Covers page n (align_to_page page m)
unfolding align_to_page
align_to_page-Covers page n m le p =
    let some_page = one-le-pow page 2 (omega arith) in
    let shifted = sub64 (add64 m (2 ^ page)) 1 in
    (
      omega (arith, lt-div-mul-add {a = shifted} {b = 2 ^ page} some_page),
      (shifted / 2 ^ page, refl),
    )

-- Where neither the size asked for nor the running sum wraps when a page is added, the predicted
-- size is a whole number of pages and at least the size asked for, whatever sizes were cached.
pub predict_size-Covers :
    (page : ℕ) (c : Classes) (p : Predictor) (n : ℕ)
    → n + 2 ^ page < 2 ^ 64
    → p.running_sum + 2 ^ page < 2 ^ 64
    → Covers page n (predict_size page c p n)
unfolding predict_size
predict_size-Covers page c p n small sum =
    if_cases (λ (r : ℕ). Covers page n r) (p.running_div == 0)
      (λ _. align_to_page-Covers page n n (omega arith) small)
      (λ _.
        if_cases (λ (r : ℕ). Covers page n r)
          (mean == 0 || ltb (mean * 3 % 2 ^ 64) n || not (of_class c n == of_class c mean))
          (λ _. align_to_page-Covers page n n (omega arith) small)
          (λ _.
            if_cases (λ (m : ℕ). Covers page n (align_to_page page m)) (ltb n mean)
              (λ e.
                align_to_page-Covers page n mean (omega (arith, lt-of-ltb n mean e))
                  (omega (arith, mean_le)))
              (λ _. align_to_page-Covers page n n (omega arith) small)))
  where
    mean : ℕ
    mean = p.running_sum / p.running_div

    mean_le : mean ≤ p.running_sum
    mean_le = div-le_self p.running_sum p.running_div
