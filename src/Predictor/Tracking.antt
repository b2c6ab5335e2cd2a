-- ===== src/Predictor/Tracking.antt =====
-- The running sum and count of src/prediction.hpp are those of the cached sizes.
use abcmalloc.Base.{
  ℕ, zero, suc, ◌+◌, ◌%◌, ◌^◌, ◌<◌, ◌≤◌, ◌≡◌, refl, ◌==◌, if◌then◌else◌, update, arith, add64,
  sub64, update_self, update-ne, Bool-cases, inl, inr, ne-of-==, eq-of-==, subst, if_cases,
}
use abcmalloc.Predictor.{Predictor, max_cached, nonzero, push, new_predictor}

-- The sum of `f` over the first `n` cells.
abbrev pub sum_first : (f : ℕ → ℕ) → (n : ℕ) → ℕ
sum_first f zero = 0
sum_first f (suc n) = sum_first f n + f n

pub record IsTracking (p : Predictor) : Type 0 where
  pub sum : p.running_sum ≡ sum_first p.allocs max_cached % 2 ^ 64
  pub div : p.running_div ≡ sum_first (λ i. nonzero (p.allocs i)) max_cached
  pub in_ring : p.index < max_cached
  pub words : (i : ℕ) → i < max_cached → p.allocs i < 2 ^ 64

-- What a cell holds is part of the sum.
sum_first-cell : (f : ℕ → ℕ) (n i : ℕ) → i < n → f i ≤ sum_first f n
sum_first-cell f zero i p = absurd (omega arith)
sum_first-cell f (suc n) i p = elim (Bool-cases (n == i)) [
  | inl e ↦ subst (λ (j : ℕ). f j ≤ sum_first f n + f n) (eq-of-== n i e) (omega arith)
  | inr e ↦ omega (arith, sum_first-cell f n i (omega (arith, ne-of-== n i e)))
]

sum_first-above : (f : ℕ → ℕ) (n i v : ℕ) → n ≤ i → sum_first (update f i v) n ≡ sum_first f n
sum_first-above f zero i v p = refl
sum_first-above f (suc n) i v p =
    omega (arith, sum_first-above f n i v (omega arith), update-ne f i v n (omega arith))

-- A write takes the old value out of the sum and puts the new one in.
sum_first-update :
    (f : ℕ → ℕ) (n i v : ℕ) → i < n → sum_first (update f i v) n + f i ≡ sum_first f n + v
sum_first-update f zero i v p = absurd (omega arith)
sum_first-update f (suc n) i v p = elim (Bool-cases (n == i)) [
  | inl e ↦
      subst (λ (j : ℕ). sum_first (update f j v) (suc n) + f j ≡ sum_first f (suc n) + v)
        (eq-of-== n i e) (omega (arith, sum_first-above f n n v (omega arith), update_self f n v))
  | inr e ↦ omega (
    arith,
    sum_first-update f n i v (omega (arith, ne-of-== n i e)),
    update-ne f i v n (omega (arith, ne-of-== n i e)),
  )
]

sum_first-congr : (f g : ℕ → ℕ) (n : ℕ) → ((i : ℕ) → f i ≡ g i) → sum_first f n ≡ sum_first g n
sum_first-congr f g zero h = refl
sum_first-congr f g (suc n) h = omega (arith, sum_first-congr f g n h, h n)

-- There are no more nonzero cells than cells.
sum_first-nonzero : (f : ℕ → ℕ) (n : ℕ) → sum_first (λ i. nonzero (f i)) n ≤ n
sum_first-nonzero f zero = omega arith
sum_first-nonzero f (suc n) = ground (arith, sum_first-nonzero f n)

nonzero_le : (n : ℕ) → nonzero n ≤ 1
nonzero_le n = ground arith

-- The count of the nonzero cells after a write.
nonzero-update :
    (f : ℕ → ℕ) (m i n d : ℕ)
    → i < m
    → m ≤ 32
    → d ≡ sum_first (λ j. nonzero (f j)) m
    → add64 (sub64 d (nonzero (f i))) (nonzero n) ≡ sum_first (λ j. nonzero (update f i n j)) m
nonzero-update f m i n d p q e = omega (
  arith,
  sum_first-update g m i (nonzero n) p,
  sum_first-cell g m i p,
  sum_first-nonzero f m,
  nonzero_le n,
  sum_first-congr (λ j. nonzero (update f i n j)) (update g i (nonzero n)) m
      (λ j.
        if_cases (λ (x : ℕ). nonzero (if i == j then n else f j) ≡ x) (i == j) (λ e. rw e refl)
          (λ e. rw e refl)),
)
  where
    g : ℕ → ℕ
    g j = nonzero (f j)

-- Where the running sum, modulo 2^64, and the count of the sizes other than 0 are those of the
-- cached sizes, and the index is inside the ring, they still are after a new size, whatever the
-- size that it replaces.
pub push-IsTracking : (p : Predictor) (n : ℕ) → IsTracking p → n < 2 ^ 64 → IsTracking (push p n)
unfolding push
push-IsTracking p n v w = record {
  sum =
      omega
        (arith, v.sum, v.words p.index v.in_ring, sum_first-update p.allocs 32 p.index n v.in_ring);
  div = nonzero-update p.allocs 32 p.index n p.running_div v.in_ring (omega arith) v.div;
  in_ring = omega arith;
  words = λ i q. if_cases (λ (x : ℕ). x < 2 ^ 64) (p.index == i) (λ _. w) (λ _. v.words i q);
}

pub new_predictor-IsTracking : IsTracking new_predictor
new_predictor-IsTracking = record {
  sum = refl;
  div = refl;
  in_ring = omega arith;
  words = λ i q. omega arith;
}
