-- ===== src/Buddy/Order.antt =====
-- Orders and sizes of `__buddy_list` (src/free_list.hpp): `order_for_size` picks the smallest order
-- whose blocks hold a request.
use abcmalloc.Base.{
  ℕ, zero, suc, ◌+◌, ◌-◌, ◌*◌, ◌/◌, ◌^◌, ◌≤◌, ◌<◌, ◌≡◌, ◌⊎◌, inl, inr, refl, ap, arith, true, false,
  leb, Bool-cases, le-of-leb, le-of-leb-false,
}
use abcmalloc.Base.Bits.Count.{floor_log2, floor_log2-le, lt-floor_log2}
use native.Mathlib.Nat.{pow-suc, one-le-pow, mul-le-mul_left, div-add-mod, mod-lt}
use abcmalloc.Buddy.State.{ceil_log2_u64, order_for_size, order_size}

-- `x / a` rounded down, as two bounds.
div_bounds : (a x : ℕ) → 0 < a → (a * (x / a) ≤ x) × (x < a * (x / a) + a)
div_bounds a x h = ground (arith, div-add-mod x a, mod-lt x h)

-- The order fits the request, and no smaller order does.
pub record Fits (k n o : ℕ) : Type 0 where
  pub holds : n ≤ 2 ^ k * 2 ^ o
  pub least : (o ≡ 0) ⊎ (2 ^ k * 2 ^ (o - 1) < n)

-- The units above the first, counted by their highest bit, give the order.
units-Fits :
    (k n f : ℕ) → 2 ^ f ≤ (n - 1) / 2 ^ k → (n - 1) / 2 ^ k < 2 ^ suc f → 0 < n → Fits k n (f + 1)
units-Fits k n f low high h =
    let (below, above) = div_bounds (2 ^ k) (n - 1) (one-le-pow k 2 (omega arith)) in
    record {
      holds = omega (arith, above, mul-le-mul_left (2 ^ k) high, succ);
      least = inr (omega (arith, below, mul-le-mul_left (2 ^ k) low, pred));
    }
  where
    succ : 2 ^ k * 2 ^ (f + 1) ≡ 2 ^ k * 2 ^ suc f
    succ = ap (λ e. 2 ^ k * 2 ^ e) {x = f + 1} {y = suc f} (omega arith)

    pred : 2 ^ k * 2 ^ (f + 1 - 1) ≡ 2 ^ k * 2 ^ f
    pred = ap (λ e. 2 ^ k * 2 ^ e) {x = f + 1 - 1} {y = f} (omega arith)

-- The order picked for a request of `n` bytes, more than none and at most 2^64, is the smallest
-- whose blocks hold `n` bytes.
pub order_for_size-Fits : (k n : ℕ) → 0 < n → n ≤ 2 ^ 64 → Fits k n (order_for_size k n)
unfolding order_for_size ceil_log2_u64
order_for_size-Fits k n h w = elim (Bool-cases (leb ((n - 1) / 2 ^ k + 1) 1)) [
  | inl small ↦ rw small (record { holds = one_unit small; least = inl refl })
  | inr large ↦ rw large (many large)
]
  where
    one_unit : leb ((n - 1) / 2 ^ k + 1) 1 ≡ true → n ≤ 2 ^ k * 2 ^ 0
    one_unit e =
        let (below, above) = div_bounds (2 ^ k) (n - 1) (one-le-pow k 2 (omega arith)) in
        let zero_units : (n - 1) / 2 ^ k ≡ 0 = omega (arith, le-of-leb _ 1 e) in
        omega (arith, rw zero_units at above)

    many :
        leb ((n - 1) / 2 ^ k + 1) 1 ≡ false → Fits k n (floor_log2 64 ((n - 1) / 2 ^ k + 1 - 1) + 1)
    many e =
        let same : (n - 1) / 2 ^ k + 1 - 1 ≡ (n - 1) / 2 ^ k = omega arith in
        rw same (
          units-Fits k n _
            (floor_log2-le 64 ((n - 1) / 2 ^ k) (omega (arith, le-of-leb-false _ 1 e)))
            (lt-floor_log2 64 ((n - 1) / 2 ^ k) (omega (arith, div_le))) h)
      where
        div_le : (n - 1) / 2 ^ k ≤ n - 1
        div_le = omega arith

-- Below 2 ^ 64 the size of an order does not wrap.
pub order_size_small : (k o : ℕ) → 2 ^ k * 2 ^ o < 2 ^ 64 → order_size k o ≡ 2 ^ k * 2 ^ o
unfolding order_size
order_size_small k o h = omega arith

-- The block of the order that fits is of the smallest size, or less than twice the request.
pub Fits-double : (k n o : ℕ) → Fits k n o → (2 ^ k * 2 ^ o ≡ 2 ^ k) ⊎ (2 ^ k * 2 ^ o < 2 * n)
Fits-double k n zero v = inl (omega arith)
Fits-double k n (suc o) v = elim v.least [
  | inl e ↦ absurd (omega (arith, e))
  | inr small ↦ inr (omega (arith, ap (λ t. 2 ^ k * t) (pow-suc 2 o), rw same at small))
]
  where
    same : suc o - 1 ≡ o
    same = omega arith

pub order_size-lt : (k o : ℕ) → order_size k o < 2 ^ 64
unfolding order_size
order_size-lt k o = omega arith
