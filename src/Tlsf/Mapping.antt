-- ===== src/Tlsf/Mapping.antt =====
-- The classes of sizes of src/cache_list.hpp: `mapping_search` gives a class such that the blocks of
-- it, and of all later classes, hold the size asked for.
use abcmalloc.Base.{
  ℕ, suc, ◌+◌, ◌-◌, ◌*◌, ◌/◌, ◌%◌, ◌^◌, ◌<◌, ◌≤◌, ◌≡◌, ◌⊎◌, sym, ap, ◌∙◌, subst, false, ltb, arith,
  inl, inr, Bool-cases, lt-of-ltb, le-of-ltb-false, add64, sub64,
}
use abcmalloc.Base.Bits.Count.{floor_log2-le, lt-floor_log2}
use native.Mathlib.Nat.{
  pow-suc, pow-le-pow_right, one-le-pow, div-mul-le_self, lt-div-mul-add, le-div_iff_mul-le,
  mul-le-mul_right,
}
use abcmalloc.Tlsf.State.{Class, fls64, mapping_insert, mapping_search}

-- The bounds that make `f` the position of the highest bit of `v`.
pub record IsTop (v f : ℕ) : Type 0 where
  pub low : 2 ^ f ≤ v
  pub high : v < 2 * 2 ^ f

pub fls64-IsTop : (v : ℕ) → 0 < v → v < 2 ^ 64 → IsTop v (fls64 v)
fls64-IsTop v p q = record {
  low = floor_log2-le 64 v p;
  high = omega (arith, lt-floor_log2 64 v q, pow-suc 2 (fls64 v));
}

-- A greater number has no lower top bit.
top_le : (v w f g : ℕ) → IsTop v f → IsTop w g → v ≤ w → f ≤ g
top_le v w f g a b h = elim (Bool-cases (ltb g f)) [
  | inr e ↦ le-of-ltb-false g f e
  | inl e ↦ absurd (
      omega (
        arith,
        a.low,
        b.high,
        pow-suc 2 g,
        pow-le-pow_right {n = 2} (omega arith) {i = suc g} {j = f} (lt-of-ltb g f e),
      ))
]

top_at : (v f : ℕ) → IsTop v f → (n : ℕ) → 2 ^ n ≤ v → n ≤ f
top_at v f a n h = elim (Bool-cases (ltb f n)) [
  | inr e ↦ le-of-ltb-false f n e
  | inl e ↦ absurd (
      omega (
        arith,
        a.high,
        pow-suc 2 f,
        pow-le-pow_right {n = 2} (omega arith) {i = suc f} {j = n} (lt-of-ltb f n e),
      ))
]

-- Four bits below the top one: 16 steps.
sixteen : (f : ℕ) → 4 ≤ f → 2 ^ f ≡ 16 * 2 ^ (f - 4)
sixteen f h =
    ap (λ (n : ℕ). 2 ^ n) {x = f} {y = suc (suc (suc (suc (f - 4))))} (omega arith)
    ∙ omega (
      arith,
      pow-suc 2 (suc (suc (suc (f - 4)))),
      pow-suc 2 (suc (suc (f - 4))),
      pow-suc 2 (suc (f - 4)),
      pow-suc 2 (f - 4),
    )

-- Where the steps of size `g` begin that `v` is among, as a quotient.
quotient_bounds :
    (v g : ℕ)
    → 0 < g
    → 16 * g ≤ v
    → v < 32 * g
    → (16 ≤ v / g) × (v / g < 32) × (v / g * g ≤ v) × (v < v / g * g + g)
quotient_bounds v g p low high =
    let below = div-mul-le_self v g in
    let above = lt-div-mul-add {a = v} {b = g} p in
    (
      (le-div_iff_mul-le {k = g} {x = 16} {y = v} p).1 low,
      (elim (Bool-cases (ltb (v / g) 32)) [
        | inl e ↦ lt-of-ltb (v / g) 32 e
        | inr e ↦ absurd (
            omega (
              arith,
              below,
              mul-le-mul_right {m = 32} {n = v / g} g (le-of-ltb-false (v / g) 32 e),
            ))
      ]),
      below,
      above,
    )

-- The class of a size of the range that headers have.
pub mapping_insert-bounds :
    (v : ℕ)
    → 64 ≤ v
    → v < 2 ^ 32
    → (6 ≤ (mapping_insert v).fl) × ((mapping_insert v).fl < 32) × ((mapping_insert v).si < 16)
unfolding mapping_insert
mapping_insert-bounds v p q =
    let t = fls64-IsTop v (omega arith) (omega arith) in
    (
      top_at v (fls64 v) t 6 (omega arith),
      (elim (Bool-cases (ltb (fls64 v) 32)) [
        | inl e ↦ lt-of-ltb (fls64 v) 32 e
        | inr e ↦ absurd (
            omega (
              arith,
              t.low,
              pow-le-pow_right {n = 2} (omega arith) {i = 32} {j = fls64 v}
                  (le-of-ltb-false (fls64 v) 32 e),
            ))
      ]),
      omega arith,
    )

-- A class is not before another, in the order of the lists.
abbrev pub NotBefore : Class → Class → Type 0
NotBefore c d = (c.fl < d.fl) ⊎ ((c.fl ≡ d.fl) × (c.si ≤ d.si))

-- A size rounded up as `mapping_search` rounds it stays at least the size when it is rounded down to
-- a step of its class.
rounded-holds :
    (n m f h : ℕ)
    → IsTop n f
    → IsTop m h
    → 4 ≤ f
    → m + 1 ≡ n + 2 ^ (f - 4)
    → n ≤ m / 2 ^ (h - 4) * 2 ^ (h - 4)
rounded-holds n m f h a b p e = elim (Bool-cases (ltb f h)) [
  | inl l ↦ omega (
    arith,
    bounds.0,
    a.high,
    pow-suc 2 f,
    sixteen h (omega (arith, above)),
    pow-le-pow_right {n = 2} (omega arith) {i = suc f} {j = h} (lt-of-ltb f h l),
    mul-le-mul_right {m = 16} {n = m / 2 ^ (h - 4)} (2 ^ (h - 4)) bounds.0,
  )
  | inr l ↦
      subst (λ (g : ℕ). n ≤ m / 2 ^ (g - 4) * 2 ^ (g - 4)) (same l)
        (omega
          (arith, lt-div-mul-add {a = m} {b = 2 ^ (f - 4)} (one-le-pow (f - 4) 2 (omega arith))))
]
  where
    above : f ≤ h
    above = top_le n m f h a b (omega (arith, one-le-pow (f - 4) 2 (omega arith)))

    same : ltb f h ≡ false → f ≡ h
    same l = omega (arith, above, le-of-ltb-false f h l)

    bounds :
        (16 ≤ m / 2 ^ (h - 4))
        × (m / 2 ^ (h - 4) < 32)
        × (m / 2 ^ (h - 4) * 2 ^ (h - 4) ≤ m)
        × (m < m / 2 ^ (h - 4) * 2 ^ (h - 4) + 2 ^ (h - 4))
    bounds =
        quotient_bounds m (2 ^ (h - 4)) (one-le-pow (h - 4) 2 (omega arith))
          (omega (arith, sixteen h (omega (arith, above)), b.low))
          (omega (arith, sixteen h (omega (arith, above)), b.high))

-- In the order of the classes, a size of a class that is not before that of `m` is at least `m`
-- rounded down to a step.
not_before-le :
    (m v f g : ℕ)
    → IsTop m f
    → IsTop v g
    → 4 ≤ f
    → (f < g) ⊎ ((f ≡ g) × (m / 2 ^ (f - 4) % 16 ≤ v / 2 ^ (g - 4) % 16))
    → m / 2 ^ (f - 4) * 2 ^ (f - 4) ≤ v
not_before-le m v f g a b p (inl l) = omega (
  arith,
  a.high,
  b.low,
  pow-suc 2 f,
  div-mul-le_self m (2 ^ (f - 4)),
  pow-le-pow_right {n = 2} (omega arith) {i = suc f} {j = g} l,
)
not_before-le m v f g a b p (inr (e, l)) =
    same_level m v f p a (subst (λ (h : ℕ). IsTop v h) (sym e) b)
      (subst (λ (h : ℕ). m / 2 ^ (f - 4) % 16 ≤ v / 2 ^ (h - 4) % 16) (sym e) l)
  where
    same_level :
        (m v f : ℕ)
        → 4 ≤ f
        → IsTop m f
        → IsTop v f
        → m / 2 ^ (f - 4) % 16 ≤ v / 2 ^ (f - 4) % 16
        → m / 2 ^ (f - 4) * 2 ^ (f - 4) ≤ v
    same_level m v f p a b l =
        let g = 2 ^ (f - 4) in
        let pos = one-le-pow (f - 4) 2 (omega arith) in
        let (m1, m2, _, _) =
          quotient_bounds m g pos (omega (arith, sixteen f p, a.low))
            (omega (arith, sixteen f p, a.high)) in
        let (v1, v2, v3, _) =
          quotient_bounds v g pos (omega (arith, sixteen f p, b.low))
            (omega (arith, sixteen f p, b.high)) in
        omega (arith, mul-le-mul_right {m = m / g} {n = v / g} g (omega arith))

-- Every block whose class is not before the one that `mapping_search` gives for a size of 64 bytes
-- or more, but less than 2^63, holds that size.
pub mapping_search-holds :
    (needed v : ℕ)
    → 64 ≤ needed
    → needed < 2 ^ 63
    → 64 ≤ v
    → v < 2 ^ 32
    → NotBefore (mapping_search needed) (mapping_insert v)
    → needed ≤ v
unfolding mapping_search mapping_insert
mapping_search-holds needed v p q r s before = omega (
  arith,
  rounded-holds needed m f h top_n top_m four step,
  not_before-le m v h (fls64 v) top_m (fls64-IsTop v (omega arith) (omega arith))
      (omega (arith, four, above)) before,
)
  where
    f : ℕ
    f = fls64 needed

    m : ℕ
    m = sub64 (add64 needed (2 ^ (f - 4))) 1

    h : ℕ
    h = fls64 m

    top_n : IsTop needed f
    top_n = fls64-IsTop needed (omega arith) (omega arith)

    four : 4 ≤ f
    four = top_at needed f top_n 4 (omega arith)

    small : 2 ^ (f - 4) ≤ needed
    small = omega (arith, sixteen f four, top_n.low)

    step : m + 1 ≡ needed + 2 ^ (f - 4)
    step = omega (arith, small, one-le-pow (f - 4) 2 (omega arith))

    top_m : IsTop m h
    top_m = fls64-IsTop m (omega (arith, step)) (omega arith)

    above : f ≤ h
    above =
        top_le needed m f h top_n top_m (omega (arith, step, one-le-pow (f - 4) 2 (omega arith)))
