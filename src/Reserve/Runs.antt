-- ===== src/Reserve/Runs.antt =====
-- The search of `__va_reuse` in src/va_reserve.hpp is best fit.
use abcmalloc.Base.{
  subst, ℕ, zero, suc, ◌<◌, ◌≤◌, ◌≡◌, ltb, ◌==◌, Option, none, some, arith, inl, inr, Bool-cases,
  if_cases, eq-of-==, ne-of-==, lt-of-ltb, le-of-ltb-false,
}
use abcmalloc.Reserve.{FreeRun, better, best_run}

-- `best` is the answer of a best fit among the runs that `Seen` names.
abbrev pub BestFit : (ℕ → FreeRun) → (want : ℕ) → (Seen : ℕ → Type 0) → Option ℕ → Type 0
BestFit runs want Seen none = (i : ℕ) → Seen i → (runs i).granules < want
BestFit runs want Seen (some b) =
    Seen b
    × (want ≤ (runs b).granules)
    × ((i : ℕ) → Seen i → want ≤ (runs i).granules → (runs b).granules ≤ (runs i).granules)

-- What holds of `left`, and of all above it, holds from `left` on.
from_left : (P : ℕ → Type 0) (left i : ℕ) → left ≤ i → P left → (left < i → P i) → P i
from_left P left i p here above = elim (Bool-cases (left == i)) [
  | inl e ↦ subst P (eq-of-== left i e) here
  | inr e ↦ above (omega (arith, ne-of-== left i e))
]

module _ (runs : ℕ → FreeRun) (want count : ℕ) where
  abbrev Between : (left i : ℕ) → Type 0
  Between left i = (left ≤ i) × (i < count)

  skip-BestFit :
      (left : ℕ) (best : Option ℕ)
      → (runs left).granules < want
      → BestFit runs want (Between (suc left)) best
      → BestFit runs want (Between left) best
  skip-BestFit left none small v = λ i s.
      from_left (λ i. (runs i).granules < want) left i s.0 small (λ p. v i (omega arith, s.1))
  skip-BestFit left (some b) small v = (
    (omega (arith, v.0.0), v.0.1),
    v.1,
    λ i s.
        from_left (λ i. want ≤ (runs i).granules → (runs b).granules ≤ (runs i).granules) left i s.0
          (λ w. absurd (omega arith)) (λ p. v.2 i (omega arith, s.1)),
  )

  better-BestFit :
      (left : ℕ) (best : Option ℕ)
      → left < count
      → want ≤ (runs left).granules
      → BestFit runs want (Between (suc left)) best
      → BestFit runs want (Between left) (better runs best left)
  unfolding better
  better-BestFit left none p big v = (
    (omega arith, p),
    big,
    λ i s.
        from_left (λ i. want ≤ (runs i).granules → (runs left).granules ≤ (runs i).granules) left i
          s.0 (λ w. omega arith) (λ q w. absurd (omega (arith, v i (omega arith, s.1)))),
  )
  better-BestFit left (some b) p big v =
      if_cases (λ (o : Option ℕ). BestFit runs want (Between left) o)
        (ltb (runs left).granules (runs b).granules)
        (λ e. (
          (omega arith, p),
          big,
          λ i s.
              from_left (λ i. want ≤ (runs i).granules → (runs left).granules ≤ (runs i).granules)
                left i s.0 (λ w. omega arith)
                (λ q w. omega (
                  arith,
                  v.2 i (omega arith, s.1) w,
                  lt-of-ltb (runs left).granules (runs b).granules e,
                )),
        ))
        (λ e. (
          (omega (arith, v.0.0), v.0.1),
          v.1,
          λ i s.
              from_left (λ i. want ≤ (runs i).granules → (runs b).granules ≤ (runs i).granules) left
                i s.0 (λ w. le-of-ltb-false (runs left).granules (runs b).granules e)
                (λ q w. v.2 i (omega arith, s.1) w),
        ))

  -- After an exact fit there is nothing better to find.
  exact-BestFit :
      (left : ℕ) (best : Option ℕ)
      → left < count
      → (runs left).granules ≡ want
      → BestFit runs want (Between left) best
      → BestFit runs want (Between 0) best
  exact-BestFit left none p e v = absurd (omega (arith, v left (omega arith, p)))
  exact-BestFit left (some b) p e v =
      ((omega arith, v.0.1), v.1, λ i s w. omega (arith, v.2 left (omega arith, p) (omega arith)))

  best_run-BestFit :
      (left : ℕ) (best : Option ℕ)
      → left ≤ count
      → BestFit runs want (Between left) best
      → BestFit runs want (Between 0) (best_run runs want left best)
  unfolding best_run
  best_run-BestFit zero best p v = v
  best_run-BestFit (suc i) best p v = elim (Bool-cases (ltb (runs i).granules want)) [
    | inl e ↦ rw e (
        best_run-BestFit i best (omega arith)
          (skip-BestFit i best (lt-of-ltb (runs i).granules want e) v))
    | inr e ↦ rw e (
        let next =
          better-BestFit i best (omega arith) (le-of-ltb-false (runs i).granules want e) v in
        if_cases (λ (o : Option ℕ). BestFit runs want (Between 0) o) ((runs i).granules == want)
          (λ f.
            exact-BestFit i (better runs best i) (omega arith) (eq-of-== (runs i).granules want f)
              next)
          (λ f. best_run-BestFit i (better runs best i) (omega arith) next))
  ]

-- A run that `__va_reuse` picks is large enough and is the smallest of those that are; none is
-- picked only if every run is too small.
pub best_run-best :
    (runs : ℕ → FreeRun) (want count : ℕ)
    → BestFit runs want (λ i. i < count) (best_run runs want count none)
best_run-best runs want count = seen (best_run runs want count none) (
    best_run-BestFit runs want count count none (omega arith)
      (λ i s. absurd (omega (arith, s.0, s.1))))
  where
    seen :
        (o : Option ℕ)
        → BestFit runs want (Between runs want count 0) o
        → BestFit runs want (λ i. i < count) o
    seen none v = λ i p. v i (omega arith, p)
    seen (some b) v = (v.0.1, v.1, λ i p. v.2 i (omega arith, p))
