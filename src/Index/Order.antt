-- ===== src/Index/Order.antt =====
-- Entering a sheet in the index of src/arena.hpp and taking it out keep the order of the ranges.
use abcmalloc.Base.{
  ℕ, zero, suc, ◌+◌, ◌-◌, ◌<◌, ◌≤◌, ◌≡◌, ap, subst, ◌∙◌, ltb, leb, ◌==◌, ◌&&◌, if◌then◌else◌, arith,
  inl, inr, Bool-cases, if_cases, eq-of-==, ne-of-==, lt-of-ltb, le-of-ltb-false, update,
}
use abcmalloc.Index.{Range, Index, insert_position, shift_right, shift_left}

-- A cell of an array, at an index that is another way to write it.
cell : (f : ℕ → Range) (i j : ℕ) → i ≡ j → f i ≡ f j
cell f i j e = ap f e

-- The entries from `pos` on move up by one.
pub shift_right-get :
    (f : ℕ → Range) (left pos i : ℕ)
    → shift_right f left pos i ≡ (if ltb pos i && leb i (pos + left) then f (i - 1) else f i)
unfolding shift_right
shift_right-get f zero pos i = ground arith
shift_right-get f (suc left) pos i =
    shift_right-get (update f (pos + suc left) (f (pos + left))) left pos i
    ∙ ground (arith, cell f (pos + left) (i - 1))

-- The entries after `i` move down by one.
pub shift_left-get :
    (f : ℕ → Range) (left i j : ℕ)
    → shift_left f left i j ≡ (if leb i j && ltb j (i + left) then f (j + 1) else f j)
unfolding shift_left
shift_left-get f zero i j = ground arith
shift_left-get f (suc left) i j =
    shift_left-get (update f i (f (i + 1))) left (i + 1) j ∙ ground (arith, cell f (i + 1) (j + 1))

-- The position is the first of those from `pos` on whose range does not start below `lo`.
pub insert_position-first :
    (s : Index) (lo left pos : ℕ)
    → let r = insert_position s lo left pos in
      (pos ≤ r)
      × (r ≤ pos + left)
      × ((i : ℕ) → pos ≤ i → i < r → (s.idx i).lo < lo)
      × (r < pos + left → lo ≤ (s.idx r).lo)
unfolding insert_position
insert_position-first s lo zero pos =
    (omega arith, omega arith, λ i p q. absurd (omega arith), λ p. absurd (omega arith))
insert_position-first s lo (suc left) pos =
    let (a, b, c, d) = insert_position-first s lo left (pos + 1) in
    if_cases
      (λ (r : ℕ).
        (pos ≤ r)
        × (r ≤ pos + suc left)
        × ((i : ℕ) → pos ≤ i → i < r → (s.idx i).lo < lo)
        × (r < pos + suc left → lo ≤ (s.idx r).lo))
      (ltb (s.idx pos).lo lo)
      (λ e. (
        omega arith,
        omega arith,
        λ i p q. elim (Bool-cases (pos == i)) [
          | inl f ↦
              subst (λ (j : ℕ). (s.idx j).lo < lo) (eq-of-== pos i f)
                (lt-of-ltb (s.idx pos).lo lo e)
          | inr f ↦ c i (omega (arith, ne-of-== pos i f)) q
        ],
        λ p. d (omega arith),
      ))
      (λ e. (
        omega arith,
        omega arith,
        λ i p q. absurd (omega arith),
        λ p. le-of-ltb-false (s.idx pos).lo lo e,
      ))
