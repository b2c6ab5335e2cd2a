-- ===== src/Index/Register.antt =====
-- A sheet that enters the index of src/arena.hpp, and one that leaves it.
use abcmalloc.Base.{
  ℕ, ◌+◌, ◌-◌, ◌<◌, ◌≤◌, ◌≡◌, refl, sym, ap, subst, ◌∙◌, leb, ◌==◌, arith, inl, inr, ◌⊎◌,
  Bool-cases, eq-of-==, ne-of-==, le-of-leb, le-of-leb-false, ltb-of-lt, ltb-of-le, leb-of-le,
  leb-of-lt, ==_self, ==_ne,
}
use abcmalloc.Index.{Range, Index, insert_position, shift_left, register_sheet, unregister}
use abcmalloc.Index.Search.{IsSorted}
use abcmalloc.Index.Order.{shift_right-get, shift_left-get, insert_position-first}

-- A number is below, at, or above another.
compare_cases : (i n : ℕ) → (i < n) ⊎ ((n ≡ i) ⊎ (n < i))
compare_cases i n = ground arith

-- The ranges of `s` with `x` at `pos` and the later ones moved up.
pub record Inserted (s s' : Index) (pos : ℕ) (x : Range) : Type 0 where
  pub in_bounds : pos ≤ s.count
  pub count : s'.count ≡ s.count + 1
  pub below : (i : ℕ) → i < pos → s'.idx i ≡ s.idx i
  pub here : s'.idx pos ≡ x
  pub above : (i : ℕ) → pos ≤ i → i < s.count → s'.idx (i + 1) ≡ s.idx i

-- A range that ends before those from `pos` on and starts after the others.
record Between (s : Index) (pos lo hi : ℕ) : Type 0 where
  after : (i : ℕ) → i < pos → i < s.count → (s.idx i).hi ≤ lo
  before : (i : ℕ) → pos ≤ i → i < s.count → hi ≤ (s.idx i).lo

module _ (s : Index) (v : IsSorted s) (nd lo hi : ℕ) (some_bytes : lo < hi) where
  abbrev range : Range
  range = record { lo = lo; hi = hi; nd = nd }

  Inserted-IsSorted :
      (s' : Index) (pos : ℕ) → Inserted s s' pos range → Between s pos lo hi → IsSorted s'
  Inserted-IsSorted s' pos e b = record {
    proper = λ i p. elim (compare_cases i pos) [
      | inl q ↦ rw (e.below i q) (v.proper i (omega (arith, e.in_bounds)))
      | inr (inl q) ↦ subst (λ (j : ℕ). (s'.idx j).lo < (s'.idx j).hi) q (rw e.here some_bytes)
      | inr (inr q) ↦
          up i q (λ (x : Range). x.lo < x.hi) p (v.proper (i - 1) (omega (arith, e.count)))
    ];
    apart = λ i j p q. elim (compare_cases j pos) [
      | inl a ↦
          rw (e.below i (omega arith), e.below j a) (v.apart i j p (omega (arith, e.in_bounds)))
      | inr (inl a) ↦
          subst (λ (k : ℕ). (s'.idx i).hi ≤ (s'.idx k).lo) a
            (rw (e.below i (omega arith), e.here)
              (b.after i (omega arith) (omega (arith, e.in_bounds))))
      | inr (inr a) ↦
          up j a (λ (x : Range). (s'.idx i).hi ≤ x.lo) q
            (elim (compare_cases i pos) [
              | inl c ↦ rw (e.below i c) (v.apart i (j - 1) (omega arith) (omega (arith, e.count)))
              | inr (inl c) ↦
                  subst (λ (k : ℕ). (s'.idx k).hi ≤ (s.idx (j - 1)).lo) c
                    (rw e.here (b.before (j - 1) (omega arith) (omega (arith, e.count))))
              | inr (inr c) ↦
                  up i c (λ (x : Range). x.hi ≤ (s.idx (j - 1)).lo) (omega arith)
                    (v.apart (i - 1) (j - 1) (omega arith) (omega (arith, e.count)))
            ])
    ];
  }
    where
      up :
          (i : ℕ) → pos < i → (P : Range → Type 0) → i < s'.count → P (s.idx (i - 1)) → P (s'.idx i)
      up i q P p h =
          subst P
            (sym (
              ap s'.idx {x = i} {y = i - 1 + 1} (omega arith)
              ∙ e.above (i - 1) (omega arith) (omega (arith, e.count))))
            h

  first-Between :
      (pos : ℕ)
      → ((i : ℕ) → i < s.count → (hi ≤ (s.idx i).lo) ⊎ ((s.idx i).hi ≤ lo))
      → ((i : ℕ) → i < pos → (s.idx i).lo < lo)
      → (pos < s.count → lo ≤ (s.idx pos).lo)
      → Between s pos lo hi
  first-Between pos out low high = record {
    after = λ i p q. elim (out i q) [ inl a ↦ absurd (omega (arith, low i p)) | inr a ↦ a ];
    before = λ i p q. elim (out i q) [
      | inl a ↦ a
      | inr a ↦ absurd (elim (Bool-cases (pos == i)) [
        | inl e ↦ omega (
          arith,
          subst (λ (j : ℕ). lo ≤ (s.idx j).lo) (eq-of-== pos i e) (high (omega arith)),
          v.proper i q,
        )
        | inr e ↦ omega (
          arith,
          high (omega arith),
          v.proper i q,
          v.proper pos (omega arith),
          v.apart pos i (omega (arith, ne-of-== pos i e)) q,
        )
      ])
    ];
  }

module _ (max_sheets : ℕ) (s : Index) where
  register_sheet-inserts :
      (nd lo hi : ℕ)
      → s.count < max_sheets
      → Inserted s
          (register_sheet max_sheets s nd lo hi).0
          (insert_position s lo s.count 0)
          (record { lo = lo; hi = hi; nd = nd })
  unfolding register_sheet
  register_sheet-inserts nd lo hi room = rw (leb-of-lt max_sheets s.count room) (record {
    in_bounds = omega (arith, first.1);
    count = refl;
    below = λ i p.
        rw
          (
            ==_ne pos i (omega arith),
            shift_right-get s.idx (s.count - pos) pos i,
            ltb-of-le pos i (omega arith),
          )
          refl;
    here = rw (==_self pos) refl;
    above = λ i p q.
        rw
          (
            ==_ne pos (i + 1) (omega arith),
            shift_right-get s.idx (s.count - pos) pos (i + 1),
            ltb-of-lt pos (i + 1) (omega arith),
            leb-of-le (i + 1) (pos + (s.count - pos)) (omega arith),
          )
          (ap s.idx {x = i + 1 - 1} {y = i} (omega arith));
  })
    where
      pos : ℕ
      pos = insert_position s lo s.count 0

      first :
          (0 ≤ pos)
          × (pos ≤ 0 + s.count)
          × ((i : ℕ) → 0 ≤ i → i < pos → (s.idx i).lo < lo)
          × (pos < 0 + s.count → lo ≤ (s.idx pos).lo)
      first = insert_position-first s lo s.count 0

  register_sheet-position :
      (nd lo hi : ℕ)
      → s.count < max_sheets
      → (register_sheet max_sheets s nd lo hi).1 ≡ insert_position s lo s.count 0
  unfolding register_sheet
  register_sheet-position nd lo hi room = rw (leb-of-lt max_sheets s.count room) refl

  -- In a sorted index of disjoint ranges with room, a range that is not empty and overlaps none
  -- of them is put in at the position that `register_sheet` answers, the others keep their order,
  -- and the ranges of the index are still sorted and disjoint.
  pub register_sheet-IsSorted :
      (nd lo hi : ℕ)
      → IsSorted s
      → s.count < max_sheets
      → lo < hi
      → ((i : ℕ) → i < s.count → (hi ≤ (s.idx i).lo) ⊎ ((s.idx i).hi ≤ lo))
      → let (s', pos) = register_sheet max_sheets s nd lo hi in
        IsSorted s' × Inserted s s' pos (record { lo = lo; hi = hi; nd = nd })
  register_sheet-IsSorted nd lo hi v room some_bytes out =
      let (_, _, low, high) = insert_position-first s lo s.count 0 in
      let e = register_sheet-inserts nd lo hi room in
      (
        Inserted-IsSorted s v nd lo hi some_bytes (register_sheet max_sheets s nd lo hi).0
            (insert_position s lo s.count 0) e
            (first-Between s v nd lo hi some_bytes (insert_position s lo s.count 0) out
              (λ i p. low i (omega arith) p) (λ p. high (omega arith))),
        subst
            (λ (pos : ℕ).
              Inserted s (register_sheet max_sheets s nd lo hi).0 pos
                (record { lo = lo; hi = hi; nd = nd }))
            (sym (register_sheet-position nd lo hi room)) e,
      )

  -- From a sorted index of disjoint ranges `unregister` takes the entry at a valid position, the
  -- later ones move down by one, and the ranges are still sorted and disjoint.
  pub unregister-IsSorted :
      (pos : ℕ)
      → IsSorted s
      → pos < s.count
      → let s' = unregister max_sheets s pos in
        IsSorted s'
        × (s'.count + 1 ≡ s.count)
        × ((i : ℕ) → i < pos → s'.idx i ≡ s.idx i)
        × ((i : ℕ) → pos ≤ i → i < s'.count → s'.idx i ≡ s.idx (i + 1))
  unfolding unregister
  unregister-IsSorted pos v p = rw (leb-of-lt s.count pos p) (
    record {
      proper = λ i q.
          moved i (λ (x : Range). x.lo < x.hi) q (λ _. v.proper i (omega arith))
            (λ _. v.proper (i + 1) (omega arith));
      apart = λ i j q r.
          moved i (λ (x : Range). x.hi ≤ (idx j).lo) (omega arith)
            (λ c.
              moved j (λ (x : Range). (s.idx i).hi ≤ x.lo) r (λ _. v.apart i j q (omega arith))
                (λ _. v.apart i (j + 1) (omega arith) (omega arith)))
            (λ c.
              moved j (λ (x : Range). (s.idx (i + 1)).hi ≤ x.lo) r (λ d. absurd (omega arith))
                (λ _. v.apart (i + 1) (j + 1) (omega arith) (omega arith)));
    },
    omega arith,
    λ i q.
        moved i (λ (x : Range). x ≡ s.idx i) (omega arith) (λ _. refl) (λ d. absurd (omega arith)),
    λ i q r. moved i (λ (x : Range). x ≡ s.idx (i + 1)) r (λ d. absurd (omega arith)) (λ _. refl),
  )
    where
      idx : ℕ → Range
      idx = shift_left s.idx (s.count - 1 - pos) pos

      moved :
          (i : ℕ) (P : Range → Type 0)
          → i < s.count - 1
          → (i < pos → P (s.idx i))
          → (pos ≤ i → P (s.idx (i + 1)))
          → P (idx i)
      moved i P q low high =
          rw (shift_left-get s.idx (s.count - 1 - pos) pos i) (elim (Bool-cases (leb pos i)) [
            | inl e ↦
                rw (e, ltb-of-lt i (pos + (s.count - 1 - pos)) (omega (arith, le-of-leb pos i e)))
                  (high (le-of-leb pos i e))
            | inr e ↦ rw e (low (le-of-leb-false pos i e))
          ])
