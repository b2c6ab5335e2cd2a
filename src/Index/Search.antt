-- ===== src/Index/Search.antt =====
-- `find_range` of src/arena.hpp finds the sheet that an address lies in, and finds none only if
-- there is none.
use abcmalloc.Base.{
  sym, subst, ℕ, zero, suc, ◌+◌, ◌-◌, ◌/◌, ◌<◌, ◌≤◌, ltb, leb, ◌==◌, Option, none, some, arith, inl,
  inr, ◌⊎◌, Bool-cases, if_cases, eq-of-==, ne-of-==, lt-of-ltb, le-of-ltb-false, le-of-leb,
  le-of-leb-false,
}
use abcmalloc.Index.{Index, find_loop, find_range}

-- Entry `i` contains the address.
abbrev pub Holds : Index → (addr i : ℕ) → Type 0
Holds s addr i = ((s.idx i).lo ≤ addr) × (addr < (s.idx i).hi)

-- The entries are ranges that do not overlap, in ascending order.
pub record IsSorted (s : Index) : Type 0 where
  pub proper : (i : ℕ) → i < s.count → (s.idx i).lo < (s.idx i).hi
  pub apart : (i j : ℕ) → i < j → j < s.count → (s.idx i).hi ≤ (s.idx j).lo

-- What a search among the `left` entries from `lo` on has to answer.
abbrev pub Finds : Index → (addr lo left : ℕ) → Option ℕ → Type 0
Finds s addr lo left none = (i : ℕ) → lo ≤ i → i < lo + left → ¬ Holds s addr i
Finds s addr lo left (some i) = (lo ≤ i) × (i < lo + left) × Holds s addr i

-- An answer for a part of the entries, where the others do not hold the address.
Finds-widen :
    (s : Index) (addr lo left lo' left' : ℕ) (o : Option ℕ)
    → lo ≤ lo'
    → lo' + left' ≤ lo + left
    → ((i : ℕ) → lo ≤ i → i < lo + left → (i < lo') ⊎ (lo' + left' ≤ i) → ¬ Holds s addr i)
    → Finds s addr lo' left' o
    → Finds s addr lo left o
Finds-widen s addr lo left lo' left' none p q out v = λ i a b h. elim (Bool-cases (ltb i lo')) [
  | inl e ↦ out i a b (inl (lt-of-ltb i lo' e)) h
  | inr e ↦ elim (Bool-cases (ltb i (lo' + left'))) [
    | inl f ↦ v i (le-of-ltb-false i lo' e) (lt-of-ltb i (lo' + left') f) h
    | inr f ↦ out i a b (inr (le-of-ltb-false i (lo' + left') f)) h
  ]
]
Finds-widen s addr lo left lo' left' (some i) p q out (a, b, h) = (omega arith, omega arith, h)

module _ (s : Index) (addr : ℕ) (v : IsSorted s) where
  -- Entries from `mid` on lie above an address below `mid`.
  not_above : (mid i : ℕ) → mid ≤ i → i < s.count → addr < (s.idx mid).lo → ¬ Holds s addr i
  not_above mid i p q below h = elim (Bool-cases (mid == i)) [
    | inl e ↦ absurd (omega (arith, h.0, subst (λ j. addr < (s.idx j).lo) (eq-of-== mid i e) below))
    | inr e ↦ absurd (
        omega (
          arith,
          h.0,
          below,
          v.proper mid (omega arith),
          v.apart mid i (omega (arith, ne-of-== mid i e)) q,
        ))
  ]

  -- Entries up to `mid` lie below an address past the end of `mid`.
  not_below : (mid i : ℕ) → i ≤ mid → mid < s.count → (s.idx mid).hi ≤ addr → ¬ Holds s addr i
  not_below mid i p q above h = elim (Bool-cases (i == mid)) [
    | inl e ↦
        absurd (omega (arith, h.1, subst (λ j. (s.idx j).hi ≤ addr) (sym (eq-of-== i mid e)) above))
    | inr e ↦ absurd (
        omega
          (arith, h.1, above, v.proper mid q, v.apart i mid (omega (arith, ne-of-== i mid e)) q))
  ]

  find_loop-Finds :
      (fuel lo left : ℕ)
      → left ≤ fuel
      → lo + left ≤ s.count
      → Finds s addr lo left (find_loop fuel s addr lo left)
  unfolding find_loop
  find_loop-Finds zero lo left p q = λ i a b h. absurd (omega arith)
  find_loop-Finds (suc fuel) lo left p q =
      if_cases (λ (o : Option ℕ). Finds s addr lo left o) (left == 0)
        (λ e i a b h. absurd (omega (arith, eq-of-== left 0 e)))
        λ e.
          let some_left = ne-of-== left 0 e in
          if_cases (λ (o : Option ℕ). Finds s addr lo left o) (ltb addr (s.idx mid).lo)
            (λ below.
              Finds-widen s addr lo left lo (mid - lo) _ (omega arith) (omega arith)
                (λ i a b o. elim o [
                  | inl x ↦ absurd (omega arith)
                  | inr x ↦
                      not_above mid i (omega arith) (omega arith)
                        (lt-of-ltb addr (s.idx mid).lo below)
                ])
                (find_loop-Finds fuel lo (mid - lo) (omega arith) (omega arith)))
            λ below.
              if_cases (λ (o : Option ℕ). Finds s addr lo left o) (leb (s.idx mid).hi addr)
                (λ above.
                  Finds-widen s addr lo left (mid + 1) (lo + left - (mid + 1)) _ (omega arith)
                    (omega arith)
                    (λ i a b o. elim o [
                      | inl x ↦
                          not_below mid i (omega arith) (omega arith)
                            (le-of-leb (s.idx mid).hi addr above)
                      | inr x ↦ absurd (omega arith)
                    ])
                    (find_loop-Finds fuel (mid + 1) (lo + left - (mid + 1)) (omega arith)
                      (omega arith)))
                λ above. (
                  omega arith,
                  omega arith,
                  (
                    le-of-ltb-false addr (s.idx mid).lo below,
                    le-of-leb-false (s.idx mid).hi addr above,
                  ),
                )
    where
      mid : ℕ
      mid = lo + (left - 1) / 2

  -- In an index of sorted ranges that do not overlap, `find_range` gives an entry that holds the
  -- address, and `none` only if no entry does.
  pub find_range-Finds : Finds s addr 0 s.count (find_range s addr)
  unfolding find_range
  find_range-Finds = find_loop-Finds s.count 0 s.count (omega arith) (omega arith)
