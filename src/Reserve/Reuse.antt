-- ===== src/Reserve/Reuse.antt =====
-- The free runs of the reservation do not overlap, and what is carved lies outside them
-- (`__va_reuse`, `__va_bump`, `__va_carve_reserved` and `__va_release` of src/va_reserve.hpp).
use abcmalloc.Base.{
  update_cases, ℕ, ◌+◌, ◌-◌, ◌*◌, ◌<◌, ◌≤◌, ◌≢◌, sym, ◌∙◌, ltb, Option, none, some, arith, ◌⊎◌, inl,
  inr, if_cases, lt-of-ltb, update, add64,
}
use abcmalloc.Reserve.{FreeRun, Reserve, best_run, take_run, reuse, sheet_align, reservation_size}
use abcmalloc.Reserve.Runs.{BestFit, best_run-best}

-- The `m` bytes from `a` on and the `n` bytes from `b` on have none in common.
abbrev pub Disjoint : (a m b n : ℕ) → Type 0
Disjoint a m b n = (a + m ≤ b) ⊎ (b + n ≤ a)

-- The bytes from offset `off` on were carved: they lie below the cursor and outside the free runs.
pub record Carved (r : Reserve) (off len : ℕ) : Type 0 where
  pub below : off + len ≤ r.offset
  pub outside :
      (i : ℕ)
      → i < r.free_count
      → Disjoint off len (r.runs i).off ((r.runs i).granules * sheet_align)

-- The free runs lie below the cursor, which stays within the reservation, and do not overlap.
pub record IsApart (r : Reserve) : Type 0 where
  pub bounded : r.offset ≤ reservation_size
  pub below :
      (i : ℕ) → i < r.free_count → (r.runs i).off + (r.runs i).granules * sheet_align ≤ r.offset
  pub apart :
      (i j : ℕ)
      → i < r.free_count
      → j < r.free_count
      → i ≢ j
      → Disjoint
          (r.runs i).off
          ((r.runs i).granules * sheet_align)
          (r.runs j).off
          ((r.runs j).granules * sheet_align)

-- What a search for `want` granules leaves and gives.
abbrev pub Takes : (want : ℕ) → Reserve × Option ℕ → Type 0
Takes want (r, none) = IsApart r
Takes want (r, some off) = IsApart r × Carved r off (want * sheet_align)

abbrev pub span : FreeRun → ℕ
span run = run.granules * sheet_align

pub Disjoint_sym : (a m b n : ℕ) → Disjoint a m b n → Disjoint b n a m
Disjoint_sym a m b n (inl p) = inr p
Disjoint_sym a m b n (inr p) = inl p

-- Runs stay apart when one of them is replaced by a run that is apart from the others.
pub replace-apart :
    (r : Reserve) (count b : ℕ) (x : FreeRun)
    → IsApart r
    → ((i : ℕ) → i < count → b ≢ i → i < r.free_count)
    → ((i : ℕ) → i < count → b ≢ i → Disjoint x.off (span x) (r.runs i).off (span (r.runs i)))
    → (i j : ℕ) → i < count
    → j < count
    → i ≢ j
    → Disjoint
        (update r.runs b x i).off
        (span (update r.runs b x i))
        (update r.runs b x j).off
        (span (update r.runs b x j))
replace-apart r count b x v p out i j q s n =
    update_cases
      (λ (ri : FreeRun).
        Disjoint ri.off (span ri) (update r.runs b x j).off (span (update r.runs b x j)))
      r.runs b x i
      (λ bi.
        update_cases (λ (rj : FreeRun). Disjoint x.off (span x) rj.off (span rj)) r.runs b x j
          (λ bj. absurd (n (sym bi ∙ bj))) (λ bj. out j s bj))
      (λ bi.
        update_cases (λ (rj : FreeRun). Disjoint (r.runs i).off (span (r.runs i)) rj.off (span rj))
          r.runs b x j (λ bj. Disjoint_sym _ _ _ _ (out i q bi))
          (λ bj. v.apart i j (p i q bi) (p j s bj) n))

-- The front of a run is given away, and its end stays.
split-Takes :
    (r : Reserve) (want b : ℕ)
    → IsApart r
    → b < r.free_count
    → want < (r.runs b).granules
    → Takes want (
      record r {
        runs = update r.runs b (record {
          off = add64 (r.runs b).off (want * sheet_align);
          granules = (r.runs b).granules - want;
        });
      },
      some (r.runs b).off,
    )
split-Takes r want b v p w = (
  record {
    bounded = v.bounded;
    below = λ i q.
        update_cases (λ (x : FreeRun). x.off + span x ≤ r.offset) r.runs b rest i
          (λ _. omega (arith, v.below b p, v.bounded)) (λ _. v.below i q);
    apart =
        replace-apart r r.free_count b rest v (λ i q _. q)
          (λ i q n. elim (v.apart b i p q n) [
            | inl d ↦ inl (omega (arith, v.below b p, v.bounded))
            | inr d ↦ inr (omega (arith, v.below b p, v.bounded))
          ]);
  },
  record {
    below = omega (arith, v.below b p);
    outside = λ i q.
        update_cases (λ (x : FreeRun). Disjoint (r.runs b).off (want * sheet_align) x.off (span x))
          r.runs b rest i (λ _. inl (omega (arith, v.below b p, v.bounded)))
          (λ n. elim (v.apart b i p q n) [ inl d ↦ inl (omega arith) | inr d ↦ inr d ]);
  },
)
  where
    rest : FreeRun
    rest = record {
      off = add64 (r.runs b).off (want * sheet_align);
      granules = (r.runs b).granules - want;
    }

-- A whole run is given away, and the last run takes its place.
swap-Takes :
    (r : Reserve) (want b : ℕ)
    → IsApart r
    → b < r.free_count
    → want ≤ (r.runs b).granules
    → Takes want (
      record r {
        runs = update r.runs b (r.runs (r.free_count - 1));
        free_count = r.free_count - 1;
      },
      some (r.runs b).off,
    )
swap-Takes r want b v p w = (
  record {
    bounded = v.bounded;
    below = λ i q.
        update_cases (λ (x : FreeRun). x.off + span x ≤ r.offset) r.runs b (r.runs last) i
          (λ _. v.below last (omega arith)) (λ _. v.below i (omega arith));
    apart =
        replace-apart r last b (r.runs last) v (λ i q _. omega arith)
          (λ i q n. v.apart last i (omega arith) (omega arith) (omega arith));
  },
  record {
    below = omega (arith, v.below b p);
    outside = λ i q.
        update_cases (λ (x : FreeRun). Disjoint (r.runs b).off (want * sheet_align) x.off (span x))
          r.runs b (r.runs last) i (λ e. narrow last (v.apart b last p (omega arith) (omega arith)))
          (λ n. narrow i (v.apart b i p (omega arith) n));
  },
)
  where
    last : ℕ
    last = r.free_count - 1

    narrow :
        (i : ℕ)
        → Disjoint (r.runs b).off (span (r.runs b)) (r.runs i).off (span (r.runs i))
        → Disjoint (r.runs b).off (want * sheet_align) (r.runs i).off (span (r.runs i))
    narrow i (inl d) = inl (omega arith)
    narrow i (inr d) = inr d

-- Where the free runs lie below the cursor and do not overlap, the granules that `__va_reuse`
-- gives lie below the cursor and outside the free runs that are left, and these still do not
-- overlap, also when it gives none.
pub reuse-Takes : (r : Reserve) (want : ℕ) → IsApart r → Takes want (reuse r want)
unfolding reuse take_run
reuse-Takes r want v =
    taken (best_run r.runs want r.free_count none) (best_run-best r.runs want r.free_count)
  where
    taken :
        (o : Option ℕ)
        → BestFit r.runs want (λ i. i < r.free_count) o
        → Takes want (take_run r want o)
    taken none b = v
    taken (some b) (p, w, _) =
        if_cases (λ (o : Reserve × Option ℕ). Takes want o) (ltb want (r.runs b).granules)
          (λ e. split-Takes r want b v p (lt-of-ltb want (r.runs b).granules e))
          (λ e. swap-Takes r want b v p w)
