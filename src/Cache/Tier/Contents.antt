-- ===== src/Cache/Tier/Contents.antt =====
-- What the updates of `__tier_tcache` (src/tcache.hpp) do to the entries that it holds.
use mathlib.Core.List.{Perm, perm_append_singleton, append-nil}
use mathlib.Core.List.Perm
use abcmalloc.Base.{
  ℕ, zero, suc, ◌+◌, ◌<◌, ◌≤◌, ◌^◌, ◌≡◌, refl, ◌∙◌, sym, ap, subst, Bool, true, false, ◌==◌,
  if◌then◌else◌, some, [], ◌∷◌, ◌++◌, arith, inl, inr, Bool-cases, if_cases, eq-of-==, ne-of-==,
  leb-of-lt, ==_self, update, first_cells, first_cells-congr, first_cells-update,
  first_cells-add_one, update_self, update-ne, leb-of-le, ==_ne, filter_by, filter_by-append, sub32,
}
use abcmalloc.Cache.Tier.{
  TierCache, CacheChunk, scan_down, probe, pop_at, outside, invalidate_from, invalidate_range,
  entry, contents, pushed, push,
}

-- The entries of a cache whose cell `n` was filled.
fill :
    (c c' : TierCache) (n : ℕ) (x : ℕ × ℕ)
    → ((j : ℕ) → j < n → entry c' j ≡ entry c j)
    → entry c' n ≡ x
    → first_cells (entry c') (n + 1) ≡ first_cells (entry c) n ++ (x ∷ [])
fill c c' n x same new =
    first_cells-add_one (entry c') n
    ∙ (λ i. first_cells-congr (entry c') (entry c) n same i ++ (new i ∷ []))

-- `push` on a cache with room puts the entry last; on a full one it refuses and changes nothing.
pub push-contents :
    (slots : ℕ) (c : TierCache) (p sz : ℕ)
    → let (c', done) = push slots c p sz in
      (c.count < slots → (done ≡ true) × (contents c' ≡ contents c ++ ((p, sz) ∷ [])))
      × (slots ≤ c.count → (done ≡ false) × (c' ≡ c))
unfolding push
push-contents slots c p sz = (
  λ h. rw (leb-of-lt slots c.count h) (
    refl,
    fill c (pushed c p sz) c.count (p, sz) (λ j l. ground (arith, ==_ne c.count j (omega arith)))
        (ground (arith, ==_self c.count)),
  ),
  λ h. rw (leb-of-le slots c.count h) (refl, refl),
)

-- Taking an entry out of an array, with another value in its place.
swap_remove-perm {ℓ} :
    {A : Type ℓ} (f : ℕ → A) (v : A) (n idx : ℕ)
    → idx < n
    → Perm (f idx ∷ first_cells (update f idx v) n) (v ∷ first_cells f n)
swap_remove-perm f v zero idx h = elim h [ ]
swap_remove-perm {A} f v (suc n) idx h = elim (Bool-cases (idx == n)) [
  | inl e ↦
      subst (λ k. Perm (f k ∷ first_cells (update f k v) (suc n)) (v ∷ first_cells f (suc n)))
        (sym (eq-of-== idx n e))
        (rw (first_cells-update f n v n (omega arith), update_self f n v) at_end)
  | inr e ↦ rw (update-ne f idx v n (ne-of-== idx n e)) (
      Perm.append (swap_remove-perm f v n idx (omega (arith, ne-of-== idx n e)))
        (Perm.refl (f n ∷ [])))
]
  where
    at_end : Perm (f n ∷ (first_cells f n ++ (v ∷ []))) (v ∷ (first_cells f n ++ (f n ∷ [])))
    at_end = Perm.trans (Perm.cons (f n) (perm_append_singleton v (first_cells f n))) (
        Perm.trans (Perm.swap v (f n) (first_cells f n))
          (Perm.cons v (Perm.symm (perm_append_singleton (f n) (first_cells f n)))))

-- A write to both arrays is a write to the array of entries.
entry-update :
    (c : TierCache) (idx p sz n j : ℕ)
    → entry (record c { ptr = update c.ptr idx p; size = update c.size idx sz; count = n }) j
      ≡ update (entry c) idx (p, sz) j
entry-update c idx p sz n j = ground arith

-- `pop_at` answers the entry at a valid index, and what stays is the rest of the entries, in an
-- order that may differ.
pub pop_at-perm :
    (c : TierCache) (idx : ℕ)
    → idx < c.count
    → c.count < 2 ^ 32
    → let (c', out) = pop_at c idx in
      Perm ((out.ptr, out.size) ∷ contents c') (contents c) × (c'.count + 1 ≡ c.count)
unfolding pop_at
pop_at-perm c idx h w =
    if_cases Popped (idx == last)
      (λ e. (
        rw before (
            Perm.symm (
              rw (eq-of-== idx last e)
                (perm_append_singleton (entry c last) (first_cells (entry c) last)))),
        one_less,
      ))
      (λ e. (
        rw before (
            subst
              (λ xs. Perm (entry c idx ∷ xs) (first_cells (entry c) last ++ (entry c last ∷ [])))
              (sym (
                first_cells-congr _ _ last
                  (λ j _. entry-update c idx (c.ptr last) (c.size last) last j)))
              (Perm.trans
                (swap_remove-perm (entry c) (entry c last) last idx
                  (omega (arith, ne-of-== idx last e)))
                (Perm.symm (perm_append_singleton (entry c last) (first_cells (entry c) last))))),
        one_less,
      ))
  where
    last : ℕ
    last = sub32 c.count 1

    one_less : last + 1 ≡ c.count
    one_less = omega arith

    before : contents c ≡ first_cells (entry c) last ++ (entry c last ∷ [])
    before = ap (first_cells (entry c)) (sym one_less) ∙ first_cells-add_one (entry c) last

    Popped : TierCache × CacheChunk → Type 0
    Popped (c', out) =
        Perm ((out.ptr, out.size) ∷ contents c') (contents c) × (c'.count + 1 ≡ c.count)

-- The loop of `invalidate_range` at entry `r`: the first `w` cells hold what is kept of the first
-- `r` entries of `c`, and the cells from `r` on are those of `c`.
record Kept (lo hi : ℕ) (c : TierCache) (r w : ℕ) (d : TierCache) : Type 0 where
  below : w ≤ r
  kept : first_cells (entry d) w ≡ filter_by (λ e. outside lo hi e.0) (first_cells (entry c) r)
  ahead : (j : ℕ) → r ≤ j → entry d j ≡ entry c j

-- The cache after entry `r` was copied to cell `w`, if that is another cell.
abbrev copied : TierCache → (w r : ℕ) → TierCache
copied d w r =
    if w == r
    then d
    else record d { ptr = update d.ptr w (d.ptr r); size = update d.size w (d.size r) }

entry-copied :
    (d : TierCache) (w r j : ℕ) → entry (copied d w r) j ≡ update (entry d) w (entry d r) j
entry-copied d w r j = elim (Bool-cases (w == r)) [
  | inl e ↦ rw e (same (eq-of-== w r e))
  | inr e ↦ rw e (entry-update d w (d.ptr r) (d.size r) d.count j)
]
  where
    same : w ≡ r → entry d j ≡ update (entry d) w (entry d r) j
    same e =
        if_cases (λ x. entry d j ≡ x) (w == j) (λ h. ap (entry d) (sym (eq-of-== w j h) ∙ e))
          (λ _. refl)

-- What the test keeps of the first `r + 1` entries.
filter_cells-add_one :
    (t : ℕ × ℕ → Bool) (f : ℕ → ℕ × ℕ) (r : ℕ)
    → filter_by t (first_cells f (r + 1)) ≡ filter_by t (first_cells f r) ++ filter_by t (f r ∷ [])
filter_cells-add_one t f r =
    ap (filter_by t) (first_cells-add_one f r) ∙ filter_by-append t (first_cells f r) (f r ∷ [])

module _ (lo hi : ℕ) (c : TierCache) where
  keep_one :
      (d : TierCache) (r w : ℕ)
      → outside lo hi (d.ptr r) ≡ true
      → Kept lo hi c r w d
      → Kept lo hi c (r + 1) (w + 1) (copied d w r)
  keep_one d r w e v = record {
    below = omega (arith, v.below);
    kept =
        fill d (copied d w r) w (entry d r)
          (λ j p. entry-copied d w r j ∙ update-ne (entry d) w (entry d r) j (omega arith))
          (entry-copied d w r w ∙ update_self (entry d) w (entry d r))
        ∙ (λ i. v.kept i ++ (v.ahead r (omega arith) i ∷ []))
        ∙ sym (
            filter_cells-add_one (λ x. outside lo hi x.0) (entry c) r
            ∙ ap (λ xs. filter_by (λ x. outside lo hi x.0) (first_cells (entry c) r) ++ xs) passes);
    ahead = λ j p.
        entry-copied d w r j
        ∙ update-ne (entry d) w (entry d r) j (omega (arith, v.below))
        ∙ v.ahead j (omega arith);
  }
    where
      test : outside lo hi (c.ptr r) ≡ true
      test = ap (λ x. outside lo hi x.0) (sym (v.ahead r (omega arith))) ∙ e

      passes : filter_by (λ x. outside lo hi x.0) (entry c r ∷ []) ≡ entry c r ∷ []
      passes = rw test

  drop_one :
      (d : TierCache) (r w : ℕ)
      → outside lo hi (d.ptr r) ≡ false
      → Kept lo hi c r w d
      → Kept lo hi c (r + 1) w d
  drop_one d r w e v = record {
    below = omega (arith, v.below);
    kept =
        v.kept
        ∙ sym (
            filter_cells-add_one (λ x. outside lo hi x.0) (entry c) r
            ∙ ap (λ xs. filter_by (λ x. outside lo hi x.0) (first_cells (entry c) r) ++ xs) fails
            ∙ append-nil _);
    ahead = λ j p. v.ahead j (omega arith);
  }
    where
      test : outside lo hi (c.ptr r) ≡ false
      test = ap (λ x. outside lo hi x.0) (sym (v.ahead r (omega arith))) ∙ e

      fails : filter_by (λ x. outside lo hi x.0) (entry c r ∷ []) ≡ []
      fails = rw test

  invalidate_from-Kept :
      (d : TierCache) (left r w n : ℕ)
      → r + left ≡ n
      → Kept lo hi c r w d
      → let (d', w') = invalidate_from lo hi d left r w in Kept lo hi c n w' d'
  unfolding invalidate_from
  invalidate_from-Kept d zero r w n e v = subst (λ k. Kept lo hi c k w d) {x = r} (omega arith) v
  invalidate_from-Kept d (suc left) r w n e v = elim (Bool-cases (outside lo hi (d.ptr r))) [
    | inl h ↦
        rw (h, invalidate_from)
          (invalidate_from-Kept (copied d w r) left (r + 1) (w + 1) n (omega arith)
            (keep_one d r w h v))
    | inr h ↦
        rw (h, invalidate_from)
          (invalidate_from-Kept d left (r + 1) w n (omega arith) (drop_one d r w h v))
  ]

-- `invalidate_range` keeps exactly the entries whose pointers lie outside the range, in order.
pub invalidate_range-contents :
    (c : TierCache) (lo hi : ℕ)
    → contents (invalidate_range c lo hi) ≡ filter_by (λ e. outside lo hi e.0) (contents c)
unfolding invalidate_range
invalidate_range-contents c lo hi =
    (invalidate_from-Kept lo hi c c c.count 0 0 c.count (omega arith)
      (record { below = omega arith; kept = refl; ahead = λ j _. refl })).kept

pub scan_down-hit : (test : ℕ → Bool) (n : ℕ) → test n ≡ true → scan_down test (n + 1) ≡ some n
unfolding scan_down
scan_down-hit test n e = ap (scan_down test) {x = n + 1} {y = suc n} (omega arith) ∙ rw e

-- A block pushed on a cache with room is what a probe for its size and `pop_at` give back next, and
-- the entries are then those from before.
pub push-probe-pop_at :
    (slots : ℕ) (c : TierCache) (p sz : ℕ)
    → c.count < slots
    → slots < 2 ^ 32
    → let c' = (push slots c p sz).0 in
      (probe c' sz ≡ some c.count)
      × ((pop_at c' c.count).1 ≡ record { ptr = p; size = sz })
      × (contents (pop_at c' c.count).0 ≡ contents c)
unfolding push probe pop_at
push-probe-pop_at slots c p sz h w = rw (leb-of-lt slots c.count h) (hit, chunk, rest)
  where
    open c use {count}

    last : sub32 (count + 1) 1 ≡ count
    last = omega arith

    here : update c.size count sz count ≡ sz
    here = update_self c.size count sz

    hit : probe (pushed c p sz) sz ≡ some count
    hit =
        rw (==_ne (count + 1) 0 (omega arith))
          (scan_down-hit (λ i. update c.size count sz i == sz) count (rw here (==_self sz)))

    popped :
        pop_at (pushed c p sz) count
        ≡ (record (pushed c p sz) { count = count }, record { ptr = p; size = sz })
    popped = rw (last, ==_self count)

    chunk : (pop_at (pushed c p sz) count).1 ≡ record { ptr = p; size = sz }
    chunk = ap (λ r. r.1) popped

    rest : contents (pop_at (pushed c p sz) count).0 ≡ contents c
    rest =
        ap (λ r. contents r.0) popped
        ∙ first_cells-congr _ (entry c) count (λ j l. ground (arith, ==_ne count j (omega arith)))
