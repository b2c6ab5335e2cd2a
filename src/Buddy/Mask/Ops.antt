-- ===== src/Buddy/Mask/Ops.antt =====
-- Every call of `__buddy_list` (src/free_list.hpp) keeps the bitmap in step with the lists.
use abcmalloc.Base.{
  ℕ, ◌+◌, ◌-◌, ◌/◌, ◌^◌, ◌<◌, ◌≤◌, ◌≡◌, ◌≢◌, sym, ap, ◌∙◌, true, false, not, arith, ◌==◌, ltb, leb,
  ◌||◌, if_cases, le-of-leb-false, eq-of-==, ne-of-==, bit_and, List, [], ◌∷◌, inl, inr, Bool-cases,
}
use abcmalloc.Base.Bits.{bit, bit-shr, bit-zero}
use abcmalloc.Base.Bits.Count.{ctz, bit-ctz, bit-below_ctz}
use abcmalloc.Buddy.State.{
  Buddy, Chunk, RetFlag, hdr_offset, hdr_of_tagged, block_free, block_alloc, order_for_size,
  find_free_order,
}
use abcmalloc.Buddy.FreeList.{take_and_split, merge_and_free, tcache_push, tcache_pop}
use abcmalloc.Buddy.Alloc.{
  hand_out, temporal_slot, allocate_order, allocate, activate, temporal_fresh, temporal_order,
  temporal_allocate, allocate_exact,
}
use abcmalloc.Buddy.Free.{
  deactivate, uncount, free_temporal, give_back, deallocate, deallocate_chunk, tombstone,
  tombstone_chunk, reallocate, is_allocated, bad_order, has_flag,
}
use abcmalloc.Buddy.Ops.{
  Op, allocates, allocates_temporal, allocates_exact, tombstones, deallocates, tombstones_chunk,
  deallocates_chunk, reallocates, step, run,
}
use abcmalloc.Buddy.Frame.{take_and_split-SameRegion}
use abcmalloc.Buddy.Mask.{MaskAgrees}
use abcmalloc.Buddy.Mask.Lists.{take_and_split-Heads}
use abcmalloc.Buddy.Mask.Merge.{merge_and_free-Heads, merge_and_free-SameRegion}

-- The lowest bit at or above `o` of a mask that has one.
bit-found :
    (mask o : ℕ) → mask < 2 ^ 64 → mask / 2 ^ o ≢ 0 → bit mask (o + ctz 64 (mask / 2 ^ o)) ≡ true
bit-found mask o p q =
    sym (bit-shr o (ctz 64 (mask / 2 ^ o)) mask) ∙ bit-ctz 64 (mask / 2 ^ o) q (omega arith)

-- An order that the bitmap finds is not below the one asked for, and its list is not empty.
pub find_free_order-nonempty :
    (s : Buddy) (o : ℕ)
    → MaskAgrees s
    → find_free_order s o < s.max_order
    → (o ≤ find_free_order s o) × (s.free_lists (find_free_order s o) ≢ 0)
unfolding find_free_order
find_free_order-nonempty s o v h =
    ground (arith, bit-found s.free_mask o, v.agrees.names (o + ctz 64 (s.free_mask / 2 ^ o)))

-- A bit between `o` and the order that is found is not set.
bit-skipped :
    (s : Buddy) (o j : ℕ) → o ≤ j → j < find_free_order s o → j < 64 → bit s.free_mask j ≡ false
unfolding find_free_order
bit-skipped s o j p q w =
    ap (bit s.free_mask) {x = j} {y = o + (j - o)} (omega arith)
    ∙ sym (bit-shr o (j - o) s.free_mask)
    ∙ low
  where
    low : bit (s.free_mask / 2 ^ o) (j - o) ≡ false
    low = elim (Bool-cases (s.free_mask / 2 ^ o == 0)) [
      | inl z ↦ ap (λ m. bit m (j - o)) (eq-of-== _ 0 z) ∙ bit-zero (j - o)
      | inr z ↦ bit-below_ctz 64 (s.free_mask / 2 ^ o) (j - o) (ground arith)
    ]

-- Where the mask agrees with the lists, `find_free_order` finds the first list from `o` on that
-- is not empty: those it passes are empty, also where it finds none and answers `max_order`; what
-- it finds below `max_order` is at least `o` and not empty.
pub find_free_order-first :
    (s : Buddy) (o : ℕ)
    → MaskAgrees s
    → ((j : ℕ) → o ≤ j → j < find_free_order s o → j < 64 → s.free_lists j ≡ 0)
      × (find_free_order s o < s.max_order
          → (o ≤ find_free_order s o) × (s.free_lists (find_free_order s o) ≢ 0))
find_free_order-first s o v = (
  λ j p q w. ground (arith, bit-skipped s o j p q w, v.agrees.names j w),
  find_free_order-nonempty s o v,
)

module _ (k : ℕ) where
  hand_out-MaskAgrees :
      (s : Buddy) (blk o flags : ℕ) → MaskAgrees s → MaskAgrees (hand_out k s blk o flags)
  unfolding hand_out
  hand_out-MaskAgrees s blk o flags v = record { agrees = v.agrees; orders = v.orders }

  activate-MaskAgrees : (s : Buddy) (blk o r : ℕ) → MaskAgrees s → MaskAgrees (activate k s blk o r)
  unfolding activate hand_out
  activate-MaskAgrees s blk o r v = record { agrees = v.agrees; orders = v.orders }

  take_and_split-MaskAgrees :
      (s : Buddy) (from target : ℕ)
      → MaskAgrees s
      → from < s.max_order
      → target < 64
      → s.free_lists from ≢ 0
      → MaskAgrees (take_and_split k s from target).0
  take_and_split-MaskAgrees s from target v p q r = record {
    agrees = take_and_split-Heads k s from target v.agrees (omega arith) q r;
    orders = omega (arith, (take_and_split-SameRegion k s from target).max_order, v.orders);
  }

  -- Cutting down the block that the bitmap finds.
  found-MaskAgrees :
      (s : Buddy) (o : ℕ)
      → MaskAgrees s
      → leb s.max_order (find_free_order s o) ≡ false
      → MaskAgrees (take_and_split k s (find_free_order s o) o).0
  found-MaskAgrees s o v e =
      let found = le-of-leb-false s.max_order (find_free_order s o) e in
      let (above, full) = find_free_order-nonempty s o v found in
      take_and_split-MaskAgrees s (find_free_order s o) o v found (omega (arith, v.orders)) full

  allocate_order-MaskAgrees :
      (s : Buddy) (o : ℕ) → MaskAgrees s → MaskAgrees (allocate_order k s o).0
  unfolding allocate_order
  allocate_order-MaskAgrees s o v =
      if_cases (λ (r : Buddy × Chunk). MaskAgrees r.0) (leb s.max_order (find_free_order s o))
        (λ _. v) (λ e. hand_out-MaskAgrees _ _ o block_alloc (found-MaskAgrees s o v e))

  pub allocate-MaskAgrees : (s : Buddy) (n : ℕ) → MaskAgrees s → MaskAgrees (allocate k s n).0
  unfolding allocate
  allocate-MaskAgrees s n v =
      ground (arith, allocate_order-MaskAgrees s (order_for_size k (n + hdr_offset)) v)

  tcache_pop-MaskAgrees : (s : Buddy) (o : ℕ) → MaskAgrees s → MaskAgrees (tcache_pop k s o).0
  unfolding tcache_pop
  tcache_pop-MaskAgrees s o v = ground arith

  temporal_fresh-MaskAgrees :
      (s : Buddy) (o r : ℕ) → MaskAgrees s → MaskAgrees (temporal_fresh k s o r).0
  unfolding temporal_fresh
  temporal_fresh-MaskAgrees s o r v =
      let w = tcache_pop-MaskAgrees s o v in
      let popped = (tcache_pop k s o).0 in
      if_cases (λ (r : Buddy × Chunk). MaskAgrees r.0) (not ((tcache_pop k s o).1 == 0))
        (λ _. activate-MaskAgrees popped _ o r w)
        λ _.
          if_cases (λ (r : Buddy × Chunk). MaskAgrees r.0)
            (leb popped.max_order (find_free_order popped o)) (λ _. w)
            λ e. activate-MaskAgrees _ _ o r (found-MaskAgrees popped o w e)

  temporal_order-MaskAgrees :
      (s : Buddy) (o : ℕ) → MaskAgrees s → MaskAgrees (temporal_order k s o).0
  unfolding temporal_order
  temporal_order-MaskAgrees s o v =
      if_cases (λ (r : Buddy × Chunk). MaskAgrees r.0) (s.active o (temporal_slot s o) == 0)
        (λ _. temporal_fresh-MaskAgrees s o (temporal_slot s o) v)
        (λ _. record { agrees = v.agrees; orders = v.orders })

  temporal_allocate-MaskAgrees :
      (s : Buddy) (n : ℕ) → MaskAgrees s → MaskAgrees (temporal_allocate k s n).0
  unfolding temporal_allocate
  temporal_allocate-MaskAgrees s n v =
      ground (arith, temporal_order-MaskAgrees s (order_for_size k (n + hdr_offset)) v)

  allocate_exact-MaskAgrees :
      (s : Buddy) (n : ℕ) → MaskAgrees s → MaskAgrees (allocate_exact k s n).0
  unfolding allocate_exact
  allocate_exact-MaskAgrees s n v =
      if_cases P (s.base == 0) (λ _. v)
        λ _.
          if_cases P (ltb n (2 ^ k)) (λ _. v)
            λ _.
              if_cases P (not (bit_and n (n - 1) == 0)) (λ _. v)
                λ _.
                  if_cases P (leb s.max_order o) (λ _. v)
                    λ e.
                      if_cases P (s.free_lists o == 0) (λ _. v)
                        λ z.
                          let below = le-of-leb-false s.max_order o e in
                          hand_out-MaskAgrees _ _ o block_alloc (
                            take_and_split-MaskAgrees s o o v below (omega (arith, v.orders))
                              (ne-of-== (s.free_lists o) 0 z))
    where
      P : Buddy × Chunk → Type 0
      P r = MaskAgrees r.0

      o : ℕ
      o = order_for_size k n

  tombstone-MaskAgrees : (s : Buddy) (p : ℕ) → MaskAgrees s → MaskAgrees (tombstone k s p).0
  unfolding tombstone
  tombstone-MaskAgrees s p v = ground arith

  merge_and_free-MaskAgrees :
      (s : Buddy) (addr o : ℕ)
      → MaskAgrees s
      → s.base ≢ 0
      → o < 64
      → MaskAgrees (merge_and_free k s addr o)
  merge_and_free-MaskAgrees s addr o v b p = record {
    agrees = merge_and_free-Heads k s v.orders b addr o v.agrees p;
    orders =
        omega
          (arith, (merge_and_free-SameRegion k s v.orders b addr o v.agrees p).max_order, v.orders);
  }

  -- Emptying a slot, pushing on the cache and counting leave the lists.
  cached-MaskAgrees :
      (s : Buddy) (addr o flags : ℕ)
      → MaskAgrees s
      → MaskAgrees (tcache_push (deactivate s addr o) addr o).0
        × ((tcache_push (deactivate s addr o) addr o).0.base ≡ s.base)
  unfolding tcache_push deactivate
  cached-MaskAgrees s addr o flags v = ground arith

  give_back-MaskAgrees :
      (s : Buddy) (addr o flags : ℕ)
      → MaskAgrees s
      → s.base ≢ 0
      → o < 64
      → MaskAgrees (give_back k s addr o flags)
  unfolding give_back uncount free_temporal
  give_back-MaskAgrees s addr o flags v b p =
      if_cases MaskAgrees (has_flag flags 4)
        (λ _.
          if_cases MaskAgrees (tcache_push (deactivate counted addr o) addr o).1
            (λ _. record { agrees = cached.0.agrees; orders = cached.0.orders })
            (λ _. merge_and_free-MaskAgrees _ addr o cached.0 (omega (arith, cached.1)) p))
        (λ _. merge_and_free-MaskAgrees counted addr o v' b p)
    where
      counted : Buddy
      counted = uncount k s o flags

      v' : MaskAgrees counted
      v' = record { agrees = v.agrees; orders = v.orders }

      cached :
          MaskAgrees (tcache_push (deactivate counted addr o) addr o).0
          × ((tcache_push (deactivate counted addr o) addr o).0.base ≡ s.base)
      cached = cached-MaskAgrees counted addr o flags v'

  deallocate-MaskAgrees : (s : Buddy) (p : ℕ) → MaskAgrees s → MaskAgrees (deallocate k s p).0
  unfolding deallocate
  deallocate-MaskAgrees s p v =
      if_cases P (not (is_allocated k s p)) (λ _. v)
        λ _.
          if_cases P (bad_order s o) (λ _. v)
            λ good.
              if_cases P (s.base == 0 || p == 0) (λ _. v)
                λ based.
                  if_cases P (flags == block_free) (λ _. v)
                    λ _.
                      give_back-MaskAgrees s p o flags v (ground arith) (ground (arith, v.orders))
    where
      P : Buddy × RetFlag → Type 0
      P r = MaskAgrees r.0

      o : ℕ
      o = s.header_order (hdr_of_tagged k s p)

      flags : ℕ
      flags = s.header_flags (hdr_of_tagged k s p)

  deallocate_chunk-MaskAgrees :
      (s : Buddy) (c : Chunk) → MaskAgrees s → MaskAgrees (deallocate_chunk k s c).0
  unfolding deallocate_chunk
  deallocate_chunk-MaskAgrees s c v = ground (arith, deallocate-MaskAgrees s c.ptr v)

  tombstone_chunk-MaskAgrees :
      (s : Buddy) (c : Chunk) → MaskAgrees s → MaskAgrees (tombstone_chunk k s c).0
  unfolding tombstone_chunk
  tombstone_chunk-MaskAgrees s c v = ground (arith, tombstone-MaskAgrees s c.ptr v)

  reallocate-MaskAgrees :
      (s : Buddy) (c : Chunk) (n : ℕ) → MaskAgrees s → MaskAgrees (reallocate k s c n).0
  unfolding reallocate
  reallocate-MaskAgrees s c n v = ground (
    arith,
    allocate-MaskAgrees s n v,
    deallocate_chunk-MaskAgrees s c v,
    deallocate_chunk-MaskAgrees (allocate k s n).0 c (allocate-MaskAgrees s n v),
  )

  -- Each call of the list keeps the bitmap in step with the heads, whatever its arguments and
  -- whatever the tags and links in memory say.
  pub step-MaskAgrees : (s : Buddy) (op : Op) → MaskAgrees s → MaskAgrees (step k s op)
  unfolding step
  step-MaskAgrees s (allocates n) v = allocate-MaskAgrees s n v
  step-MaskAgrees s (allocates_temporal n) v = temporal_allocate-MaskAgrees s n v
  step-MaskAgrees s (allocates_exact n) v = allocate_exact-MaskAgrees s n v
  step-MaskAgrees s (tombstones p) v = tombstone-MaskAgrees s p v
  step-MaskAgrees s (deallocates p) v = deallocate-MaskAgrees s p v
  step-MaskAgrees s (tombstones_chunk c) v = tombstone_chunk-MaskAgrees s c v
  step-MaskAgrees s (deallocates_chunk c) v = deallocate_chunk-MaskAgrees s c v
  step-MaskAgrees s (reallocates c n) v = reallocate-MaskAgrees s c n v

  pub run-MaskAgrees : (s : Buddy) (ops : List Op) → MaskAgrees s → MaskAgrees (run k s ops)
  unfolding run
  run-MaskAgrees s [] v = v
  run-MaskAgrees s (op ∷ ops) v = run-MaskAgrees (step k s op) ops (step-MaskAgrees s op v)
