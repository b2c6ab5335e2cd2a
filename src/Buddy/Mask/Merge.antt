-- ===== src/Buddy/Mask/Merge.antt =====
-- `__merge_and_free` of src/free_list.hpp keeps the bitmap in step with the lists.
use abcmalloc.Base.{
  ℕ, zero, suc, ◌+◌, ◌-◌, ◌<◌, ◌≡◌, ◌≢◌, true, arith, ltb, if_cases, lt-of-ltb, bit_xor, sub64,
}
use abcmalloc.Buddy.State.{Buddy, order_size}
use abcmalloc.Buddy.FreeList.{
  freelist_remove, Merge, joined, merge_round, merge_loop, merge_and_free,
}
use abcmalloc.Buddy.Frame.{
  freelist_remove-SameTags, freelist_push-SameRegion, SameRegion, SameRegion-refl, SameRegion-trans,
}
use abcmalloc.Buddy.Mask.Lists.{Heads, freelist_remove-Heads, freelist_push-Heads}

-- What the loop keeps, started at the list `s`.
record Merging (s : Buddy) (m : Merge) : Type 0 where
  agrees : Heads m.list
  order : m.order < 64
  region : SameRegion s m.list

module _ (k : ℕ) (s : Buddy) (orders : s.max_order < 65) (based : s.base ≢ 0) where
  joined-Merging :
      (m : Merge) (b : ℕ) (t : Buddy)
      → Heads t
      → SameRegion s t
      → m.order < 63
      → Merging s (joined k m b t)
  unfolding joined
  joined-Merging m b t a r p = ground arith

  merge_round-Merging : (m : Merge) → Merging s m → m.order < 63 → Merging s (merge_round k m).0
  unfolding merge_round
  merge_round-Merging m v p = ground (
    arith,
    freelist_remove-Heads k m.list (m.list.base + bit_xor m.off (order_size k m.order)) m.order
        v.agrees v.order (λ e. based (omega (arith, v.region.base))),
    freelist_remove-SameTags k m.list (m.list.base + bit_xor m.off (order_size k m.order)) m.order,
    SameRegion-trans v.region
        (freelist_remove-SameTags k m.list (m.list.base + bit_xor m.off (order_size k m.order))
          m.order).region,
    joined-Merging m (bit_xor m.off (order_size k m.order))
        (freelist_remove k m.list (m.list.base + bit_xor m.off (order_size k m.order)) m.order).0,
  )

  merge_loop-Merging : (rounds : ℕ) (m : Merge) → Merging s m → Merging s (merge_loop k rounds m)
  unfolding merge_loop
  merge_loop-Merging zero m v = v
  merge_loop-Merging (suc rounds) m v =
      if_cases (Merging s) (ltb m.order (m.list.max_order - 1))
        (λ e.
          if_cases (Merging s) (merge_round k m).1
            (λ _. merge_loop-Merging rounds (merge_round k m).0 (round e)) (λ _. round e))
        (λ _. v)
    where
      round : ltb m.order (m.list.max_order - 1) ≡ true → Merging s (merge_round k m).0
      round e =
          merge_round-Merging m v
            (omega (arith, lt-of-ltb m.order (m.list.max_order - 1) e, v.region.max_order))

  merged :
      (addr o : ℕ)
      → Heads s
      → o < 64
      → Merging s
          (merge_loop k s.max_order (record { off = sub64 addr s.base; order = o; list = s }))
  merged addr o a p =
      merge_loop-Merging s.max_order _
        (record { agrees = a; order = p; region = SameRegion-refl s })

  pub merge_and_free-Heads : (addr o : ℕ) → Heads s → o < 64 → Heads (merge_and_free k s addr o)
  unfolding merge_and_free
  merge_and_free-Heads addr o a p =
      let v = merged addr o a p in freelist_push-Heads k _ _ _ _ v.agrees v.order (omega arith)

  pub merge_and_free-SameRegion :
      (addr o : ℕ) → Heads s → o < 64 → SameRegion s (merge_and_free k s addr o)
  unfolding merge_and_free
  merge_and_free-SameRegion addr o a p =
      SameRegion-trans (merged addr o a p).region (freelist_push-SameRegion k _ _ _ _)
