-- ===== src/Arena/Small.antt =====
-- `class tlsf_sheet` of src/book.hpp: a sheet whose list is that of src/cache_list.hpp. What it hands out
-- lies in its region.
use abcmalloc.Base.{
  ℕ, ◌+◌, ◌^◌, ◌<◌, ◌≤◌, ◌≡◌, ◌≢◌, refl, ◌∙◌, Bool, true, false, ◌||◌, ltb, ◌==◌, update, sub64,
  if_cases, Option, none, some, arith,
}
use abcmalloc.Buddy.State.{Chunk, null_chunk, block_alloc}
use abcmalloc.Sheet.{Book, Sheet, mark, empty, or_failed}
use abcmalloc.Tlsf.State.{Tlsf, idx, adjusted_block_size, mapping_search, min_block}
use abcmalloc.Tlsf.FreeList.{
  fl_insert, unmark_if_empty, take_head, take_picked, pick_list, find_free, write_rest, try_split,
}
use abcmalloc.Tlsf.Alloc.{construct, allocate, temporal_allocate, cut_out, hand_out}
use abcmalloc.Tlsf.Free.{
  deallocate, deallocate_chunk, tombstone, tombstone_chunk, is_allocated, is_tombstoned,
  is_temporal, block_size, available,
}
use abcmalloc.Tlsf.Run.{Reach, after, allocated, taken}
use abcmalloc.Tlsf.Answers.{allocate-Fits}
use abcmalloc.Arena.Insert.{Serves}

-- `__tlsf_list`, as a `Book`; `min` is the size class, and a list is built in memory `m`.
abbrev pub tlsf_book : (min : ℕ) → (is_zero : Chunk → Bool) → (m : Tlsf) → Book Tlsf
tlsf_book min is_zero m = record {
  construct = construct min is_zero m;
  allocate = allocate;
  temporal_allocate = temporal_allocate;
  deallocate = deallocate;
  deallocate_chunk = deallocate_chunk;
  tombstone = tombstone;
  tombstone_chunk = tombstone_chunk;
  is_allocated = is_allocated;
  is_tombstoned = is_tombstoned;
  is_temporal = is_temporal;
  block_size = block_size;
  available = available;
  total = λ s. s.total;
  used = λ s. s.allocated_bytes;
  tombstoned = λ s. s.tombstoned_bytes;
}

-- The lists manage the same region.
SameRegion : Tlsf → Tlsf → Type 0
SameRegion s t = (t.base ≡ s.base) × (t.total ≡ s.total)

take_picked-SameRegion : (s : Tlsf) (o : Option (ℕ × ℕ)) → SameRegion s (take_picked s o).0
unfolding SameRegion take_picked take_head unmark_if_empty
take_picked-SameRegion s none = (refl, refl)
take_picked-SameRegion s (some (f, j)) =
    if_cases (λ (t : Tlsf). (t.base ≡ s.base) × (t.total ≡ s.total))
      (update s.heads (idx f j) (s.next_free (s.heads (idx f j))) (idx f j) == 0)
      (λ _. (refl, refl)) (λ _. (refl, refl))

cut_out-SameRegion : (s : Tlsf) (block needed f : ℕ) → SameRegion s (cut_out s block needed f)
unfolding SameRegion cut_out hand_out try_split fl_insert write_rest
cut_out-SameRegion s block needed f =
    if_cases (λ (t : Tlsf). (t.base ≡ s.base) × (t.total ≡ s.total))
      (ltb (sub64 (s.bsize block) needed) min_block) (λ _. (refl, refl)) (λ _. (refl, refl))

allocate-SameRegion : (s : Tlsf) (n : ℕ) → SameRegion s (allocate s n).0
unfolding SameRegion allocate find_free
allocate-SameRegion s n =
    let needed = adjusted_block_size n in
    let picked = take_picked-SameRegion s (pick_list s (mapping_search needed)) in
    let cut = cut_out-SameRegion (find_free s needed).0 (find_free s needed).1 needed block_alloc in
    if_cases P (s.base == 0) (λ _. (refl, refl))
      λ _.
        if_cases P (needed == 0) (λ _. (refl, refl))
          λ _.
            if_cases P ((find_free s needed).1 == 0) (λ _. picked)
              (λ _. (cut.0 ∙ picked.0, cut.1 ∙ picked.1))
  where
    P : Tlsf × Chunk → Type 0
    P r = (r.0.base ≡ s.base) × (r.0.total ≡ s.total)

-- A list that was reached by the steps of Tlsf/Run, with its region between two addresses.
pub record IsWithin (lo hi : ℕ) (s : Tlsf) : Type 0 where
  pub live : ℕ → Bool
  pub reached : Reach s live
  pub above : lo ≤ s.base
  pub below : s.base + 32 + s.total ≤ hi

-- What a request is answered with lies in the region, unless it is the null pointer.
allocate-inside :
    {lo hi : ℕ} {s : Tlsf}
    → IsWithin lo hi s
    → (n : ℕ) → n < 2 ^ 62
    → (allocate s n).1.ptr ≢ 0
    → (lo ≤ (allocate s n).1.ptr) × ((allocate s n).1.ptr < hi)
allocate-inside {lo} {hi} {s} w n p ne =
    let fits = allocate-Fits w.reached n p ne in
    (omega (arith, fits.above, w.above), omega (arith, fits.long, fits.below, w.below))

allocate-IsWithin :
    {lo hi : ℕ} {s : Tlsf}
    → IsWithin lo hi s
    → (n : ℕ) → n < 2 ^ 62
    → IsWithin lo hi (allocate s n).0
unfolding SameRegion
allocate-IsWithin {lo} {hi} {s} w n p =
    let (base, total) = allocate-SameRegion s n in
    record {
      live = taken w.live (allocate s n).1;
      reached = after w.reached (allocated n p);
      above = omega (arith, base, w.above);
      below = omega (arith, base, total, w.below);
    }

-- A sheet over a list of src/cache_list.hpp, reached by requests, by returns of blocks that are handed out
-- and by returns that the list refuses, keeps to its region and hands out blocks that lie in it: this is
-- what a tier needs of its sheets.
pub tlsf-Serves :
    (min : ℕ) (m : Tlsf) (is_zero is_invalid : Chunk → Bool)
    → is_zero null_chunk ≡ true
    → ((c : Chunk) → is_zero c ≡ false → c.ptr ≢ 0)
    → Serves (tlsf_book min is_zero m) is_zero is_invalid (λ lo hi s. IsWithin lo hi s.book)
unfolding mark or_failed
tlsf-Serves min m is_zero is_invalid null_zero nonnull = record {
  stays = λ lo hi s sz w p.
      if_cases (λ (r : Sheet Tlsf × Chunk). IsWithin lo hi r.0.book)
        (empty (tlsf_book min is_zero m) is_zero is_invalid s) (λ _. w)
        (λ _. allocate-IsWithin w sz p);
  inside = λ lo hi s sz w p.
      let c = (allocate s.book sz).1 in
      if_cases (λ (r : Sheet Tlsf × Chunk). is_zero r.1 ≡ false → (lo ≤ r.1.ptr) × (r.1.ptr < hi))
        (empty (tlsf_book min is_zero m) is_zero is_invalid s)
        (λ _ n. absurd (ground (arith, null_zero, n)))
        λ _.
          if_cases (λ (d : Chunk). is_zero d ≡ false → (lo ≤ d.ptr) × (d.ptr < hi))
            (is_zero c || is_invalid c) (λ _ n. absurd (ground (arith, null_zero, n)))
            (λ _ n. allocate-inside w sz p (nonnull c n));
}
