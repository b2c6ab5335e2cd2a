-- ===== src/Tlsf/Valid/Release.antt =====
-- `deallocate` and `tombstone` of src/cache_list.hpp keep the list valid.
use abcmalloc.Base.{
  ℕ, ◌+◌, ◌-◌, ◌≡◌, refl, ◌∙◌, Bool, true, false, ◌==◌, arith, if_cases, not, ==_ne, ltb,
}
use abcmalloc.Buddy.State.{RetFlag, ok, block_alloc, block_free, block_tombstone, block_temporal}
use abcmalloc.Buddy.Free.{has_flag}
use abcmalloc.Tlsf.State.{Tlsf, idx_of, mapping_search, min_block, block_align}
use abcmalloc.Tlsf.FreeList.{coalesce_and_free}
use abcmalloc.Tlsf.Alloc.{class_valid}
use abcmalloc.Tlsf.Free.{
  hdr_at, tombstone, clear_temporal_class, clear_temporal, give_back, deallocate,
}
use abcmalloc.Tlsf.Core.{Core}
use abcmalloc.Tlsf.Valid.{Valid, flagged-Valid}
use abcmalloc.Tlsf.Valid.Merge.{used, Freed, freed}
use abcmalloc.Tlsf.Valid.Merge.Backward.{coalesce_and_free-Freed}

module _ (P : Tlsf → Type 0) (block : ℕ) where
  class_keeps :
      (s : Tlsf) (size : ℕ)
      → ((a : ℕ → ℕ → ℕ) → P (record s { temporal_active = a }))
      → P (clear_temporal_class s block size).0
  unfolding clear_temporal_class
  class_keeps s size h =
      let i = idx_of (mapping_search size) in
      if_cases (λ (r : Tlsf × Bool). P r.0) (not (class_valid s (mapping_search size)))
        (λ _. h s.temporal_active)
        λ _.
          if_cases (λ (r : Tlsf × Bool). P r.0) (s.temporal_active i 0 == block) (λ _. h _)
            λ _.
              if_cases (λ (r : Tlsf × Bool). P r.0) (s.temporal_active i 1 == block) (λ _. h _)
                (λ _. h s.temporal_active)

module _ (P : Tlsf → Type 0) (block : ℕ) where
  -- What holds whatever the temporal ring is, holds after a block was looked for in it.
  clear_keeps :
      (s : Tlsf) (size : ℕ)
      → ((a : ℕ → ℕ → ℕ) → P (record s { temporal_active = a }))
      → P (clear_temporal s block size)
  unfolding clear_temporal
  clear_keeps s size h =
      if_cases P (clear_temporal_class s block size).1 (λ _. class_keeps P block s size h)
        λ _.
          if_cases P (ltb min_block size)
            (λ _.
              class_keeps (λ (t : Tlsf). P (clear_temporal_class t block (size - block_align)).0)
                block s size
                (λ a.
                  class_keeps P block (record s { temporal_active = a }) (size - block_align) h))
            (λ _. class_keeps P block s size h)

module _ {s : Tlsf} {start free : ℕ → Bool} (v : Valid s start free) (block : ℕ)
    (live : used start free block ≡ true) where
  live_start : start block ≡ true
  live_start = ground (arith, live)

  live_not_free : free block ≡ false
  live_not_free = ground (arith, live)

  live_flags : (s.flags block == block_free) ≡ false
  live_flags = v.says block live_start ∙ live_not_free

  live_ptr : hdr_at (block + 32) ≡ block
  live_ptr = omega (
    arith,
    (v.core.tiled.inside block live_start).1,
    (v.core.tiled.sized block live_start).0,
    v.core.in_space,
  )

  -- The accounts and the temporal ring are no part of the invariant.
  coalesce_counted :
      (allocated stones : ℕ) (active : ℕ → ℕ → ℕ)
      → Freed s start free block (
          coalesce_and_free
            (record s {
              allocated_bytes = allocated;
              tombstoned_bytes = stones;
              temporal_active = active;
            })
            block)
  coalesce_counted allocated stones active = again (
      coalesce_and_free-Freed {s = counted} counted-Core block live_start live_not_free
        (record { blocks = λ c h _. v.says c h; low_end = v.low_end; high_end = v.high_end }))
    where
      counted : Tlsf
      counted = record s {
        allocated_bytes = allocated;
        tombstoned_bytes = stones;
        temporal_active = active;
      }

      counted-Core : Core counted start free
      counted-Core = record {
        based = v.core.based;
        in_space = v.core.in_space;
        levels = v.core.levels;
        tiled = v.core.tiled;
        subset = v.core.subset;
        linked = v.core.linked;
        marked = v.core.marked;
      }

      again : {t : Tlsf} → Freed counted start free block t → Freed s start free block t
      again (freed u start' free' w same sizes) = freed u start' free' w same sizes

  give_back-Freed : Freed s start free block (give_back s block)
  unfolding give_back
  give_back-Freed =
      if_cases (λ (t : Tlsf). Freed s start free block (coalesce_and_free t block))
        (has_flag (s.flags block) block_temporal)
        (λ _.
          clear_keeps (λ (t : Tlsf). Freed s start free block (coalesce_and_free t block)) block _
            (s.bsize block) (coalesce_counted _ _))
        (λ _. coalesce_counted _ _ s.temporal_active)

  -- A block that is handed out is taken back, its neighbours are merged, and the others stay as they are.
  pub deallocate-Freed :
      ((deallocate s (block + 32)).1 ≡ ok) × Freed s start free block (deallocate s (block + 32)).0
  unfolding deallocate
  deallocate-Freed =
      rw (live_ptr, ==_ne (block + 32) 0 (omega arith), ==_ne s.base 0 v.core.based, live_flags)
        (refl, give_back-Freed)

  -- A block that is handed out becomes a tombstone, and nothing else changes.
  pub tombstone-Valid : Valid (tombstone s (block + 32)).0 start free
  unfolding tombstone
  tombstone-Valid = rw (live_ptr) (
      if_cases (λ (r : Tlsf × RetFlag). Valid r.0 start free)
        (not (has_flag (s.flags block) block_alloc)) (λ _. v)
        (λ _.
          flagged-Valid v.core block live_start block_tombstone _ _ (omega arith) live_not_free
            (record { blocks = λ c h _. v.says c h; low_end = v.low_end; high_end = v.high_end })))
