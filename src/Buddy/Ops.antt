-- ===== src/Buddy/Ops.antt =====
-- The calls that change a `__buddy_list` (src/free_list.hpp), and sequences of them.
use abcmalloc.Base.{ℕ, List, [], ◌∷◌}
use abcmalloc.Buddy.State.{Buddy, Chunk}
use abcmalloc.Buddy.Alloc.{allocate, temporal_allocate, allocate_exact}
use abcmalloc.Buddy.Free.{tombstone, tombstone_chunk, deallocate, deallocate_chunk, reallocate}

pub data Op : Type 0 where
  allocates allocates_temporal allocates_exact : ℕ → Op
  tombstones deallocates : ℕ → Op
  tombstones_chunk deallocates_chunk : Chunk → Op
  reallocates : Chunk → ℕ → Op

module _ (k : ℕ) where
  -- The list after one call, with any argument.
  unfoldable pub step : Buddy → Op → Buddy
  step s (allocates n) = (allocate k s n).0
  step s (allocates_temporal n) = (temporal_allocate k s n).0
  step s (allocates_exact n) = (allocate_exact k s n).0
  step s (tombstones p) = (tombstone k s p).0
  step s (deallocates p) = (deallocate k s p).0
  step s (tombstones_chunk c) = (tombstone_chunk k s c).0
  step s (deallocates_chunk c) = (deallocate_chunk k s c).0
  step s (reallocates c n) = (reallocate k s c n).0

  unfoldable pub run : Buddy → List Op → Buddy
  run s [] = s
  run s (op ∷ ops) = run (step s op) ops
