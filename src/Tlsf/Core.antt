-- ===== src/Tlsf/Core.antt =====
-- What the steps of `__tlsf_list` (src/cache_list.hpp) keep, for the set `start` of its blocks and
-- the set `free` of those in the free lists. The flags of the blocks are not part of it.
pub mod Lists
pub mod Blocks
pub mod Find
pub mod Merge
use abcmalloc.Base.{
  ℕ, ◌+◌, ◌-◌, ◌*◌, ◌^◌, ◌<◌, ◌≤◌, ◌≡◌, ◌≢◌, refl, sym, ap, ◌∙◌, Bool, true, false, arith, update,
}
use abcmalloc.Tlsf.State.{Tlsf, Class, fi, mapping_insert}
use abcmalloc.Tlsf.Lists.{Linked, list_of}
use abcmalloc.Tlsf.Bitmaps.{Marked}
use abcmalloc.Tlsf.Tiles.{Tiled}
use abcmalloc.Tlsf.Mapping.{mapping_insert-bounds}

pub record Core (s : Tlsf) (start free : ℕ → Bool) : Type 0 where
  pub based : s.base ≢ 0
  pub in_space : s.base + 32 + s.total + 32 ≤ 2 ^ 64
  pub levels : s.fl_count ≤ 26
  pub tiled : Tiled s.base (s.base + 32) (s.base + 32 + s.total) start s.bsize s.prev_phys
  pub subset : (a : ℕ) → free a ≡ true → start a ≡ true
  pub linked : Linked free (list_of s.bsize) s.heads s.next_free s.prev_free
  pub marked : Marked s.fl_bitmap s.sl_bitmap s.heads

module _ {s : Tlsf} {start free : ℕ → Bool} (v : Core s start free) where
  pub block_not_zero : (b : ℕ) → start b ≡ true → b ≢ 0
  block_not_zero b h e = omega (arith, (v.tiled.inside b h).0)

  -- The list of a block is one of the 416.
  pub class_bounds :
      (b : ℕ)
      → start b ≡ true
      → (6 ≤ (mapping_insert (s.bsize b)).fl)
        × (fi (mapping_insert (s.bsize b)) < 26)
        × ((mapping_insert (s.bsize b)).si < 16)
  class_bounds b h =
      let (six, below, small) =
        mapping_insert-bounds (s.bsize b) (v.tiled.sized b h).0 (v.tiled.sized b h).1 in
      (six, omega (arith, below), small)
