-- ===== src/Tlsf/Core/Merge.antt =====
-- The merges of `coalesce_and_free` (src/cache_list.hpp).
use abcmalloc.Base.{
  ℕ, ◌+◌, ◌%◌, ◌^◌, ◌≡◌, ap, Bool, true, false, update, arith, update_cases, update-ne,
}
use abcmalloc.Tlsf.State.{Tlsf, idx_of, mapping_insert}
use abcmalloc.Tlsf.Lists.{list_of}
use abcmalloc.Tlsf.Tiles.{Tiled-back}
use abcmalloc.Tlsf.Tiles.Join.{Tiled-join}
use abcmalloc.Tlsf.Core.{Core}
use abcmalloc.Tlsf.Core.Blocks.{Linked-sizes}

-- The header of a block that takes over the next one, and the link back to it.
abbrev pub joined_at : Tlsf → (a b : ℕ) → Tlsf
joined_at s a b = record s {
  bsize = update s.bsize a ((s.bsize a + s.bsize b) % 2 ^ 32);
  prev_phys = update s.prev_phys (b + s.bsize b) a;
}

module _ {s : Tlsf} {start free : ℕ → Bool} (v : Core s start free) where
  -- Links that are the same at every address.
  pub Core-back :
      (back : ℕ → ℕ)
      → ((a : ℕ) → back a ≡ s.prev_phys a)
      → Core (record s { prev_phys = back }) start free
  Core-back back h = record {
    based = v.based;
    in_space = v.in_space;
    levels = v.levels;
    tiled = Tiled-back v.tiled back h;
    subset = v.subset;
    linked = v.linked;
    marked = v.marked;
  }

  module _ (a b : ℕ) (left : start a ≡ true) (right : start b ≡ true) (touch : a + s.bsize a ≡ b)
      (out_a : free a ≡ false) (out_b : free b ≡ false) where
    size_both : (s.bsize a + s.bsize b) % 2 ^ 32 ≡ s.bsize a + s.bsize b
    size_both = omega (arith, v.tiled.room, (v.tiled.inside a left).0, (v.tiled.inside b right).1)

    -- Two blocks that touch, and are in no list, become one.
    pub joined-Core : Core (joined_at s a b) (update start b false) free
    joined-Core = record {
      based = v.based;
      in_space = v.in_space;
      levels = v.levels;
      tiled = rw size_both (Tiled-join v.tiled a b left right touch);
      subset = λ c h.
          update_cases (λ (x : Bool). x ≡ true) start b false c (λ e. ground (arith, ap free e))
            (λ _. v.subset c h);
      linked =
          Linked-sizes (list_of (joined_at s a b).bsize)
            (λ c h.
              ap (λ (z : ℕ). idx_of (mapping_insert z))
                (update-ne s.bsize a ((s.bsize a + s.bsize b) % 2 ^ 32) c
                  (λ e. ground (arith, ap free e))))
            v.linked;
      marked = v.marked;
    }
