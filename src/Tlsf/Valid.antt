-- ===== src/Tlsf/Valid.antt =====
-- The invariant of `__tlsf_list` (src/cache_list.hpp): its blocks, lists and bitmaps, and the flags of
-- the headers, by which `deallocate` decides whether it merges a block with its neighbours.
pub mod Allocation
pub mod Merge
pub mod Release
pub mod Init
pub mod Temporal
use abcmalloc.Base.{
  ℕ, ◌+◌, ◌-◌, ◌*◌, ◌^◌, ◌<◌, ◌≤◌, ◌≡◌, ◌≢◌, refl, sym, ap, ◌∙◌, Bool, true, false, ◌==◌,
  if◌then◌else◌, arith, update, if_cases, update_cases, update_self, update-ne, inl, inr,
  Bool-cases, sub64, ltb, le-of-ltb-false, lt-of-ltb, eq-of-==, ne-of-==, ==_ne,
}
use abcmalloc.Tlsf.State.{Tlsf, Class, fi, idx, idx_of, mapping_insert, block_align, min_block}
use abcmalloc.Tlsf.FreeList.{fl_insert, fl_remove, unmark_if_empty, write_rest, try_split}
use abcmalloc.Tlsf.Alloc.{hand_out, cut_out}
use abcmalloc.Tlsf.Core.{Core, block_not_zero}
use abcmalloc.Tlsf.Core.Blocks.{cut-Core, front_size}

-- The header of the sentinel behind the last block.
abbrev pub stop : Tlsf → ℕ
stop s = s.base + 32 + s.total

-- The headers of blocks and sentinels say which blocks are free, except that of `b`.
pub record SaysBut (b : ℕ) (s : Tlsf) (start free : ℕ → Bool) : Type 0 where
  pub blocks : (c : ℕ) → start c ≡ true → b ≢ c → (s.flags c == 0) ≡ free c
  pub low_end : (s.flags s.base == 0) ≡ false
  pub high_end : (s.flags (stop s) == 0) ≡ false

-- The invariant: `start` says where blocks start, `free` which of them are in the lists.
pub record Valid (s : Tlsf) (start free : ℕ → Bool) : Type 0 where
  pub core : Core s start free
  pub says : (c : ℕ) → start c ≡ true → (s.flags c == 0) ≡ free c
  pub low_end : (s.flags s.base == 0) ≡ false
  pub high_end : (s.flags (stop s) == 0) ≡ false

-- The fields that `fl_remove` leaves as they are.
pub record SameBlocks (s t : Tlsf) : Type 0 where
  pub same_base : t.base ≡ s.base
  pub same_total : t.total ≡ s.total
  pub same_bsize : t.bsize ≡ s.bsize
  pub same_flags : t.flags ≡ s.flags
  pub same_back : t.prev_phys ≡ s.prev_phys
  pub same_allocated : t.allocated_bytes ≡ s.allocated_bytes

pub fl_remove-SameBlocks : (s : Tlsf) (b : ℕ) → SameBlocks s (fl_remove s b)
unfolding fl_remove unmark_if_empty
fl_remove-SameBlocks s b =
    if_cases (λ (t : Tlsf). SameBlocks s t)
      ((if s.prev_free b == 0
            then update s.heads (idx_of (mapping_insert (s.bsize b))) (s.next_free b)
            else s.heads)
          (idx_of (mapping_insert (s.bsize b)))
        == 0)
      (λ _. record {
        same_base = refl;
        same_total = refl;
        same_bsize = refl;
        same_flags = refl;
        same_back = refl;
        same_allocated = refl;
      })
      (λ _. record {
        same_base = refl;
        same_total = refl;
        same_bsize = refl;
        same_flags = refl;
        same_back = refl;
        same_allocated = refl;
      })

module _ {s : Tlsf} {start free : ℕ → Bool} (v : Core s start free) (b : ℕ)
    (here : start b ≡ true) where
  pub not_low_end : b ≢ s.base
  not_low_end e = omega (arith, (v.tiled.inside b here).0)

  pub not_high_end : b ≢ stop s
  not_high_end e = omega (arith, (v.tiled.inside b here).1, (v.tiled.sized b here).0)

  -- The header of a block that is in no list gets flags, and the bytes are counted.
  pub flagged-Valid :
      (f allocated stones : ℕ)
      → f ≢ 0
      → free b ≡ false
      → SaysBut b s start free
      → Valid
          (record s {
            flags = update s.flags b f;
            allocated_bytes = allocated;
            tombstoned_bytes = stones;
          })
          start
          free
  flagged-Valid f _ _ n used says = record {
    core = record {
      based = v.based;
      in_space = v.in_space;
      levels = v.levels;
      tiled = v.tiled;
      subset = v.subset;
      linked = v.linked;
      marked = v.marked;
    };
    says = λ c h.
        update_cases (λ (x : ℕ). (x == 0) ≡ free c) s.flags b f c
          (λ e. ==_ne f 0 n ∙ sym used ∙ ap free e) (λ m. says.blocks c h m);
    low_end = ap (λ (x : ℕ). x == 0) (update-ne s.flags b f s.base not_low_end) ∙ says.low_end;
    high_end = ap (λ (x : ℕ). x == 0) (update-ne s.flags b f (stop s) not_high_end) ∙ says.high_end;
  }

  -- A block that is in no list is handed out.
  pub hand_out-Valid :
      (f : ℕ) → f ≢ 0 → free b ≡ false → SaysBut b s start free → Valid (hand_out s b f) start free
  unfolding hand_out
  hand_out-Valid f = flagged-Valid f _ s.tombstoned_bytes

  -- `fl_insert` marks a block as free.
  pub fl_insert-SaysBut :
      (but : ℕ)
      → ((c : ℕ) → start c ≡ true → b ≢ c → but ≢ c → (s.flags c == 0) ≡ free c)
      → (s.flags s.base == 0) ≡ false
      → (s.flags (stop s) == 0) ≡ false
      → SaysBut but (fl_insert s b) start (update free b true)
  unfolding fl_insert
  fl_insert-SaysBut but says low high = record {
    blocks = λ c h m.
        update_cases (λ (x : ℕ). (x == 0) ≡ update free b true c) s.flags b 0 c
          (λ e. sym (ap (update free b true) (sym e) ∙ update_self free b true))
          (λ n. says c h n m ∙ sym (update-ne free b true c n));
    low_end = ap (λ (x : ℕ). x == 0) (update-ne s.flags b 0 s.base not_low_end) ∙ low;
    high_end = ap (λ (x : ℕ). x == 0) (update-ne s.flags b 0 (stop s) not_high_end) ∙ high;
  }

-- `fl_remove` leaves the headers as they are: only that of its block is now wrong.
pub fl_remove-SaysBut :
    {s : Tlsf} {start free : ℕ → Bool}
    → Valid s start free
    → (b : ℕ) → SaysBut b (fl_remove s b) start (update free b false)
fl_remove-SaysBut {s} {start} {free} v b =
    let same = fl_remove-SameBlocks s b in
    record {
      blocks = λ c p m. rw (same.same_flags) (v.says c p ∙ sym (update-ne free b false c m));
      low_end = rw (same.same_flags, same.same_base) v.low_end;
      high_end = rw (same.same_flags, same.same_base, same.same_total) v.high_end;
    }
