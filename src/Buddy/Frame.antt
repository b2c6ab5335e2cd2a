-- ===== src/Buddy/Frame.antt =====
-- What the list operations of `__buddy_list` (src/free_list.hpp) leave as it was.
use abcmalloc.Base.{ℕ, zero, suc, ◌+◌, ◌-◌, ◌/◌, ◌≡◌, refl, ◌∙◌, Bool, arith, ◌==◌, if_cases}
use abcmalloc.Buddy.State.{Buddy, order_size}
use abcmalloc.Buddy.FreeList.{
  remove_slow_loop, freelist_remove_slow, remove_head, remove_inner, unlink_found, freelist_remove,
  push_right, split_loop, take_head, take_and_split, freelist_push_off, tcache_push, tcache_pop,
}

-- The region, the headers and the counters are the same.
pub record SameRegion (s s' : Buddy) : Type 0 where
  pub base : s'.base ≡ s.base
  pub total : s'.total ≡ s.total
  pub max_order : s'.max_order ≡ s.max_order
  pub header_order : s'.header_order ≡ s.header_order
  pub header_flags : s'.header_flags ≡ s.header_flags
  pub allocated_bytes : s'.allocated_bytes ≡ s.allocated_bytes
  pub tombstoned_bytes : s'.tombstoned_bytes ≡ s.tombstoned_bytes

pub SameRegion-refl : (s : Buddy) → SameRegion s s
SameRegion-refl s = record {
  base = refl;
  total = refl;
  max_order = refl;
  header_order = refl;
  header_flags = refl;
  allocated_bytes = refl;
  tombstoned_bytes = refl;
}

pub SameRegion-trans : {s t u : Buddy} → SameRegion s t → SameRegion t u → SameRegion s u
SameRegion-trans p q = record {
  base = q.base ∙ p.base;
  total = q.total ∙ p.total;
  max_order = q.max_order ∙ p.max_order;
  header_order = q.header_order ∙ p.header_order;
  header_flags = q.header_flags ∙ p.header_flags;
  allocated_bytes = q.allocated_bytes ∙ p.allocated_bytes;
  tombstoned_bytes = q.tombstoned_bytes ∙ p.tombstoned_bytes;
}

-- As `SameRegion`, and the tags are the same too.
pub record SameTags (s s' : Buddy) : Type 0 where
  pub region : SameRegion s s'
  pub tags : s'.block_tags ≡ s.block_tags

pub SameTags-refl : (s : Buddy) → SameTags s s
SameTags-refl s = record { region = SameRegion-refl s; tags = refl }

module _ (k : ℕ) where
  unlink_found-SameTags : (s : Buddy) (b n o : ℕ) → SameTags s (unlink_found k s b n o)
  unfolding unlink_found
  unlink_found-SameTags s b n o = ground arith

  remove_slow_loop-SameTags :
      (rounds : ℕ) (s : Buddy) (b c buddy o : ℕ)
      → SameTags s (remove_slow_loop k rounds s b c buddy o).0
  unfolding remove_slow_loop
  remove_slow_loop-SameTags zero s b c buddy o = ground arith
  remove_slow_loop-SameTags (suc rounds) s b c buddy o =
      if_cases (λ (r : Buddy × Bool). SameTags s r.0) (c == 0) (λ _. SameTags-refl s)
        λ _.
          if_cases (λ (r : Buddy × Bool). SameTags s r.0) (c == buddy)
            (λ _. unlink_found-SameTags s b _ o) λ _. remove_slow_loop-SameTags rounds s c _ buddy o

  remove_slow-SameTags : (s : Buddy) (b o : ℕ) → SameTags s (freelist_remove_slow k s b o).0
  unfolding freelist_remove_slow
  remove_slow-SameTags s b o = remove_slow_loop-SameTags _ s 0 (s.free_lists o) b o

  -- Taking a block off its list leaves all tags.
  pub freelist_remove-SameTags : (s : Buddy) (b o : ℕ) → SameTags s (freelist_remove k s b o).0
  unfolding freelist_remove remove_head remove_inner
  freelist_remove-SameTags s b o = ground (arith, remove_slow-SameTags s b o)

  push_right-SameRegion :
      (s : Buddy) (mask right from : ℕ) → SameRegion s (push_right k s mask right from).0
  unfolding push_right
  push_right-SameRegion s mask right from = ground arith

  split_loop-SameRegion :
      (levels target blk size : ℕ) (s : Buddy) (mask : ℕ)
      → SameRegion s (split_loop k levels target blk size s mask).0
  unfolding split_loop
  split_loop-SameRegion zero target blk size s mask = SameRegion-refl s
  split_loop-SameRegion (suc levels) target blk size s mask =
      SameRegion-trans (push_right-SameRegion s mask (blk + size / 2) (target + levels))
        (split_loop-SameRegion levels target blk (size / 2) _ _)

  take_head-SameTags : (s : Buddy) (from : ℕ) → SameTags s (take_head k s from).0
  unfolding take_head
  take_head-SameTags s from = ground arith

  -- Cutting a block down writes tags, lists and links only.
  pub take_and_split-SameRegion :
      (s : Buddy) (from target : ℕ) → SameRegion s (take_and_split k s from target).0
  unfolding take_and_split
  take_and_split-SameRegion s from target = ground (
    arith,
    take_head-SameTags s from,
    split_loop-SameRegion (from - target) target (s.free_lists from) (order_size k from)
        (take_head k s from).0 (take_head k s from).1,
  )

  pub freelist_push-SameRegion :
      (s : Buddy) (addr o off : ℕ) → SameRegion s (freelist_push_off k s addr o off)
  unfolding freelist_push_off
  freelist_push-SameRegion s addr o off = ground arith

  pub tcache_pop-SameTags : (s : Buddy) (o : ℕ) → SameTags s (tcache_pop k s o).0
  unfolding tcache_pop
  tcache_pop-SameTags s o = ground arith

pub tcache_push-SameTags : (s : Buddy) (blk o : ℕ) → SameTags s (tcache_push s blk o).0
unfolding tcache_push
tcache_push-SameTags s blk o = ground arith
