-- ===== src/Buddy/DoubleFree.antt =====
-- A block that `__buddy_list::deallocate` (src/free_list.hpp) took back is not a block any more.
use abcmalloc.Base.{
  ℕ, zero, suc, ◌+◌, ◌-◌, ◌/◌, ◌%◌, ◌^◌, ◌≡◌, ◌⊎◌, inl, inr, refl, sym, ◌∙◌, ap, subst, Bool, true,
  false, not, ◌||◌, arith, ◌==◌, ltb, if◌then◌else◌, if_cases, Bool-cases, update, ltb-of-le,
  ne-of-==, bit_xor, bit_or, sub64, lt-of-ltb,
}
use abcmalloc.Base.Bits.{bit, bit-or}
use abcmalloc.Buddy.State.{
  Buddy, RetFlag, invalid, ok, block_free, hdr_of_tagged, order_size, tag_is_free_at_off, tag_index,
  free_tag, tag_none,
}
use abcmalloc.Buddy.FreeList.{
  freelist_remove, freelist_push_off, Merge, joined, merge_round, merge_loop, merge_and_free,
  tcache_push,
}
use abcmalloc.Buddy.Free.{
  is_allocated, deactivate, uncount, free_temporal, give_back, deallocate, tombstone, bad_order,
  has_flag,
}
use abcmalloc.Buddy.Frame.{SameTags, freelist_remove-SameTags, tcache_push-SameTags}

-- The tag at an index is not that of an allocated block.
abbrev Released : Buddy → ℕ → Type 0
Released s idx = bit (s.block_tags idx) 7 ≡ true

free_tag-Released : (o : ℕ) → bit (free_tag o) 7 ≡ true
unfolding free_tag bit
free_tag-Released o = byte_bit (bit_or o 0x80) ∙ bit-or 7 o 0x80 ∙ high (bit o 7)
  where
    byte_bit : (a : ℕ) → bit (a % 2 ^ 8) 7 ≡ bit a 7
    byte_bit a = ground arith

    high : (b : Bool) → (b || true) ≡ true
    high true = refl
    high false = refl

update-Released :
    (tags : ℕ → ℕ) (i v idx : ℕ)
    → bit v 7 ≡ true
    → (i ≡ idx) ⊎ (bit (tags idx) 7 ≡ true)
    → bit (update tags i v idx) 7 ≡ true
update-Released tags i v idx h (inl e) =
    if_cases (λ (x : ℕ). bit x 7 ≡ true) (i == idx) (λ _. h) (λ ne. absurd (ne-of-== i idx ne e))
update-Released tags i v idx h (inr old) =
    if_cases (λ (x : ℕ). bit x 7 ≡ true) (i == idx) (λ _. h) (λ _. old)

tag_none-Released : bit tag_none 7 ≡ true
unfolding bit
tag_none-Released = refl

-- What the loop of `__merge_and_free` keeps of the index `idx` of the block that is freed.
record Freed (k : ℕ) (base idx : ℕ) (m : Merge) : Type 0 where
  based : m.list.base ≡ base
  gone : (m.off / 2 ^ k ≡ idx) ⊎ Released m.list idx

module _ (k base idx : ℕ) where
  joined-Freed :
      (m : Merge) (b : ℕ) (t : Buddy)
      → t.base ≡ base
      → t.block_tags ≡ m.list.block_tags
      → Freed k base idx m
      → Freed k base idx (joined k m b t)
  unfolding joined
  joined-Freed m b t e tags v = record { based = e; gone = go v.gone }
    where
      interior : ℕ
      interior = (if ltb m.off b then b else m.off) / 2 ^ k

      go :
          (m.off / 2 ^ k ≡ idx) ⊎ Released m.list idx
          → ((if ltb b m.off then b else m.off) / 2 ^ k ≡ idx)
            ⊎ (bit (update t.block_tags interior tag_none idx) 7 ≡ true)
      go (inl here) = elim (Bool-cases (ltb m.off b)) [
        | inl below ↦ inl (rw (ltb-of-le b m.off (omega (arith, lt-of-ltb m.off b below))) here)
        | inr above ↦ inr (
            update-Released t.block_tags interior tag_none idx tag_none-Released
              (inl (rw above here)))
      ]
      go (inr gone) = inr (
          update-Released t.block_tags interior tag_none idx tag_none-Released (inr (rw tags gone)))

  merge_round-Freed : (m : Merge) → Freed k base idx m → Freed k base idx (merge_round k m).0
  unfolding merge_round
  merge_round-Freed m v =
      if_cases (λ (r : Merge × Bool). Freed k base idx r.0)
        (not (tag_is_free_at_off k m.list b m.order)) (λ _. v)
        λ _.
          if_cases (λ (r : Merge × Bool). Freed k base idx r.0) removed.1
            (λ _. joined-Freed m b removed.0 (same.region.base ∙ v.based) same.tags v)
            (λ _. record { based = same.region.base ∙ v.based; gone = rw same.tags v.gone })
    where
      b : ℕ
      b = bit_xor m.off (order_size k m.order)

      removed : Buddy × Bool
      removed = freelist_remove k m.list (m.list.base + b) m.order

      same : SameTags m.list removed.0
      same = freelist_remove-SameTags k m.list (m.list.base + b) m.order

  merge_loop-Freed :
      (rounds : ℕ) (m : Merge) → Freed k base idx m → Freed k base idx (merge_loop k rounds m)
  unfolding merge_loop
  merge_loop-Freed zero m v = v
  merge_loop-Freed (suc rounds) m v =
      if_cases (Freed k base idx) (ltb m.order (m.list.max_order - 1))
        (λ e.
          if_cases (Freed k base idx) (merge_round k m).1
            (λ _. merge_loop-Freed rounds (merge_round k m).0 (merge_round-Freed m v))
            (λ _. merge_round-Freed m v))
        (λ _. v)

deactivate-base : (s : Buddy) (addr o : ℕ) → (deactivate s addr o).base ≡ s.base
unfolding deactivate
deactivate-base s addr o = ground arith

module _ (k : ℕ) where
  -- After `__merge_and_free` the block's own tag is a free block's, or none.
  pub merge_and_free-Released :
      (s : Buddy) (addr o : ℕ)
      → Released (merge_and_free k s addr o) (tag_index k s addr)
        × ((merge_and_free k s addr o).base ≡ s.base)
  unfolding merge_and_free freelist_push_off
  merge_and_free-Released s addr o = ground (
    arith,
    update-Released m.list.block_tags (m.off / 2 ^ k) (free_tag m.order) (tag_index k s addr)
        (free_tag-Released m.order) v.gone,
    v.based,
  )
    where
      m : Merge
      m = merge_loop k s.max_order (record { off = sub64 addr s.base; order = o; list = s })

      v : Freed k s.base (tag_index k s addr) m
      v =
          merge_loop-Freed k s.base (tag_index k s addr) s.max_order _
            (record { based = refl; gone = inl refl })

  free_temporal-Released :
      (s : Buddy) (addr o : ℕ)
      → Released (free_temporal k s addr o) (tag_index k s addr)
        × ((free_temporal k s addr o).base ≡ s.base)
  unfolding free_temporal
  free_temporal-Released s addr o =
      if_cases (λ (r : Buddy). Released r (tag_index k s addr) × (r.base ≡ s.base)) pushed.1
        (λ _. (
          update-Released pushed.0.block_tags (tag_index k pushed.0 addr) tag_none
              (tag_index k s addr) tag_none-Released (inl (ap at based)),
          based,
        ))
        (λ _.
          let (gone, same) = merge_and_free-Released pushed.0 addr o in
          (
            subst (λ b. Released (merge_and_free k pushed.0 addr o) (at b)) based gone,
            same ∙ based,
          ))
    where
      pushed : Buddy × Bool
      pushed = tcache_push (deactivate s addr o) addr o

      based : pushed.0.base ≡ s.base
      based =
          (tcache_push-SameTags (deactivate s addr o) addr o).region.base ∙ deactivate-base s addr o

      at : ℕ → ℕ
      at b = sub64 addr b / 2 ^ k

  give_back-Released :
      (s : Buddy) (addr o flags : ℕ)
      → Released (give_back k s addr o flags) (tag_index k s addr)
        × ((give_back k s addr o flags).base ≡ s.base)
  unfolding give_back uncount
  give_back-Released s addr o flags =
      if_cases (λ (r : Buddy). Released r (tag_index k s addr) × (r.base ≡ s.base))
        (has_flag flags 4) (λ _. free_temporal-Released (uncount k s o flags) addr o)
        (λ _. merge_and_free-Released (uncount k s o flags) addr o)

  Released-not_allocated :
      (s s' : Buddy) (p : ℕ)
      → Released s' (tag_index k s p) × (s'.base ≡ s.base)
      → is_allocated k s' p ≡ false
  unfolding is_allocated
  Released-not_allocated s s' p (gone, based) =
      ground (arith, subst (λ b. Released s' (sub64 p b / 2 ^ k)) (sym based) gone)

  deallocate-not_allocated :
      (s : Buddy) (p : ℕ) → is_allocated k s p ≡ false → deallocate k s p ≡ (s, invalid)
  unfolding deallocate
  deallocate-not_allocated s p e = rw e

  tombstone-not_allocated :
      (s : Buddy) (p : ℕ) → is_allocated k s p ≡ false → tombstone k s p ≡ (s, invalid)
  unfolding tombstone
  tombstone-not_allocated s p e = rw e

  deallocate-releases :
      (s : Buddy) (p : ℕ)
      → (deallocate k s p).1 ≡ ok
      → is_allocated k (deallocate k s p).0 p ≡ false
  unfolding deallocate
  deallocate-releases s p =
      if_cases P (not (is_allocated k s p)) (λ _ e. cc)
        λ _.
          if_cases P (bad_order s o) (λ _ e. cc)
            λ _.
              if_cases P (s.base == 0 || p == 0) (λ _ e. cc)
                λ _.
                  if_cases P (flags == block_free) (λ _ e. cc)
                    λ _ e. Released-not_allocated s _ p (give_back-Released s p o flags)
    where
      P : Buddy × RetFlag → Type 0
      P r = r.1 ≡ ok → is_allocated k r.0 p ≡ false

      o : ℕ
      o = s.header_order (hdr_of_tagged k s p)

      flags : ℕ
      flags = s.header_flags (hdr_of_tagged k s p)

  -- A block that `deallocate` has taken back is not allocated: a second `deallocate` and a
  -- `tombstone` of it answer `invalid` and change nothing.
  pub deallocate_twice :
      (s : Buddy) (p : ℕ)
      → (deallocate k s p).1 ≡ ok
      → let s' = (deallocate k s p).0 in
        (is_allocated k s' p ≡ false)
        × (deallocate k s' p ≡ (s', invalid))
        × (tombstone k s' p ≡ (s', invalid))
  deallocate_twice s p e =
      let freed = deallocate-releases s p e in
      (freed, deallocate-not_allocated _ p freed, tombstone-not_allocated _ p freed)
