-- ===== src/Tlsf/Valid/Temporal.antt =====
-- `temporal_allocate` and `allocate_exact` of src/cache_list.hpp keep the list valid.
use abcmalloc.Base.{
  ℕ, ◌-◌, ◌^◌, ◌<◌, ◌≤◌, ◌≡◌, ◌≢◌, refl, Bool, true, false, ◌==◌, if◌then◌else◌, arith, update,
  if_cases, update_self, ltb, ne-of-==, bit_or, bit_and, not, ◌&&◌, none, ==_ne,
}
use abcmalloc.Buddy.State.{Chunk, null_chunk, block_alloc, block_temporal}
use abcmalloc.Tlsf.State.{
  Tlsf, Class, idx_of, mapping_search, mapping_insert, min_block, adjusted_block_size,
}
use abcmalloc.Tlsf.FreeList.{fl_remove, find_free}
use abcmalloc.Tlsf.Alloc.{
  hand_out, cut_out, chunk_of, activate, class_valid, temporal_slot, temporal_fresh,
  temporal_allocate, allocate_exact,
}
use abcmalloc.Tlsf.Core.{block_not_zero}
use abcmalloc.Tlsf.Core.Lists.{fl_remove-Core}
use abcmalloc.Tlsf.Core.Find.{Found, not_found, found, find_free-Found}
use abcmalloc.Tlsf.Search.{Picks}
use abcmalloc.Tlsf.Valid.{Valid, hand_out-Valid, fl_remove-SaysBut, fl_remove-SameBlocks}
use abcmalloc.Tlsf.Valid.Allocation.{Cut, whole, front, taken-Cut, adjusted_bounds}

-- The temporal ring is no part of the invariant.
pub ring-Valid :
    {s : Tlsf} {start free : ℕ → Bool}
    → Valid s start free
    → (active : ℕ → ℕ → ℕ) (rotor : ℕ → ℕ)
    → Valid (record s { temporal_active = active; temporal_rotor = rotor }) start free
ring-Valid v active rotor = record {
  core = record {
    based = v.core.based;
    in_space = v.core.in_space;
    levels = v.core.levels;
    tiled = v.core.tiled;
    subset = v.core.subset;
    linked = v.core.linked;
    marked = v.core.marked;
  };
  says = v.says;
  low_end = v.low_end;
  high_end = v.high_end;
}

ring-Cut :
    {s u : Tlsf} {start free : ℕ → Bool} {b n : ℕ}
    → Cut s start free b n u
    → (active : ℕ → ℕ → ℕ) (rotor : ℕ → ℕ)
    → Cut s start free b n (record u { temporal_active = active; temporal_rotor = rotor })
ring-Cut (whole u p q r o v) active rotor = whole _ p q r o (ring-Valid v active rotor)
ring-Cut (front u p q r o v) active rotor = front _ p q r o (ring-Valid v active rotor)

activate-Cut :
    {s u : Tlsf} {start free : ℕ → Bool} {b n : ℕ}
    → Cut s start free b n u
    → (c : Class) (block : ℕ) → Cut s start free b n (activate u c block)
unfolding activate
activate-Cut {s} {u} {start} {free} {b} {n} h c block =
    if_cases (λ (t : Tlsf). Cut s start free b n t) (class_valid u c) (λ _. ring-Cut h _ _) (λ _. h)

-- Whether `temporal_allocate` finds a block of the class in the ring.
abbrev pub in_ring : Tlsf → (n : ℕ) → Bool
in_ring s n =
    let c = mapping_search (adjusted_block_size n) in
    class_valid s c && not (s.temporal_active (idx_of c) (temporal_slot s (idx_of c)) == 0)

-- The answers of `temporal_allocate`: a block of the ring again, none, or a free block cut at the size.
pub data Lent (s : Tlsf) (start free : ℕ → Bool) (n : ℕ) : Tlsf × Chunk → Type 0 where
  again :
      (u : Tlsf) (slot : ℕ)
      → in_ring s n ≡ true
      → u.bsize ≡ s.bsize
      → Valid u start free
      → Lent s start free n
          (u, chunk_of s (s.temporal_active (idx_of (mapping_search (adjusted_block_size n))) slot))
  not_lent :
      in_ring s n ≡ false
      → Picks s (mapping_search (adjusted_block_size n)) none
      → Lent s start free n (s, null_chunk)
  fresh :
      (b : ℕ)
      → in_ring s n ≡ false
      → free b ≡ true
      → adjusted_block_size n ≤ s.bsize b
      → (u : Tlsf) → Cut (fl_remove s b) start (update free b false) b (adjusted_block_size n) u
      → Lent s start free n (u, chunk_of u b)

-- The answers of `allocate_exact`: none, or the first free block of the class of `n`, as it is.
pub data Exact (s : Tlsf) (start free : ℕ → Bool) (n : ℕ) : Tlsf × Chunk → Type 0 where
  refused : Exact s start free n (s, null_chunk)
  exact :
      (b : ℕ)
      → free b ≡ true
      → idx_of (mapping_insert (s.bsize b)) ≡ idx_of (mapping_insert n)
      → (u : Tlsf) → u.bsize ≡ s.bsize
      → Valid u start (update free b false)
      → Exact s start free n (u, chunk_of u b)

module _ {s : Tlsf} {start free : ℕ → Bool} (v : Valid s start free) where
  temporal_fresh-Lent :
      (n : ℕ)
      → n < 2 ^ 62
      → in_ring s n ≡ false
      → Lent s start free n
          (temporal_fresh s (mapping_search (adjusted_block_size n)) (adjusted_block_size n))
  unfolding temporal_fresh
  temporal_fresh-Lent n p missed = by (find_free s needed) (
      find_free-Found v.core needed (adjusted_bounds n p).0
        (omega (arith, (adjusted_bounds n p).3)))
    where
      needed : ℕ
      needed = adjusted_block_size n

      c : Class
      c = mapping_search needed

      f : ℕ
      f = bit_or block_alloc block_temporal

      by :
          (r : Tlsf × ℕ)
          → Found s free needed r
          → Lent s start free n (
              if r.1 == 0 then (r.0, null_chunk) else (
                activate (cut_out r.0 r.1 needed f) c r.1,
                chunk_of (activate (cut_out r.0 r.1 needed f) c r.1) r.1,
              ))
      by _ (not_found w) = not_lent missed w
      by _ (found b h le) = rw (==_ne b 0 (block_not_zero v.core b (v.core.subset b h))) (
          fresh b missed h le (activate (cut_out (fl_remove s b) b needed f) c b) (
            activate-Cut
              (taken-Cut v b needed h le (adjusted_bounds n p).0 (adjusted_bounds n p).1 f
                (omega arith))
              c b))

  -- `temporal_allocate` answers every request of less than 2^62 bytes.
  pub temporal_allocate-Lent : (n : ℕ) → n < 2 ^ 62 → Lent s start free n (temporal_allocate s n)
  unfolding temporal_allocate
  temporal_allocate-Lent n p =
      rw
        (
          ==_ne s.base 0 v.core.based,
          ==_ne (adjusted_block_size n) 0 (omega (arith, (adjusted_bounds n p).0)),
        )
        (if_cases (λ (r : Tlsf × Chunk). Lent s start free n r) (in_ring s n)
          (λ e. again _ _ e refl (ring-Valid v s.temporal_active _))
          (λ e. temporal_fresh-Lent n p e))

  head_given :
      (n : ℕ)
      → s.heads (idx_of (mapping_insert n)) ≢ 0
      → Exact s start free n (
        hand_out
            (fl_remove s (s.heads (idx_of (mapping_insert n))))
            (s.heads (idx_of (mapping_insert n)))
            block_alloc,
        chunk_of
            (hand_out
              (fl_remove s (s.heads (idx_of (mapping_insert n))))
              (s.heads (idx_of (mapping_insert n)))
              block_alloc)
            (s.heads (idx_of (mapping_insert n))),
      )
  unfolding hand_out
  head_given n ne =
      let b = s.heads (idx_of (mapping_insert n)) in
      let (h, l, _) = v.core.linked.head (idx_of (mapping_insert n)) ne in
      exact b h l (hand_out (fl_remove s b) b block_alloc) (fl_remove-SameBlocks s b).same_bsize (
        hand_out-Valid (fl_remove-Core v.core b h) b (v.core.subset b h) block_alloc (omega arith)
          (update_self free b false) (fl_remove-SaysBut v b))

  -- `allocate_exact` answers every request.
  pub allocate_exact-Exact : (n : ℕ) → Exact s start free n (allocate_exact s n)
  unfolding allocate_exact
  allocate_exact-Exact n =
      let b = s.heads (idx_of (mapping_insert n)) in
      if_cases (Exact s start free n) (s.base == 0) (λ _. refused)
        λ _.
          if_cases (Exact s start free n) (ltb n min_block) (λ _. refused)
            λ _.
              if_cases (Exact s start free n) (not (bit_and n (n - 1) == 0)) (λ _. refused)
                λ _.
                  if_cases (Exact s start free n) (not (class_valid s (mapping_insert n)))
                    (λ _. refused)
                    λ _.
                      if_cases (Exact s start free n) (b == 0) (λ _. refused)
                        (λ e. head_given n (ne-of-== b 0 e))
