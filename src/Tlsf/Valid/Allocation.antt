-- ===== src/Tlsf/Valid/Allocation.antt =====
-- `allocate` and `temporal_allocate` of src/cache_list.hpp keep the list valid; what they hand out is a
-- block that was free.
use abcmalloc.Base.{
  ℕ, ◌+◌, ◌%◌, ◌^◌, ◌<◌, ◌≤◌, ◌≡◌, ◌≢◌, refl, sym, ◌∙◌, subst, Bool, true, false, ◌==◌,
  if◌then◌else◌, arith, update, if_cases, update_self, update-ne, sub64, add64, ltb,
  le-of-ltb-false, lt-of-ltb, none, ==_ne,
}
use abcmalloc.Buddy.State.{Chunk, null_chunk, block_alloc}
use abcmalloc.Tlsf.State.{Tlsf, mapping_search, min_block, adjusted_block_size}
use abcmalloc.Tlsf.FreeList.{fl_insert, fl_remove, write_rest, try_split, find_free}
use abcmalloc.Tlsf.Alloc.{hand_out, cut_out, chunk_of, allocate}
use abcmalloc.Tlsf.Core.{Core, block_not_zero}
use abcmalloc.Tlsf.Core.Lists.{fl_remove-Core}
use abcmalloc.Tlsf.Core.Blocks.{cut-Core, front_size, size_kept, write_rest-Core}
use abcmalloc.Tlsf.Core.Find.{Found, not_found, found, find_free-Found}
use abcmalloc.Tlsf.Search.{Picks}
use abcmalloc.Tlsf.Valid.{
  Valid, SaysBut, fl_remove-SameBlocks, hand_out-Valid, fl_insert-SaysBut, fl_remove-SaysBut,
}

-- What becomes of a block `b` from which `n` bytes are handed out: the whole block if the rest were
-- less than the smallest block, and else its front, and the rest of it is a free block.
pub data Cut (s : Tlsf) (start free : ℕ → Bool) (b n : ℕ) : Tlsf → Type 0 where
  whole :
      (u : Tlsf)
      → s.bsize b < n + 64
      → u.bsize b ≡ s.bsize b
      → u.allocated_bytes ≡ add64 s.allocated_bytes (u.bsize b)
      → ((c : ℕ) → start c ≡ true → b ≢ c → u.bsize c ≡ s.bsize c)
      → Valid u start free
      → Cut s start free b n u
  front :
      (u : Tlsf)
      → n + 64 ≤ s.bsize b
      → u.bsize b ≡ n
      → u.allocated_bytes ≡ add64 s.allocated_bytes (u.bsize b)
      → ((c : ℕ) → start c ≡ true → b ≢ c → u.bsize c ≡ s.bsize c)
      → Valid u (update start (b + n) true) (update free (b + n) true)
      → Cut s start free b n u

module _ {s : Tlsf} {start free : ℕ → Bool} (v : Core s start free) (b n : ℕ)
    (here : start b ≡ true) (used : free b ≡ false) (says : SaysBut b s start free)
    (enough : 64 ≤ n) (steps : n % 32 ≡ 0) where
  abbrev split : Tlsf
  split = fl_insert (write_rest s b n (sub64 (s.bsize b) n)) (b + n)

  module _ (fits : n + 64 ≤ s.bsize b) where
    start_kept : update start (b + n) true b ≡ true
    start_kept = update-ne start (b + n) true b (omega arith) ∙ here

    used_kept : update free (b + n) true b ≡ false
    used_kept = update-ne free (b + n) true b (omega arith) ∙ used

    split-SaysBut : SaysBut b split (update start (b + n) true) (update free (b + n) true)
    unfolding write_rest
    split-SaysBut =
        fl_insert-SaysBut (write_rest-Core v b n here used fits enough steps) (b + n)
          (update_self start (b + n) true) b
          (λ c h m k. says.blocks c (sym (update-ne start (b + n) true c m) ∙ h) k) says.low_end
          says.high_end

  pub cut_out-Cut : (f : ℕ) → f ≢ 0 → n ≤ s.bsize b → Cut s start free b n (cut_out s b n f)
  unfolding cut_out try_split hand_out fl_insert write_rest
  cut_out-Cut f nz le =
      if_cases (λ (t : Tlsf). Cut s start free b n (hand_out t b f))
        (ltb (sub64 (s.bsize b) n) min_block)
        (λ e.
          whole (hand_out s b f)
            (omega (arith, lt-of-ltb (sub64 (s.bsize b) n) 64 e, (v.tiled.sized b here).1)) refl
            refl (λ c _ _. refl) (hand_out-Valid v b here f nz used says))
        (λ e.
          let fits : n + 64 ≤ s.bsize b =
            omega (arith, le-of-ltb-false (sub64 (s.bsize b) n) 64 e, (v.tiled.sized b here).1) in
          front (hand_out split b f) fits (front_size v b n here used fits enough steps) refl
            (size_kept v b n here used fits enough steps)
            (hand_out-Valid (cut-Core v b n here used fits enough steps) b (start_kept fits) f nz
              (used_kept fits) (split-SaysBut fits)))

-- The size of the block for a request.
pub adjusted_bounds :
    (n : ℕ)
    → n < 2 ^ 62
    → (64 ≤ adjusted_block_size n)
      × (adjusted_block_size n % 32 ≡ 0)
      × (n + 64 ≤ adjusted_block_size n)
      × (adjusted_block_size n < n + 96)
unfolding adjusted_block_size
adjusted_bounds n p = ground arith

-- The answers to a request for `n` bytes: none, if the lists that are searched are empty, and else a
-- block that was free and is large enough, cut at the size of the request.
pub data Served (s : Tlsf) (start free : ℕ → Bool) (n : ℕ) : Tlsf × Chunk → Type 0 where
  refused :
      Picks s (mapping_search (adjusted_block_size n)) none → Served s start free n (s, null_chunk)
  served :
      (b : ℕ)
      → free b ≡ true
      → adjusted_block_size n ≤ s.bsize b
      → (u : Tlsf) → Cut (fl_remove s b) start (update free b false) b (adjusted_block_size n) u
      → Served s start free n (u, chunk_of u b)

module _ {s : Tlsf} {start free : ℕ → Bool} (v : Valid s start free) where
  -- A free block that `find_free` has found is cut and handed out.
  pub taken-Cut :
      (b n : ℕ)
      → free b ≡ true
      → n ≤ s.bsize b
      → 64 ≤ n
      → n % 32 ≡ 0
      → (f : ℕ) → f ≢ 0
      → Cut (fl_remove s b) start (update free b false) b n (cut_out (fl_remove s b) b n f)
  taken-Cut b n h le enough steps f nz =
      cut_out-Cut (fl_remove-Core v.core b h) b n (v.core.subset b h) (update_self free b false)
        (fl_remove-SaysBut v b) enough steps f nz
        (subst (λ (z : ℕ → ℕ). n ≤ z b) (sym (fl_remove-SameBlocks s b).same_bsize) le)

  -- `allocate` answers every request of less than 2^62 bytes.
  pub allocate-Served : (n : ℕ) → n < 2 ^ 62 → Served s start free n (allocate s n)
  unfolding allocate
  allocate-Served n p =
      rw (==_ne s.base 0 v.core.based, ==_ne needed 0 (omega (arith, (adjusted_bounds n p).0)))
        (by (find_free s needed) (
          find_free-Found v.core needed (adjusted_bounds n p).0
            (omega (arith, (adjusted_bounds n p).3))))
    where
      needed : ℕ
      needed = adjusted_block_size n

      by :
          (r : Tlsf × ℕ)
          → Found s free needed r
          → Served s start free n (
              if r.1 == 0 then (r.0, null_chunk) else (
                cut_out r.0 r.1 needed block_alloc,
                chunk_of (cut_out r.0 r.1 needed block_alloc) r.1,
              ))
      by _ (not_found w) = refused w
      by _ (found b h le) = rw (==_ne b 0 (block_not_zero v.core b (v.core.subset b h))) (
          served b h le (cut_out (fl_remove s b) b needed block_alloc) (
            taken-Cut b needed h le (adjusted_bounds n p).0 (adjusted_bounds n p).1 block_alloc
              (omega arith)))
