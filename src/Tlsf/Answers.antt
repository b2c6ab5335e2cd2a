-- ===== src/Tlsf/Answers.antt =====
-- What `allocate` of src/cache_list.hpp answers, in any state that can be reached.
use abcmalloc.Base.{
  ℕ, ◌+◌, ◌%◌, ◌^◌, ◌<◌, ◌≤◌, ◌≡◌, ◌≢◌, refl, ap, Bool, true, false, arith, update,
}
use abcmalloc.Buddy.State.{Chunk}
use abcmalloc.Tlsf.State.{Tlsf, fi, idx, mapping_search, adjusted_block_size}
use abcmalloc.Tlsf.FreeList.{fl_remove}
use abcmalloc.Tlsf.Alloc.{allocate, chunk_of}
use abcmalloc.Tlsf.Search.{FromClass}
use abcmalloc.Tlsf.Valid.{Valid, fl_remove-SameBlocks}
use abcmalloc.Tlsf.Valid.Allocation.{
  Cut, whole, front, Served, refused, served, allocate-Served, adjusted_bounds,
}
use abcmalloc.Tlsf.Run.{Reach, Sound, sound, Reach-Sound}

-- A chunk of at least `n` bytes and a header's more, aligned, between the sentinels.
pub record Fits (s : Tlsf) (n : ℕ) (c : Chunk) : Type 0 where
  pub aligned : c.ptr % 32 ≡ 0
  pub long : n + 32 ≤ c.len
  pub above : s.base + 64 ≤ c.ptr
  pub below : c.ptr + c.len ≤ s.base + 32 + s.total

module _ {s : Tlsf} {start free : ℕ → Bool} (v : Valid s start free) (n : ℕ) (p : n < 2 ^ 62) where
  chunk-Fits :
      (b : ℕ)
      → free b ≡ true
      → (u : Tlsf) → adjusted_block_size n ≤ u.bsize b
      → u.bsize b ≤ s.bsize b
      → Fits s n (chunk_of u b)
  chunk-Fits b h u le most =
      let here = v.core.subset b h in
      record {
        aligned = omega (arith, (v.core.tiled.aligned b here).0);
        long = omega (arith, (adjusted_bounds n p).2, (v.core.tiled.sized b here).1);
        above = omega (arith, (v.core.tiled.inside b here).0);
        below = omega (
          arith,
          (v.core.tiled.inside b here).1,
          (v.core.tiled.sized b here).1,
          (adjusted_bounds n p).2,
        );
      }

  Served-Fits : (r : Tlsf × Chunk) → Served s start free n r → r.1.ptr ≢ 0 → Fits s n r.1
  Served-Fits _ (refused _) ne = absurd (ne refl)
  Served-Fits _ (served b h le u c) ne = by c
    where
      still : (fl_remove s b).bsize b ≡ s.bsize b
      still = ap (λ (z : ℕ → ℕ). z b) (fl_remove-SameBlocks s b).same_bsize

      by :
          Cut (fl_remove s b) start (update free b false) b (adjusted_block_size n) u
          → Fits s n (chunk_of u b)
      by (whole _ _ e _ _ _) = chunk-Fits b h u (omega (arith, e, still)) (omega (arith, e, still))
      by (front _ _ e _ _ _) = chunk-Fits b h u (omega (arith, e)) (omega (arith, e))

  Served-answers :
      (r : Tlsf × Chunk)
      → Served s start free n r
      → fi (mapping_search (adjusted_block_size n)) < s.fl_count
      → (f j : ℕ) → f < 26
      → j < 16
      → FromClass (mapping_search (adjusted_block_size n)) f j
      → s.heads (idx f j) ≢ 0
      → r.1.ptr ≢ 0
  Served-answers _ (refused none_left) q f j a b from ne = absurd (ne (none_left q f j a b from))
  Served-answers _ (served b h le u c) q f j _ _ from ne = λ e. omega (arith, e)

-- Whatever `allocate` hands out for a request of less than 2^62 bytes is aligned to 32, has room for
-- the request, and lies in the region of the list.
pub allocate-Fits :
    {s : Tlsf} {live : ℕ → Bool}
    → Reach s live
    → (n : ℕ) → n < 2 ^ 62
    → (allocate s n).1.ptr ≢ 0
    → Fits s n (allocate s n).1
allocate-Fits {s} {live} r n p = by (Reach-Sound r)
  where
    by : Sound s live → (allocate s n).1.ptr ≢ 0 → Fits s n (allocate s n).1
    by (sound start free v _) = Served-Fits v n p (allocate s n) (allocate-Served v n p)

-- `allocate` answers a request of less than 2^62 bytes, whose class is of the levels in use, with a
-- block whenever a list of that class or a later one is not empty.
pub allocate-answers :
    {s : Tlsf} {live : ℕ → Bool}
    → Reach s live
    → (n : ℕ) → n < 2 ^ 62
    → fi (mapping_search (adjusted_block_size n)) < s.fl_count
    → (f j : ℕ) → f < 26
    → j < 16
    → FromClass (mapping_search (adjusted_block_size n)) f j
    → s.heads (idx f j) ≢ 0
    → (allocate s n).1.ptr ≢ 0
allocate-answers {s} {live} r n p = by (Reach-Sound r)
  where
    by :
        Sound s live
        → fi (mapping_search (adjusted_block_size n)) < s.fl_count
        → (f j : ℕ) → f < 26
        → j < 16
        → FromClass (mapping_search (adjusted_block_size n)) f j
        → s.heads (idx f j) ≢ 0
        → (allocate s n).1.ptr ≢ 0
    by (sound start free v _) = Served-answers v n p (allocate s n) (allocate-Served v n p)
