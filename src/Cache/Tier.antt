-- ===== src/Cache/Tier.antt =====
-- `struct __tier_tcache` of src/tcache.hpp: the last blocks freed in a tier, by pointer and size.
-- The arrays `_ptr` and `_size` are functions of the index; `Slots` is the section's parameter.
-- An index that is not found, -1 in the code, is `none`.
pub mod Search
pub mod Contents
mod Tests
use abcmalloc.Base.{
  ℕ, zero, suc, ◌+◌, ◌-◌, Bool, true, false, ◌&&◌, ◌||◌, ltb, leb, ◌==◌, if◌then◌else◌, Option,
  none, some, List, update, first_cells, add32, sub32, not,
}

pub record TierCache : Type 0 where
  pub size : ℕ → ℕ
  pub ptr : ℕ → ℕ
  pub count : ℕ

-- `__tcache_chunk`
pub record CacheChunk : Type 0 where
  pub ptr : ℕ
  pub size : ℕ

abbrev pub empty : TierCache
empty = record { size = λ i. 0; ptr = λ i. 0; count = 0 }

-- `for ( u32 i = n; i > 0; --i ) if ( test(i - 1) ) return i - 1;`
unfoldable pub scan_down : (ℕ → Bool) → ℕ → Option ℕ
scan_down test zero = none
scan_down test (suc i) = if test i then some i else scan_down test i

unfoldable pub probe : TierCache → (sz : ℕ) → Option ℕ
probe c sz = if c.count == 0 then none else scan_down (λ i. c.size i == sz) c.count

unfoldable pub probe_ge : TierCache → (sz : ℕ) → Option ℕ
probe_ge c sz = if c.count == 0 then none else scan_down (λ i. leb sz (c.size i)) c.count

-- `for ( u32 i = 0; i < _count; ++i )`, with `left` rounds to go.
unfoldable pub contains_from : TierCache → (p : ℕ) → (left i : ℕ) → Bool
contains_from c p zero i = false
contains_from c p (suc left) i = if c.ptr i == p then true else contains_from c p left (i + 1)

unfoldable pub contains : TierCache → (p : ℕ) → Bool
contains c p = contains_from c p c.count 0

unfoldable pub pop_at : TierCache → (idx : ℕ) → TierCache × CacheChunk
pop_at c idx =
    let out : CacheChunk = record { ptr = c.ptr idx; size = c.size idx } in
    let last = sub32 c.count 1 in
    if idx == last then (record c { count = last }, out) else (
      record c {
        count = last;
        ptr = update c.ptr idx (c.ptr last);
        size = update c.size idx (c.size last);
      },
      out,
    )

-- A pointer outside the range.
abbrev pub outside : (lo hi p : ℕ) → Bool
outside lo hi p = ltb p lo || leb hi p

-- The loop of `invalidate_range` at entry `r`, with `left` rounds to go; `w` entries are kept.
unfoldable pub invalidate_from : (lo hi : ℕ) → TierCache → (left r w : ℕ) → TierCache × ℕ
invalidate_from lo hi c zero r w = (c, w)
invalidate_from lo hi c (suc left) r w =
    let moved =
      if w == r
      then c
      else record c { ptr = update c.ptr w (c.ptr r); size = update c.size w (c.size r) } in
    let keep = outside lo hi (c.ptr r) in
    invalidate_from lo hi (if keep then moved else c) left (r + 1) (if keep then w + 1 else w)

unfoldable pub invalidate_range : TierCache → (lo hi : ℕ) → TierCache
invalidate_range c lo hi =
    let (c', w) = invalidate_from lo hi c c.count 0 0 in record c' { count = w }

-- The entries, oldest first.
abbrev pub entry : TierCache → ℕ → ℕ × ℕ
entry c i = (c.ptr i, c.size i)

abbrev pub contents : TierCache → List (ℕ × ℕ)
contents c = first_cells (entry c) c.count

-- `drain` calls its argument on each entry in turn: here it returns them.
unfoldable pub drain : TierCache → TierCache × List (ℕ × ℕ)
drain c = (record c { count = 0 }, contents c)

-- The cache with one more entry.
abbrev pub pushed : TierCache → (p sz : ℕ) → TierCache
pushed c p sz = record c {
  ptr = update c.ptr c.count p;
  size = update c.size c.count sz;
  count = c.count + 1;
}

module _ (slots : ℕ) where
  unfoldable pub push : TierCache → (p sz : ℕ) → TierCache × Bool
  push c p sz = if leb slots c.count then (c, false) else (pushed c p sz, true)
