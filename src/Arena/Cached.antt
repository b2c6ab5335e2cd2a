-- ===== src/Arena/Cached.antt =====
-- The cache of a tier of src/arena.hpp: what it gives out lies in a range of the tier, and a block that
-- was freed into it is what the next request of its size gets.
use abcmalloc.Base.{
  ℕ, ◌+◌, ◌%◌, ◌^◌, ◌<◌, ◌≡◌, refl, sym, subst, Bool, true, false, not, leb, ◌==◌, arith, if_cases,
  update_cases, Option, none, some, sub32,
}
use abcmalloc.Buddy.State.{Chunk, null_chunk}
use abcmalloc.Cache.Tier.{TierCache, CacheChunk, pop_at, probe, probe_ge}
use abcmalloc.Cache.Tier.Search.{Finds, probe-Finds, probe_ge-Finds}
use abcmalloc.Sheet.{Book, Sheet}
use abcmalloc.Arena.Tier.{
  Tier, Config, cache_hit, take_cached, insert_by, pop_or_insert, cache_pop_or_insert,
  bucket_insert, caching,
}
use abcmalloc.Arena.Insert.{InRange, Serves, Holds, Gives, insert_by-Gives}

-- The entries that are left when one is taken, the last one in its place, are entries from before.
pop_at-all :
    (Q : ℕ → Type 0) (c : TierCache) (hit : ℕ)
    → hit < c.count
    → c.count < 2 ^ 32
    → ((i : ℕ) → i < c.count → Q (c.ptr i))
    → (i : ℕ) → i < (pop_at c hit).0.count
    → Q ((pop_at c hit).0.ptr i)
unfolding pop_at
pop_at-all Q c hit h w all i =
    if_cases (λ (r : TierCache × CacheChunk). i < r.0.count → Q (r.0.ptr i)) (hit == last)
      (λ _ p. all i (omega (arith, p)))
      (λ _ p.
        update_cases Q c.ptr hit (c.ptr last) i (λ _. all last (omega (arith, p)))
          (λ _. all i (omega (arith, p))))
  where
    last : ℕ
    last = sub32 c.count 1

pop_at_chunk : (c : TierCache) (hit : ℕ) → (pop_at c hit).1.ptr ≡ c.ptr hit
unfolding pop_at
pop_at_chunk c hit =
    if_cases (λ (r : TierCache × CacheChunk). r.1.ptr ≡ c.ptr hit) (hit == sub32 c.count 1)
      (λ _. refl) (λ _. refl)

pop_at_fewer :
    (c : TierCache) (hit : ℕ)
    → hit < c.count
    → c.count < 2 ^ 32
    → (pop_at c hit).0.count + 1 ≡ c.count
unfolding pop_at
pop_at_fewer c hit h w =
    if_cases (λ (r : TierCache × CacheChunk). r.0.count + 1 ≡ c.count) (hit == sub32 c.count 1)
      (λ _. omega (arith, h, w)) (λ _. omega (arith, h, w))

-- The entry that answers a request is one of the cache.
Below : TierCache → Option ℕ → Type 0
Below c none = true ≡ true
Below c (some hit) = hit < c.count

module _ {S : Type 0} (b : Book S) (is_zero is_invalid : Chunk → Bool) (k : Config)
    (P : (lo hi : ℕ) → Sheet S → Type 0) (serves : Serves b is_zero is_invalid P)
    (null_zero : is_zero null_chunk ≡ true) (no_launder : k.launder ≡ false) where
  cache_hit-Below : (t : Tier S) (sz : ℕ) → Below t.cache (cache_hit b is_zero is_invalid k t sz)
  unfolding cache_hit Below
  cache_hit-Below t sz =
      if_cases (Below t.cache) (not (caching k)) (λ _. refl)
        λ _.
          if_cases (Below t.cache) k.redzone
            (λ _. exact_hit (probe t.cache (sz % 2 ^ 32)) (probe-Finds t.cache (sz % 2 ^ 32)))
            (λ _. least_hit (probe_ge t.cache (sz % 2 ^ 32)) (probe_ge-Finds t.cache (sz % 2 ^ 32)))
    where
      exact_hit :
          (o : Option ℕ)
          → Finds (λ i. t.cache.size i == sz % 2 ^ 32) t.cache.count o
          → Below t.cache o
      exact_hit none _ = refl
      exact_hit (some hit) f = f.0

      least_hit :
          (o : Option ℕ)
          → Finds (λ i. leb (sz % 2 ^ 32) (t.cache.size i)) t.cache.count o
          → Below t.cache o
      least_hit none _ = refl
      least_hit (some hit) f = f.0

  take_cached-Gives :
      {t : Tier S}
      → Holds P t
      → (hit : ℕ) → hit < t.cache.count
      → Gives P is_zero t (take_cached b is_zero is_invalid k t hit)
  unfolding take_cached
  take_cached-Gives {t} v hit h = record {
    holds = record {
      sorted = v.sorted;
      nodes = v.nodes;
      sheets_ok = v.sheets_ok;
      cached = pop_at-all (λ p. InRange t.index p) t.cache hit h v.few v.cached;
      few = omega (arith, pop_at_fewer t.cache hit h v.few, h, v.few);
    };
    same_idx = refl;
    same_count = refl;
    chunk = λ _. by (pop_at_chunk t.cache hit);
  }
    where
      by : (pop_at t.cache hit).1.ptr ≡ t.cache.ptr hit → InRange t.index (pop_at t.cache hit).1.ptr
      by e = rw e (v.cached hit h)

  pop_or_insert-Gives :
      {t : Tier S}
      → Holds P t
      → (sz : ℕ) → sz < 2 ^ 62
      → (o : Option ℕ) → Below t.cache o
      → Gives P is_zero t (pop_or_insert b is_zero is_invalid k t sz o)
  unfolding pop_or_insert bucket_insert Below
  pop_or_insert-Gives {t} v sz small none _ =
      subst (λ l. Gives P is_zero t (insert_by b is_zero is_invalid k l t sz)) (sym no_launder)
        (insert_by-Gives b is_zero is_invalid k P serves null_zero sz small v)
  pop_or_insert-Gives v sz small (some hit) h = take_cached-Gives v hit h

  -- A request of less than `2 ^ 62` bytes to a tier that holds, which answers with a cached block or asks
  -- its sheets, leaves it holding with the same ranges, and a chunk that it hands out lies in one of them.
  pub cache_pop_or_insert-Gives :
      {t : Tier S}
      → Holds P t
      → (sz : ℕ) → sz < 2 ^ 62
      → Gives P is_zero t (cache_pop_or_insert b is_zero is_invalid k t sz)
  unfolding cache_pop_or_insert
  cache_pop_or_insert-Gives {t} v sz small =
      pop_or_insert-Gives v sz small (cache_hit b is_zero is_invalid k t sz) (cache_hit-Below t sz)
