-- ===== src/Arena/Recycle.antt =====
-- A block that is freed into the cache of a tier of src/arena.hpp, and what a second free of it does.
use abcmalloc.Base.{
  ℕ, ◌+◌, ◌-◌, ◌%◌, ◌^◌, ◌<◌, ◌≤◌, ◌≡◌, refl, ap, Bool, true, false, ltb, leb, ◌==◌, if◌then◌else◌,
  arith, Option, none, some, update_self, ==_self, ==_ne, subst, ltb-of-lt, leb-of-lt, leb-of-le,
  if_cases,
}
use abcmalloc.Buddy.State.{Buddy, Chunk, hdr_offset}
use abcmalloc.Cache.Tier.{
  TierCache, CacheChunk, push, pushed, probe, probe_ge, pop_at, contains, contents,
}
use abcmalloc.Cache.Tier.Search.{contains_iff}
use abcmalloc.Cache.Tier.Contents.{scan_down-hit, push-probe-pop_at}
use abcmalloc.Sheet.{Book, Sheet, is_block_allocated, block_size_of}
use abcmalloc.Arena.Tier.{
  Tier, Config, caching, sheet_at, cache_hit, take_cached, pop_or_insert, cache_pop_or_insert,
}
use abcmalloc.Arena.Remove.{
  World, handle_double_free, removed, cache_push, cache_push_or_remove, tier_remove_at,
}

-- The tier with one more block in its cache.
abbrev pub with_cached : {S : Type 0} → Tier S → (ptr size : ℕ) → Tier S
with_cached t ptr size = record t { cache = pushed t.cache ptr (size % 2 ^ 32) }

-- What a free of a block that is free already does: by the action that is set it is refused, or the
-- program stops; nothing changes.
abbrev pub refused_free : {A : Type 0} → (action : ℕ) → A → Option (A × Bool)
refused_free action a = if action == 2 then none else some (a, false)

-- The bytes of a freed chunk that the cache keeps.
abbrev pub kept : {S : Type 0} → (is_zero is_invalid : Chunk → Bool) → Book S → Sheet S → Chunk → ℕ
kept is_zero is_invalid b sh chunk =
    let cap = block_size_of b is_zero is_invalid sh chunk.ptr - hdr_offset in
    if ltb cap chunk.len then cap else chunk.len

module _ {S : Type 0} (is_zero is_invalid : Chunk → Bool) (b : Book S) (meta : Book Buddy)
    (k : Config) (pair : ℕ) (on : caching k ≡ true) (w : World) (t : Tier S) (pos : ℕ) where
  removed-refused_free :
      (u : Tier S) (r : Option (World × Tier S))
      → removed is_zero is_invalid b meta k pair r w u false
        ≡ refused_free k.double_free_action (w, u)
  unfolding removed handle_double_free
  removed-refused_free u r = ground arith

  module _ (chunk : Chunk)
      (live : is_block_allocated b is_zero is_invalid (sheet_at t pos) chunk.ptr ≡ true)
      (big : hdr_offset < block_size_of b is_zero is_invalid (sheet_at t pos) chunk.ptr) where
    module _ (room : t.cache.count < k.cache_slots) (slots : k.cache_slots < 2 ^ 32) where
      cached :
          contains t.cache chunk.ptr ≡ false
          → cache_push_or_remove is_zero is_invalid b meta k pair w t pos chunk
            ≡ some (
              (w, with_cached t chunk.ptr (kept is_zero is_invalid b (sheet_at t pos) chunk)),
              true,
            )
      unfolding cache_push_or_remove cache_push push
      cached fresh =
          rw (on, live, fresh, ltb-of-lt _ _ big, leb-of-lt k.cache_slots t.cache.count room) refl

      -- A request that the block in the cache fits: the sizes are equal where there are canaries.
      hit :
          (sz : ℕ)
          → sz % 2 ^ 32 ≤ (kept is_zero is_invalid b (sheet_at t pos) chunk) % 2 ^ 32
          → (k.redzone ≡ true
              → sz % 2 ^ 32 ≡ (kept is_zero is_invalid b (sheet_at t pos) chunk) % 2 ^ 32)
          → cache_hit b is_zero is_invalid k
              (with_cached t chunk.ptr (kept is_zero is_invalid b (sheet_at t pos) chunk))
              sz
            ≡ some t.cache.count
      unfolding cache_hit probe probe_ge
      hit sz fits same =
          rw (on, ==_ne (t.cache.count + 1) 0 (omega arith))
            (if_cases (λ (o : Option ℕ). o ≡ some t.cache.count) k.redzone
              (λ r.
                scan_down-hit (λ i. sizes i == sz % 2 ^ 32) t.cache.count
                  (rw here (rw (same r) (==_self _))))
              (λ _.
                scan_down-hit (λ i. leb (sz % 2 ^ 32) (sizes i)) t.cache.count
                  (rw here (leb-of-le _ _ fits))))
        where
          sizes : ℕ → ℕ
          sizes =
              (with_cached t chunk.ptr
                (kept is_zero is_invalid b (sheet_at t pos) chunk)).cache.size

          here : sizes t.cache.count ≡ (kept is_zero is_invalid b (sheet_at t pos) chunk) % 2 ^ 32
          here =
              update_self t.cache.size t.cache.count
                ((kept is_zero is_invalid b (sheet_at t pos) chunk) % 2 ^ 32)

      pushed_cache :
          (push k.cache_slots t.cache chunk.ptr
            ((kept is_zero is_invalid b (sheet_at t pos) chunk) % 2 ^ 32)).0
          ≡ pushed t.cache chunk.ptr ((kept is_zero is_invalid b (sheet_at t pos) chunk) % 2 ^ 32)
      unfolding push
      pushed_cache = rw (leb-of-lt k.cache_slots t.cache.count room) refl

      next_request :
          (sz : ℕ)
          → sz % 2 ^ 32 ≤ (kept is_zero is_invalid b (sheet_at t pos) chunk) % 2 ^ 32
          → (k.redzone ≡ true
              → sz % 2 ^ 32 ≡ (kept is_zero is_invalid b (sheet_at t pos) chunk) % 2 ^ 32)
          → let r =
              cache_pop_or_insert b is_zero is_invalid k
                (with_cached t chunk.ptr (kept is_zero is_invalid b (sheet_at t pos) chunk))
                sz in
            (r.1 ≡ record {
              ptr = chunk.ptr;
              len = (kept is_zero is_invalid b (sheet_at t pos) chunk) % 2 ^ 32;
            })
            × (contents r.0.cache ≡ contents t.cache)
      unfolding cache_pop_or_insert pop_or_insert take_cached
      next_request sz fits same = rw (hit sz fits same) (
          let (_, c, rest) =
            subst
              (λ (c' : TierCache).
                (probe c' ((kept is_zero is_invalid b (sheet_at t pos) chunk) % 2 ^ 32)
                  ≡ some t.cache.count)
                × ((pop_at c' t.cache.count).1 ≡ record {
                  ptr = chunk.ptr;
                  size = (kept is_zero is_invalid b (sheet_at t pos) chunk) % 2 ^ 32;
                })
                × (contents (pop_at c' t.cache.count).0 ≡ contents t.cache))
              pushed_cache
              (push-probe-pop_at k.cache_slots t.cache chunk.ptr
                ((kept is_zero is_invalid b (sheet_at t pos) chunk) % 2 ^ 32) room slots) in
          (ap (λ (d : CacheChunk). record { ptr = d.ptr; len = d.size }) c, rest))

      held :
          contains
            (with_cached t chunk.ptr (kept is_zero is_invalid b (sheet_at t pos) chunk)).cache
            chunk.ptr
          ≡ true
      held =
          subst
            (λ p.
              contains
                (with_cached t chunk.ptr (kept is_zero is_invalid b (sheet_at t pos) chunk)).cache p
              ≡ true)
            (update_self t.cache.ptr t.cache.count chunk.ptr)
            ((contains_iff
                (with_cached t chunk.ptr (kept is_zero is_invalid b (sheet_at t pos) chunk)).cache
                chunk.ptr).1
              t.cache.count (omega arith))

      module _ (fresh : contains t.cache chunk.ptr ≡ false) where
        -- A block in use that has room for more than its header and is not in the cache, where the tier
        -- caches and the cache has room: a free of it succeeds and changes only the cache, and the next
        -- request of at most its size (of exactly its size, where the tier has canaries) gets it back and
        -- leaves the cache with the entries from before.
        pub cache_push_or_remove-pop :
            let t' = with_cached t chunk.ptr (kept is_zero is_invalid b (sheet_at t pos) chunk) in
            (cache_push_or_remove is_zero is_invalid b meta k pair w t pos chunk
              ≡ some ((w, t'), true))
            × ((sz : ℕ)
                → sz % 2 ^ 32 ≤ (kept is_zero is_invalid b (sheet_at t pos) chunk) % 2 ^ 32
                → (k.redzone ≡ true
                    → sz % 2 ^ 32 ≡ (kept is_zero is_invalid b (sheet_at t pos) chunk) % 2 ^ 32)
                → let r = cache_pop_or_insert b is_zero is_invalid k t' sz in
                  (r.1 ≡ record {
                    ptr = chunk.ptr;
                    len = (kept is_zero is_invalid b (sheet_at t pos) chunk) % 2 ^ 32;
                  })
                  × (contents r.0.cache ≡ contents t.cache))
        cache_push_or_remove-pop = (cached fresh, next_request)

        -- A second free of the block, as a chunk or, where there are no canaries, by its address, is
        -- refused by the action that is set, and nothing changes.
        pub cache_push_or_remove_twice :
            let t' = with_cached t chunk.ptr (kept is_zero is_invalid b (sheet_at t pos) chunk) in
            (cache_push_or_remove is_zero is_invalid b meta k pair w t pos chunk
              ≡ some ((w, t'), true))
            × (cache_push_or_remove is_zero is_invalid b meta k pair w t' pos chunk
                ≡ refused_free k.double_free_action (w, t'))
            × (k.redzone ≡ false
                → tier_remove_at is_zero is_invalid b meta k pair w t' pos chunk.ptr
                  ≡ refused_free k.double_free_action (w, t'))
        unfolding cache_push_or_remove tier_remove_at removed
        cache_push_or_remove_twice = (
          cached fresh,
          rw (on, held, live)
              (removed-refused_free
                (with_cached t chunk.ptr (kept is_zero is_invalid b (sheet_at t pos) chunk)) none),
          λ plain.
              rw (plain, live, on, held)
                (removed-refused_free
                  (with_cached t chunk.ptr (kept is_zero is_invalid b (sheet_at t pos) chunk))
                  none),
        )
