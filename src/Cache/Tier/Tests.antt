-- ===== src/Cache/Tier/Tests.antt =====
-- The cache of src/tcache.hpp with three entries.
use abcmalloc.Base.{ℕ, ◌≡◌, refl, [], ◌∷◌}
use abcmalloc.Cache.Tier.{
  TierCache, empty, push, scan_down, probe, probe_ge, pop_at, contains, contains_from, contents,
  invalidate_range, invalidate_from,
}
use abcmalloc.Cache.Tier.Contents.{invalidate_range-contents}

abbrev three : TierCache
unfolding push
three = (push 4 (push 4 (push 4 empty 100 64).0 200 96).0 300 64).0

-- What the tests compute with.
running : ℕ
unfolding three push scan_down probe probe_ge pop_at contains contains_from invalidate_range
    invalidate_from
running = 0

contents-three : contents three ≡ (100, 64) ∷ (200, 96) ∷ (300, 64) ∷ []
unfolding running
contents-three = refl

invalidate_range-contents_example :
    contents (invalidate_range three 150 250) ≡ (100, 64) ∷ (300, 64) ∷ []
unfolding three push
invalidate_range-contents_example = invalidate_range-contents three 150 250
