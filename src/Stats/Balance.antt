-- ===== src/Stats/Balance.antt =====
-- The usage that src/stats.hpp counts is what was allocated less what was freed.
use abcmalloc.Base.{ltb-of-le, ℕ, ◌^◌, ◌<◌, ◌≤◌, ◌≡◌, refl, List, [], ◌∷◌, arith, add64}
use abcmalloc.Stats.{
  Stat, alloc, dealloc, current_memory_usage, current_page_usage, total_memory_req,
  total_memory_throughput, total_memory_freed, Storage, subtract_current, collect, collect_all,
  reset_stats,
}

-- Allocated is usage and freed, as words.
abbrev pub IsBalanced : Storage → Type 0
IsBalanced s = (s.throughput ≡ add64 s.current s.freed) × (s.current < 2 ^ 64)

-- How much a call frees.
abbrev pub frees : Stat → ℕ
frees (total_memory_freed n) = n
frees alloc = 0
frees dealloc = 0
frees current_memory_usage = 0
frees current_page_usage = 0
frees (total_memory_req n) = 0
frees (total_memory_throughput n) = 0

-- No call frees more than the usage then is.
abbrev pub IsCovered : Storage → List Stat → Type 0
IsCovered s [] = 0 ≤ s.current
IsCovered s (x ∷ xs) = (frees x ≤ s.current) × IsCovered (collect s x) xs

collect-IsBalanced :
    (s : Storage) (x : Stat) → frees x ≤ s.current → IsBalanced s → IsBalanced (collect s x)
unfolding collect subtract_current
collect-IsBalanced s alloc c v = v
collect-IsBalanced s dealloc c v = v
collect-IsBalanced s current_memory_usage c v = v
collect-IsBalanced s current_page_usage c v = v
collect-IsBalanced s (total_memory_req n) c v = v
collect-IsBalanced s (total_memory_throughput n) c v = (omega (arith, v.0), omega arith)
collect-IsBalanced s (total_memory_freed n) c v = (
  rw (ltb-of-le s.current n c) (omega (arith, v.0, v.1)),
  rw (ltb-of-le s.current n c) (omega (arith, v.1)),
)

collect_all-kept :
    (xs : List Stat) (s : Storage) → IsCovered s xs → IsBalanced s → IsBalanced (collect_all s xs)
unfolding collect_all
collect_all-kept [] s c v = v
collect_all-kept (x ∷ xs) s (c, cs) v =
    collect_all-kept xs (collect s x) cs (collect-IsBalanced s x c v)

-- From a reset on, as long as no call frees more than the usage then is, the bytes allocated are
-- the usage plus the bytes freed, modulo 2^64.
pub collect_all-IsBalanced :
    (s : Storage) (xs : List Stat)
    → IsCovered (reset_stats s) xs
    → IsBalanced (collect_all (reset_stats s) xs)
unfolding reset_stats
collect_all-IsBalanced s xs c = collect_all-kept xs (reset_stats s) c (at_reset s)
  where
    at_reset : (s : Storage) → IsBalanced (reset_stats s)
    at_reset s = (refl, omega arith)
