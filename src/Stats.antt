-- ===== src/Stats.antt =====
-- The counters of src/stats.hpp, as they are with `MICRON_ABC_STATS` defined. Each is one atomic
-- word; the steps here are the calls of `collect_stats`, one after the other.
pub mod Balance
mod Tests
use abcmalloc.Base.{ℕ, ◌-◌, Bool, true, ltb, if◌then◌else◌, List, [], ◌∷◌, add64}

-- `stat_type`, with its argument where `collect_stats` reads it; `__end` is no type of a call.
pub data Stat : Type 0 where
  alloc dealloc current_memory_usage current_page_usage : Stat
  total_memory_req total_memory_throughput total_memory_freed : (n : ℕ) → Stat

-- `__stats_storage`
pub record Storage : Type 0 where
  pub alloc_requests : ℕ
  pub dealloc_requests : ℕ
  pub requested : ℕ
  pub throughput : ℕ
  pub freed : ℕ
  pub current : ℕ
  pub pages : ℕ

-- `stats_t`
pub record StatsT : Type 0 where
  pub enabled : Bool
  pub counters : Storage

-- `__subtract_current_memory`: the usage stops at 0.
unfoldable pub subtract_current : Storage → (n : ℕ) → Storage
subtract_current s n = record s { current = if ltb s.current n then 0 else s.current - n }

unfoldable pub collect : Storage → Stat → Storage
collect s alloc = record s { alloc_requests = add64 s.alloc_requests 1 }
collect s dealloc = record s { dealloc_requests = add64 s.dealloc_requests 1 }
collect s current_memory_usage = s
collect s current_page_usage = s
collect s (total_memory_req n) = record s { requested = add64 s.requested n }
collect s (total_memory_throughput n) = record s {
  throughput = add64 s.throughput n;
  current = add64 s.current n;
}
collect s (total_memory_freed n) = subtract_current (record s { freed = add64 s.freed n }) n

unfoldable pub collect_all : Storage → List Stat → Storage
collect_all s [] = s
collect_all s (x ∷ xs) = collect_all (collect s x) xs

unfoldable pub get_stats : Storage → StatsT
get_stats s = record { enabled = true; counters = s }

unfoldable pub reset_stats : Storage → Storage
reset_stats s = record {
  alloc_requests = 0;
  dealloc_requests = 0;
  requested = 0;
  throughput = 0;
  freed = 0;
  current = 0;
  pages = 0;
}
