-- ===== src/Stats/Tests.antt =====
-- The counters after 100 bytes and a free of 40.
use abcmalloc.Base.{◌≡◌, refl, List, [], ◌∷◌, arith}
use abcmalloc.Stats.{
  Stat, alloc, dealloc, total_memory_req, total_memory_throughput, total_memory_freed, Storage,
  subtract_current, collect, collect_all, get_stats, reset_stats,
}
use abcmalloc.Stats.Balance.{IsBalanced, collect_all-IsBalanced}

abbrev some_counters : Storage
some_counters = record {
  alloc_requests = 1;
  dealloc_requests = 2;
  requested = 3;
  throughput = 4;
  freed = 5;
  current = 6;
  pages = 7;
}

abbrev events : List Stat
events =
    alloc ∷ total_memory_req 90 ∷ total_memory_throughput 100 ∷ dealloc ∷ total_memory_freed 40 ∷ []

usage_after : (get_stats (collect_all (reset_stats some_counters) events)).counters.current ≡ 60
unfolding get_stats collect_all collect subtract_current reset_stats
usage_after = refl

collect_all-IsBalanced_example : IsBalanced (collect_all (reset_stats some_counters) events)
unfolding collect subtract_current reset_stats
collect_all-IsBalanced_example =
    collect_all-IsBalanced some_counters events
      (omega arith, (omega arith, (omega arith, (omega arith, (omega arith, omega arith)))))
