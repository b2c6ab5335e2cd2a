-- ===== src/Reserve/Tests.antt =====
-- The reservation on concrete runs.
use abcmalloc.Base.{ℕ, ◌+◌, ◌-◌, ◌*◌, ◌^◌, ◌<◌, ◌≡◌, refl, ◌==◌, if◌then◌else◌, none, some, arith}
use abcmalloc.Reserve.{
  FreeRun, Reserve, better, best_run, take_run, reuse, round_up, granules_of, sheet_align, carve,
  reserved_after, carve_reserved, reserve_once, release,
}
use abcmalloc.Reserve.Runs.{BestFit, best_run-best}
use abcmalloc.Reserve.Reuse.{Takes, IsApart, Carved, reuse-Takes}
use abcmalloc.Reserve.Carve.{Carves, carve-Carves, release-Apart}

abbrev two_runs : ℕ → FreeRun
two_runs i =
    if i == 0
    then record { off = 0; granules = 1 }
    else record { off = 2 * sheet_align; granules = 3 }

-- A run of one granule, one granule in use, and a run of three granules.
abbrev with_runs : Reserve
with_runs = record { base = 2 ^ 40; offset = 5 * sheet_align; runs = two_runs; free_count = 2 }

with_runs-IsApart : IsApart with_runs
with_runs-IsApart = record {
  bounded = omega arith;
  below = λ i p. ground arith;
  apart = λ i j p q n. ground arith;
}

best_fit : best_run two_runs 2 2 none ≡ some 1
unfolding best_run better
best_fit = refl

best_run-best_example : BestFit two_runs 2 (λ i. i < 2) (best_run two_runs 2 2 none)
best_run-best_example = best_run-best two_runs 2 2

reuse-Takes_example : Takes 2 (reuse with_runs 2)
reuse-Takes_example = reuse-Takes with_runs 2 with_runs-IsApart

-- Two granules are taken from the front of the second run.
carved_address : (carve_reserved none with_runs (3 * 2 ^ 20)).1 ≡ 2 ^ 40 + 2 * sheet_align
unfolding carve_reserved reserve_once reserved_after reuse take_run best_run better granules_of
    round_up
carved_address = refl

carve-Carves_example :
    Carves (round_up (3 * 2 ^ 20)) (carve none (λ slot _. some slot) with_runs (3 * 2 ^ 20))
carve-Carves_example =
    carve-Carves none with_runs (3 * 2 ^ 20) with_runs-IsApart (omega arith) (λ slot _. some slot)

-- The granule between the runs is in use.
between-Carved : Carved with_runs (2 ^ 40 + sheet_align - with_runs.base) (round_up sheet_align)
unfolding round_up
between-Carved = record { below = omega arith; outside = λ i p. ground arith }

release-Apart_example : IsApart (release with_runs (2 ^ 40 + sheet_align) sheet_align)
release-Apart_example =
    release-Apart with_runs (2 ^ 40 + sheet_align) sheet_align with_runs-IsApart (omega arith)
      between-Carved
