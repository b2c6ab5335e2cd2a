-- ===== src/Arena/GrowTests.antt =====
-- The expansion of a tier with one sheet, whose node goes into a sheet of 4096 bytes.
use abcmalloc.Base.{refl, ◌≤◌, ◌-◌, ◌^◌, ◌≢◌, ◌==◌, true, false, arith, some}
use abcmalloc.Buddy.State.{Buddy}
use abcmalloc.Buddy.Tests.{page, lent}
use abcmalloc.Sheet.{Sheet}
use abcmalloc.Tlsf.Tests.{is_zero}
use abcmalloc.Arena.Tier.{Tier}
use abcmalloc.Arena.Grow.{System, Memory, out_of_rounds, mark_arena, expand_tlsf, expand_buddy}
use abcmalloc.Arena.Growth.{mark_arena-ends}
use abcmalloc.Arena.Expansion.{Outcome, expand-Outcome}
use abcmalloc.Arena.Push.{Spaces, Options, Heap, launder}
use abcmalloc.Arena.Launder.{Failed, launder-Failed}
use abcmalloc.Arena.Route.{Setup, rz_inflate, class_small}
use abcmalloc.Harden.Tests.{fill}
use abcmalloc.Predictor.{new_predictor}
use abcmalloc.Arena.Tests.{config, lists, arena, setup, no_sheets, one_sheet}

abbrev pub system : System
system = record {
  fresh = some (2 ^ 40);
  fixed = λ slot len. some slot;
  sys_alloc = λ sz. 65536;
  protects = λ ptr len. true;
  mmap_failed = λ ptr. ptr == 2 ^ 64 - 1;
  failed_allocation = λ c. c.ptr == 2 ^ 64 - 1;
  page = 4096;
  owner = 1;
  memory = true;
  guard_pages = true;
  guard_metadata = false;
}

abbrev node_sheet : Sheet Buddy
node_sheet = record { kernel_memory = page; book = lent; guard_offset = 0 }

abbrev nodes : Tier Buddy
nodes = record (no_sheets node_sheet) {
  index = record {
    idx = λ _. record { lo = 8192; hi = 12288; nd = 64 };
    count = 1;
    last_hit = 0;
    space_mask = λ _. 1;
  };
  head = 64;
  tail = 64;
}

abbrev holding : Memory
holding = record { world = record arena.world { inner = nodes }; own = node_sheet }

mark_arena-ends_example :
    mark_arena system is_zero (λ _. false) setup.meta config 512 65 holding 512 ≢ out_of_rounds
mark_arena-ends_example =
    mark_arena-ends system is_zero (λ _. false) setup.meta config 512 65 holding 512 (omega arith)
      (omega arith)

expand-Outcome_example :
    Outcome config one_sheet (
      expand_tlsf system is_zero
        (λ _. false)
        setup.meta
        config
        512
        lists.book
        config
        512
        holding
        one_sheet
        8192)
    × Outcome config one_sheet (
        expand_buddy system is_zero
          (λ _. false)
          setup.meta
          config
          512
          lists.book
          config
          512
          holding
          one_sheet
          8192)
expand-Outcome_example =
    expand-Outcome system is_zero (λ _. false) setup.meta config 512 lists.book config 512 one_sheet
      holding 8192

abbrev pub spaces : Spaces
spaces = record {
  cache = λ _. 65536;
  small = λ _. 65536;
  medium = λ _. 65536;
  large = λ _. 65536;
  huge = λ _. 65536;
  bulk = λ sz. sz;
}

abbrev pub options : Options
options = record {
  constrained = false;
  limit = 0;
  out_of_memory = false;
  max_retries = 2;
  overcommit = 1;
  cache_step = 64;
  lazy = true;
  page_log = 12;
  classes = record {
    precise = 256;
    small = 512;
    medium = 4096;
    large = 32768;
    class_1mb = 2 ^ 20;
    class_gb = 2 ^ 29;
  };
  inner = config;
  inner_pair = 512;
  small_sheet = 512;
  medium_sheet = 512;
  large_sheet = 512;
  huge_sheet = 512;
}

abbrev pub heap : Heap
heap = record {
  arena = record arena { world = holding.world };
  own = node_sheet;
  predict = new_predictor;
}

abbrev pub guarded_setup : Setup
guarded_setup = record setup { redzone = true }

small_request : rz_inflate setup 100 ≤ class_small
unfolding rz_inflate
small_request = omega arith

launder-Failed_example :
    Failed setup system options spaces fill refl 100 small_request
      (launder setup system options spaces fill heap 100)
launder-Failed_example =
    launder-Failed setup system options spaces fill refl 100 small_request heap refl
