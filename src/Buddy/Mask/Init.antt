-- ===== src/Buddy/Mask/Init.antt =====
-- A new `__buddy_list` (src/free_list.hpp): its bitmap names its one block, whose order fits.
use abcmalloc.Base.{
  ℕ, ◌+◌, ◌-◌, ◌*◌, ◌/◌, ◌^◌, ◌≡◌, ◌≢◌, subst, Bool, false, arith, ltb, leb, ◌||◌, if◌then◌else◌,
  if_cases, Option, some, List,
}
use mathlib.Core.Option.{some-injective}
use abcmalloc.Base.Bits.{bit-zero}
use abcmalloc.Base.Bits.Count.{floor_log2}
use abcmalloc.Buddy.State.{Buddy, Chunk}
use abcmalloc.Buddy.Alloc.{
  zero_arrays, no_region, align_ptr, one_block, init_external, init_internal, init_memory,
  construct,
}
use abcmalloc.Buddy.Ops.{Op, run}
use abcmalloc.Buddy.Mask.{Agrees, Agrees-set, MaskAgrees}
use abcmalloc.Buddy.Mask.Ops.{run-MaskAgrees}

empty-Agrees : Agrees 0 (λ i. 0)
empty-Agrees = record { width = omega arith; names = λ o h. bit-zero o }

no_region-MaskAgrees :
    (s : Buddy) (external : Bool)
    → Agrees s.free_mask s.free_lists
    → MaskAgrees (no_region s external)
unfolding no_region
no_region-MaskAgrees s external a = record { agrees = a; orders = omega arith }

zero_arrays-Agrees : (s : Buddy) → Agrees (zero_arrays s).free_mask (zero_arrays s).free_lists
unfolding zero_arrays
zero_arrays-Agrees s = empty-Agrees

align_ptr-ne_zero : (p : ℕ) → p ≢ 0 → align_ptr p ≢ 0
unfolding align_ptr
align_ptr-ne_zero p h = omega arith

module _ (k : ℕ) where
  one_block-MaskAgrees :
      (s : Buddy) (base total : ℕ) → base ≢ 0 → MaskAgrees (one_block k s base total)
  unfolding one_block zero_arrays
  one_block-MaskAgrees s base total h = record {
    agrees = Agrees-set empty-Agrees top base (ground arith) h;
    orders = ground arith;
  }
    where
      top : ℕ
      top =
          if ltb 64 (floor_log2 64 (total / 2 ^ k) + 1)
          then 63
          else floor_log2 64 (total / 2 ^ k) + 1 - 1

  module _ (s : Buddy) (a : Agrees s.free_mask s.free_lists) where
    init_external-MaskAgrees :
        (aligned usable : ℕ) → aligned ≢ 0 → MaskAgrees (init_external k s aligned usable)
    unfolding init_external
    init_external-MaskAgrees aligned usable h =
        if_cases MaskAgrees (ltb (usable / 2 ^ k * 2 ^ k) (2 ^ k))
          (λ _. no_region-MaskAgrees s false a)
          (λ _. one_block-MaskAgrees _ aligned (usable / 2 ^ k * 2 ^ k) h)

    init_internal-MaskAgrees :
        (aligned usable : ℕ) → aligned ≢ 0 → MaskAgrees (init_internal k s aligned usable)
    unfolding init_internal
    init_internal-MaskAgrees aligned usable h =
        if_cases MaskAgrees (leb usable area) (λ _. no_region-MaskAgrees s false a)
          λ _.
            if_cases MaskAgrees (ltb rest (2 ^ k)) (λ _. no_region-MaskAgrees s false a)
              λ _.
                one_block-MaskAgrees (record s { tags_external = false }) (aligned + area) rest
                  (omega arith)
      where
        area : ℕ
        area = ((usable + 2 ^ k) / (2 ^ k + 1) + 2 ^ k - 1) / 2 ^ k * 2 ^ k

        rest : ℕ
        rest = (usable - area) / 2 ^ k * 2 ^ k

    init_memory-MaskAgrees :
        (ptr len : ℕ) (external : Bool) → ptr ≢ 0 → MaskAgrees (init_memory k s ptr len external)
    unfolding init_memory
    init_memory-MaskAgrees ptr len external h =
        if_cases MaskAgrees (leb len adjust) (λ _. no_region-MaskAgrees s false a)
          λ _.
            if_cases MaskAgrees external
              (λ _.
                init_external-MaskAgrees (align_ptr ptr) (len - adjust) (align_ptr-ne_zero ptr h))
              (λ _.
                init_internal-MaskAgrees (align_ptr ptr) (len - adjust) (align_ptr-ne_zero ptr h))
      where
        adjust : ℕ
        adjust = align_ptr ptr - ptr

  construct-MaskAgrees :
      (is_zero : Chunk → Bool) (m : Buddy) (mem : Chunk) (external : Bool) {s : Buddy}
      → mem.ptr ≢ 0
      → construct k is_zero m mem external ≡ some s
      → MaskAgrees s
  unfolding construct
  construct-MaskAgrees is_zero m mem external {s} h =
      if_cases (λ (r : Option Buddy). r ≡ some s → MaskAgrees s)
        (is_zero mem || ltb mem.len (2 ^ k)) (λ _ e. cc)
        (λ _ e.
          subst MaskAgrees (some-injective _ _ e)
            (init_memory-MaskAgrees _ empty_blank mem.ptr mem.len external h))
    where
      empty_blank :
          Agrees
            (zero_arrays (no_region m external)).free_mask
            (zero_arrays (no_region m external)).free_lists
      empty_blank = zero_arrays-Agrees (no_region m external)

  -- A list built over a region and used by any calls in any order: bit `o` of `free_mask` is set
  -- exactly if the free list of order `o` is not empty, and no bit above 63 is.
  pub run-construct-MaskAgrees :
      (is_zero : Chunk → Bool) (m : Buddy) (mem : Chunk) (external : Bool) (ops : List Op)
      {s : Buddy}
      → mem.ptr ≢ 0
      → construct k is_zero m mem external ≡ some s
      → MaskAgrees (run k s ops)
  run-construct-MaskAgrees is_zero m mem external ops {s} h e =
      run-MaskAgrees k s ops (construct-MaskAgrees is_zero m mem external h e)
