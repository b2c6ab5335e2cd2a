-- ===== src/Arena/Unknown.antt =====
-- The frees of src/arena.hpp, of an address that is in no tier.
use abcmalloc.Base.{
  ℕ, ◌<◌, ◌≡◌, ◌≢◌, refl, Bool, true, false, not, ◌&&◌, ◌==◌, if◌then◌else◌, Option, some, none,
  arith, ==_ne, if_cases, inl, inr, ◌⊎◌, eq-of-==,
}
use abcmalloc.Buddy.State.{Chunk}
use abcmalloc.Harden.{check_chunk_valid, check_ptr_valid, check_alignment}
use abcmalloc.Index.Search.{IsSorted}
use abcmalloc.Arena.Insert.{InRange}
use abcmalloc.Arena.Route.{
  Setup, Arena, nowhere, locate, fail_state, return_at, vmap_remove, vmap_remove_at, vmap_tombstone,
  vmap_tombstone_at,
}
use abcmalloc.Arena.Query.{is_valid_block}
use abcmalloc.Arena.Pop.{
  Checks, free_admit, if_admitted, pop, pop_at, pop_sized, ts_pop, ts_pop_at, ts_pop_sized,
}
use abcmalloc.Arena.Routing.{Class, first, second, third, fourth, fifth, index_of, find_range-out}

-- A free that is refused and changes nothing, or, if a failed check is set to abort, ends the program.
abbrev pub Refused : (fail_result : ℕ) → Arena → Option (Arena × Bool) → Type 0
Refused fail_result a r = (r ≡ some (a, false)) ⊎ ((r ≡ none) × (fail_result < 2))

module _ (e : Setup) (k : Checks) (a : Arena) (sorted : (c : Class) → IsSorted (index_of a c))
    (mem : ℕ) (out : (c : Class) → ¬ InRange (index_of a c) mem) where
  locate-nowhere : locate a mem ≡ nowhere
  unfolding locate
  locate-nowhere =
      rw
        (
          find_range-out (index_of a first) mem (sorted first) (out first),
          find_range-out (index_of a second) mem (sorted second) (out second),
          find_range-out (index_of a third) mem (sorted third) (out third),
          find_range-out (index_of a fourth) mem (sorted fourth) (out fourth),
          find_range-out (index_of a fifth) mem (sorted fifth) (out fifth),
        )
        refl

  if_admitted-Refused :
      (f : Option (Arena × Bool))
      → f ≡ some (a, false)
      → (has_size : Bool) (n : ℕ)
      → Refused e.fail_result a (if_admitted e k a (free_admit e k has_size a mem n) f)
  unfolding free_admit fail_state
  if_admitted-Refused f none_found has_size n =
      if_cases P (not (if has_size then check_chunk_valid mem n else check_ptr_valid mem))
        (λ _. failed)
        λ _.
          if_cases P (not (check_alignment k.alignment mem)) (λ _. failed)
            λ _.
              if_cases P (k.provenance && not (is_valid_block e a mem)) (λ _. failed)
                (λ _. inl none_found)
    where
      P : Option Bool → Type 0
      P o = Refused e.fail_result a (if_admitted e k a o f)

      failed : P (fail_state e.fail_result)
      failed =
          if_cases P (e.fail_result == 0)
            (λ q. inr (refl, omega (arith, eq-of-== e.fail_result 0 q)))
            λ _.
              if_cases P (e.fail_result == 1)
                (λ q. inr (refl, omega (arith, eq-of-== e.fail_result 1 q)))
                λ _. if_cases P (e.fail_result == 2) (λ _. inl refl) (λ _. inl none_found)

  module _ (len : ℕ) (nonnull : mem ≢ 0)
      (nonzero : e.is_zero (record { ptr = mem; len = len }) ≡ false) where
    -- Where the indices of the tiers are sorted, a free of an address that is not null and in none of their
    -- ranges, with a chunk that is not zero, never succeeds and changes nothing, by each of the six calls
    -- and whichever checks are on; it ends the program only if a failed check is set to abort.
    pub frees-Refused :
        let c : Chunk = record { ptr = mem; len = len } in
        Refused e.fail_result a (pop e k a c)
        × Refused e.fail_result a (pop_at e k a mem)
        × Refused e.fail_result a (pop_sized e k a mem len)
        × Refused e.fail_result a (ts_pop e k a c)
        × Refused e.fail_result a (ts_pop_at e k a mem)
        × Refused e.fail_result a (ts_pop_sized e k a mem len)
    unfolding pop pop_at pop_sized ts_pop ts_pop_at ts_pop_sized vmap_remove vmap_remove_at
        vmap_tombstone vmap_tombstone_at return_at
    frees-Refused =
        rw (nonzero, ==_ne mem 0 nonnull, locate-nowhere)
          (
            if_admitted-Refused _ refl false len,
            if_admitted-Refused _ refl false 0,
            if_admitted-Refused _ refl true len,
            if_admitted-Refused _ refl false len,
            if_admitted-Refused _ refl false 0,
            if_admitted-Refused _ refl true len,
          )
