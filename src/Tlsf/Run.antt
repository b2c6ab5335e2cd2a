-- ===== src/Tlsf/Run.antt =====
-- A list of src/cache_list.hpp from its constructor on, used by requests, by returns of blocks that are
-- handed out and by returns that it refuses: the steps as a relation on the state and the set of the blocks that are handed out.
-- A return that succeeds for a pointer that is not handed out is no step, and neither is a request that
-- the temporal ring answers with a block that was returned.
use abcmalloc.Base.{
  ℕ, ◌+◌, ◌%◌, ◌^◌, ◌<◌, ◌≤◌, ◌≡◌, ◌≢◌, refl, sym, ap, ◌∙◌, subst, Bool, true, false, ◌==◌,
  if◌then◌else◌, arith, update, update-ne, inl, inr, Bool-cases, eq-of-==, some, ==_ne, if_cases,
  not, ◌||◌,
}
use abcmalloc.Buddy.State.{Chunk, RetFlag, tombstoned, ok, block_alloc, block_free}
use abcmalloc.Buddy.Free.{has_flag}
use abcmalloc.Tlsf.State.{Tlsf, adjusted_block_size}
use abcmalloc.Tlsf.FreeList.{fl_remove}
use abcmalloc.Tlsf.Alloc.{construct, allocate, temporal_allocate, allocate_exact, chunk_of}
use abcmalloc.Tlsf.Free.{hdr_at, tombstone, deallocate}
use abcmalloc.Tlsf.Tiles.Cut.{rest_not_start}
use abcmalloc.Tlsf.Valid.{Valid, fl_remove-SameBlocks}
use abcmalloc.Tlsf.Valid.Allocation.{
  Cut, whole, front, Served, refused, served, allocate-Served, adjusted_bounds,
}
use abcmalloc.Tlsf.Valid.Temporal.{
  in_ring, Lent, again, not_lent, fresh, temporal_allocate-Lent, Exact, allocate_exact-Exact,
}
use abcmalloc.Tlsf.Valid.Merge.{used, Freed, freed}
use abcmalloc.Tlsf.Valid.Release.{deallocate-Freed, tombstone-Valid}
use abcmalloc.Tlsf.Valid.Init.{only, construct-Valid}

-- The blocks that are handed out, after a request was answered with a chunk.
abbrev pub taken : (ℕ → Bool) → Chunk → ℕ → Bool
taken live c = if c.ptr == 0 then live else update live (hdr_at c.ptr) true

-- The calls on a list, as steps on its state and on its blocks that are handed out: requests, returns of
-- blocks that are handed out, and returns of any pointer that are refused. A temporal request takes a
-- new block (`lent`), or it shares one that is handed out (`shared`).
pub data Step (s : Tlsf) (live : ℕ → Bool) : Tlsf → (ℕ → Bool) → Type 0 where
  allocated : (n : ℕ) → n < 2 ^ 62 → Step s live (allocate s n).0 (taken live (allocate s n).1)
  lent :
      (n : ℕ)
      → n < 2 ^ 62
      → in_ring s n ≡ false
      → Step s live (temporal_allocate s n).0 (taken live (temporal_allocate s n).1)
  shared :
      (n : ℕ)
      → n < 2 ^ 62
      → in_ring s n ≡ true
      → live (hdr_at (temporal_allocate s n).1.ptr) ≡ true
      → Step s live (temporal_allocate s n).0 live
  exacted : (n : ℕ) → Step s live (allocate_exact s n).0 (taken live (allocate_exact s n).1)
  buried : (b : ℕ) → live b ≡ true → Step s live (tombstone s (b + 32)).0 live
  released : (b : ℕ) → live b ≡ true → Step s live (deallocate s (b + 32)).0 (update live b false)
  not_buried : (ptr : ℕ) → (tombstone s ptr).1 ≢ tombstoned → Step s live (tombstone s ptr).0 live
  not_released : (ptr : ℕ) → (deallocate s ptr).1 ≢ ok → Step s live (deallocate s ptr).0 live

-- The states of a list over a region, and its blocks that are handed out, from the constructor on.
pub data Reach : Tlsf → (ℕ → Bool) → Type 0 where
  built :
      (min : ℕ) (is_zero : Chunk → Bool) (m : Tlsf) (mem : Chunk) (s : Tlsf)
      → mem.ptr + mem.len + 32 ≤ 2 ^ 64
      → construct min is_zero m mem ≡ some s
      → s.base ≢ 0
      → Reach s (λ _. false)
  after : {s t : Tlsf} {live live' : ℕ → Bool} → Reach s live → Step s live t live' → Reach t live'

-- The state is valid, and the blocks that are handed out are those that are in no list.
pub data Sound (s : Tlsf) (live : ℕ → Bool) : Type 0 where
  sound :
      (start free : ℕ → Bool)
      → Valid s start free
      → ((c : ℕ) → live c ≡ used start free c)
      → Sound s live

module _ {s : Tlsf} {start free live : ℕ → Bool} (v : Valid s start free)
    (same : (c : ℕ) → live c ≡ used start free c) where
  pub whole_used :
      (b : ℕ) → free b ≡ true → (c : ℕ) → update live b true c ≡ used start (update free b false) c
  whole_used b h c = elim (Bool-cases (b == c)) [
    | inl e ↦ rw e (ground (arith, ap start (eq-of-== b c e), v.core.subset b h))
    | inr e ↦ rw e (same c)
  ]

  pub front_used :
      (b n : ℕ)
      → free b ≡ true
      → n + 64 ≤ s.bsize b
      → 64 ≤ n
      → n % 32 ≡ 0
      → (c : ℕ)
      → update live b true c
        ≡ used (update start (b + n) true) (update (update free b false) (b + n) true) c
  front_used b n h fits enough steps c = elim (Bool-cases (b + n == c)) [
    | inl e ↦ rw e (
        update-ne live b true c (omega (arith, eq-of-== (b + n) c e))
        ∙ same c
        ∙ rw
            (sym (ap start (eq-of-== (b + n) c e))
              ∙ rest_not_start v.core.tiled b n (v.core.subset b h) fits enough steps)
            refl)
    | inr e ↦ rw e (whole_used b h c)
  ]

  -- The block that a request is answered with.
  pub taken_block :
      (b : ℕ) → free b ≡ true → (u : Tlsf) → taken live (chunk_of u b) ≡ update live b true
  taken_block b h u = rw (==_ne (b + 32) 0 (omega arith), the_ptr) refl
    where
      the_ptr : hdr_at (b + 32) ≡ b
      the_ptr = omega (
        arith,
        (v.core.tiled.inside b (v.core.subset b h)).1,
        (v.core.tiled.sized b (v.core.subset b h)).0,
        v.core.in_space,
      )

  Cut-Sound :
      (b n : ℕ)
      → free b ≡ true
      → 64 ≤ n
      → n % 32 ≡ 0
      → (u : Tlsf) → Cut (fl_remove s b) start (update free b false) b n u
      → Sound u (taken live (chunk_of u b))
  Cut-Sound b n h enough steps u (whole _ _ _ _ _ w) =
      subst (Sound u) (sym (taken_block b h u))
        (sound start (update free b false) w (whole_used b h))
  Cut-Sound b n h enough steps u (front _ fits _ _ _ w) =
      subst (Sound u) (sym (taken_block b h u)) (
        sound (update start (b + n) true) (update (update free b false) (b + n) true) w (
          front_used b n h
            (subst (λ (z : ℕ → ℕ). n + 64 ≤ z b) (fl_remove-SameBlocks s b).same_bsize fits) enough
            steps))

  Served-Sound :
      (n : ℕ)
      → n < 2 ^ 62
      → (r : Tlsf × Chunk) → Served s start free n r
      → Sound r.0 (taken live r.1)
  Served-Sound n p _ (refused _) = sound start free v same
  Served-Sound n p _ (served b h le u c) =
      Cut-Sound b (adjusted_block_size n) h (adjusted_bounds n p).0 (adjusted_bounds n p).1 u c

  Lent-Sound :
      (n : ℕ)
      → n < 2 ^ 62
      → in_ring s n ≡ false
      → (r : Tlsf × Chunk) → Lent s start free n r
      → Sound r.0 (taken live r.1)
  Lent-Sound n p out _ (again u slot e _ w) = absurd (ground (arith, out, e))
  Lent-Sound n p out _ (not_lent e _) = sound start free v same
  Lent-Sound n p out _ (fresh b e h le u c) =
      Cut-Sound b (adjusted_block_size n) h (adjusted_bounds n p).0 (adjusted_bounds n p).1 u c

  Shared-Sound :
      (n : ℕ) → in_ring s n ≡ true → (r : Tlsf × Chunk) → Lent s start free n r → Sound r.0 live
  Shared-Sound n hit _ (again u slot e _ w) = sound start free w same
  Shared-Sound n hit _ (not_lent e _) = absurd (ground (arith, hit, e))
  Shared-Sound n hit _ (fresh b e h le u c) = absurd (ground (arith, hit, e))

  Exact-Sound : (n : ℕ) → (r : Tlsf × Chunk) → Exact s start free n r → Sound r.0 (taken live r.1)
  Exact-Sound n _ Exact.refused = sound start free v same
  Exact-Sound n _ (Exact.exact b h _ u _ w) =
      subst (Sound u) (sym (taken_block b h u))
        (sound start (update free b false) w (whole_used b h))

  Freed-Sound : (b : ℕ) → (u : Tlsf) → Freed s start free b u → Sound u (update live b false)
  Freed-Sound b u (freed _ start' free' w now _) = sound start' free' w (λ c.
      elim (Bool-cases (b == c)) [
        | inl e ↦ rw e (sym (now c ∙ rw e refl))
        | inr e ↦ rw e (same c ∙ sym (now c ∙ rw e refl))
      ])

only_used : (b c : ℕ) → false ≡ used (only b) (only b) c
only_used b c = elim (Bool-cases (b == c)) [ inl e ↦ rw e refl | inr e ↦ rw e refl ]

-- A return that is refused changes nothing.
pub tombstone_refused :
    (s : Tlsf) (ptr : ℕ) → (tombstone s ptr).1 ≢ tombstoned → (tombstone s ptr).0 ≡ s
unfolding tombstone
tombstone_refused s ptr =
    if_cases (λ (r : Tlsf × RetFlag). r.1 ≢ tombstoned → r.0 ≡ s)
      (not (has_flag (s.flags (hdr_at ptr)) block_alloc)) (λ _ _. refl) (λ _ n. absurd (n refl))

pub deallocate_refused : (s : Tlsf) (ptr : ℕ) → (deallocate s ptr).1 ≢ ok → (deallocate s ptr).0 ≡ s
unfolding deallocate
deallocate_refused s ptr =
    let P : Tlsf × RetFlag → Type 0 = λ r. r.1 ≢ ok → r.0 ≡ s in
    if_cases P (ptr == 0 || s.base == 0) (λ _ _. refl)
      (λ _. if_cases P (s.flags (hdr_at ptr) == block_free) (λ _ _. refl) (λ _ n. absurd (n refl)))

-- Every step keeps the list valid.
pub Step-Sound :
    {s t : Tlsf} {live live' : ℕ → Bool} → Sound s live → Step s live t live' → Sound t live'
Step-Sound {s} (sound start free v same) (allocated n p) =
    Served-Sound v same n p (allocate s n) (allocate-Served v n p)
Step-Sound {s} (sound start free v same) (lent n p out) =
    Lent-Sound v same n p out (temporal_allocate s n) (temporal_allocate-Lent v n p)
Step-Sound {s} (sound start free v same) (shared n p hit _) =
    Shared-Sound v same n hit (temporal_allocate s n) (temporal_allocate-Lent v n p)
Step-Sound {s} (sound start free v same) (exacted n) =
    Exact-Sound v same n (allocate_exact s n) (allocate_exact-Exact v n)
Step-Sound {s} (sound start free v same) (buried b h) =
    sound start free (tombstone-Valid v b (sym (same b) ∙ h)) same
Step-Sound {s} (sound start free v same) (released b h) =
    Freed-Sound v same b (deallocate s (b + 32)).0 (deallocate-Freed v b (sym (same b) ∙ h)).1
Step-Sound {s} {t} {live} p (not_buried ptr n) =
    subst (λ u. Sound u live) (sym (tombstone_refused s ptr n)) p
Step-Sound {s} {t} {live} p (not_released ptr n) =
    subst (λ u. Sound u live) (sym (deallocate_refused s ptr n)) p

-- A list built over a region and used by requests of less than 2^62 bytes (exact ones of any size) and
-- by returns of blocks that are handed out, or of any pointer if the list refuses them, in any order, is
-- valid (its blocks tile the region, its free lists are linked, its bitmaps agree with them and its flags
-- with the blocks in use), and the blocks that are handed out are those of its blocks that are in no free
-- list. Left out are returns that succeed for a pointer that is not handed out, and requests that the
-- temporal ring answers with a block that was returned.
pub Reach-Sound : {s : Tlsf} {live : ℕ → Bool} → Reach s live → Sound s live
Reach-Sound (built min is_zero m mem s space e n) =
    sound (only (s.base + 32)) (only (s.base + 32)) (construct-Valid min is_zero m s mem space e n)
      (only_used (s.base + 32))
Reach-Sound (after r step) = Step-Sound (Reach-Sound r) step
