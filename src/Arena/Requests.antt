-- ===== src/Arena/Requests.antt =====
-- The requests to the arena of src/arena.hpp: the tier that a block is returned to is the one that its
-- request was sent to, for the sizes whose tiers are built on lists of src/cache_list.hpp.
use abcmalloc.Base.{ℕ, ◌<◌, ◌≡◌, refl, sym, subst, false, ltb, leb, arith, if_cases}
use abcmalloc.Buddy.State.{Chunk}
use abcmalloc.Arena.Tier.{Tier, cache_pop_or_insert}
use abcmalloc.Arena.Insert.{InRange, InRange-same, Holds, Gives, Serves}
use abcmalloc.Arena.Cached.{cache_pop_or_insert-Gives}
use abcmalloc.Tlsf.State.{Tlsf}
use abcmalloc.Arena.Small.{tlsf-Serves}
use abcmalloc.Arena.Route.{Kind, Setup, Arena, locate, vmap_alloc, put_precise, put_small, pop_from}
use abcmalloc.Arena.Routing.{
  Class, first, second, class_at, class_of, index_of, SmallTiers, IsTlsf, Within, Intact,
  locate-tier,
}

-- The arena after a request: it is intact, and a chunk is in a range of the tier for its size.
pub record Routed (e : Setup) (sz : ℕ) (r : Arena × Chunk) : Type 0 where
  pub intact : Intact r.0
  pub chunk : e.is_zero r.1 ≡ false → InRange (index_of r.0 (class_of sz)) r.1.ptr

-- The ranges of the tiers are the same.
abbrev SameAt : Arena → Arena → Class → Type 0
SameAt a u c =
    ((index_of u c).idx ≡ (index_of a c).idx) × ((index_of u c).count ≡ (index_of a c).count)

abbrev SameRanges : Arena → Arena → Type 0
SameRanges a u = (c : Class) → SameAt a u c

same-apart :
    (a u : Arena)
    → SameRanges a u
    → ((c d : Class) (p : ℕ) → InRange (index_of a c) p → InRange (index_of a d) p → c ≡ d)
    → (c d : Class) (p : ℕ) → InRange (index_of u c) p
    → InRange (index_of u d) p
    → c ≡ d
same-apart a u s v c d p h k =
    v c d p (InRange-same (index_of a c) (index_of u c) (s c).0 (s c).1 h)
      (InRange-same (index_of a d) (index_of u d) (s d).0 (s d).1 k)

module _ (e : Setup) (w : SmallTiers e) where
  -- What a tier needs of its sheets.
  book-Serves : (k : Kind Tlsf) → IsTlsf e k → Serves k.book e.is_zero e.is_invalid Within
  book-Serves k u =
      subst (λ b. Serves b e.is_zero e.is_invalid Within) (sym u.book)
        (tlsf-Serves u.min u.memory e.is_zero e.is_invalid w.null_zero w.nonnull)

module _ (e : Setup) (w : SmallTiers e) {a : Arena} (v : Intact a) (sz : ℕ)
    (small : sz < 4096) where
  pop-Gives :
      (k : Kind Tlsf) (u : IsTlsf e k) {t : Tier Tlsf}
      → Holds Within t
      → Gives Within e.is_zero t (cache_pop_or_insert k.book e.is_zero e.is_invalid k.config t sz)
  pop-Gives k u h =
      cache_pop_or_insert-Gives k.book e.is_zero e.is_invalid k.config Within (book-Serves e w k u)
        w.null_zero u.no_launder h sz (omega (arith, small))

  -- The answer of the tier for the size, put into the arena.
  Routed-in :
      (c : Class) (u : Arena) (m : Chunk)
      → class_of sz ≡ c
      → SameRanges a u
      → (((d : Class) (b : Class) (p : ℕ)
            → InRange (index_of u d) p
            → InRange (index_of u b) p
            → d ≡ b)
          → Intact u)
      → (e.is_zero m ≡ false → InRange (index_of a c) m.ptr)
      → Routed e sz (u, m)
  Routed-in c u m q same intact inside = record {
    intact = intact (same-apart a u same v.apart);
    chunk = λ n.
        subst (λ d. InRange (index_of u d) m.ptr) (sym q)
          (InRange-same (index_of u c) (index_of a c) (sym (same c).0) (sym (same c).1) (inside n));
  }

  at_first : class_of sz ≡ first → Routed e sz (put_precise e a (pop_from e e.precise a.precise sz))
  at_first q =
      let g = pop-Gives e.precise w.precise v.precise in
      Routed-in first _ _ q
        (λ c. elim c as (SameAt a (put_precise e a (pop_from e e.precise a.precise sz)).0) [
          | first ↦ (g.same_idx, g.same_count)
          | _ ↦ (refl, refl)
        ])
        (λ apart. record {
          precise = g.holds;
          small = v.small;
          medium = v.medium;
          large = v.large;
          huge = v.huge;
          apart = apart;
        })
        g.chunk

  at_second : class_of sz ≡ second → Routed e sz (put_small e a (pop_from e e.small a.small sz))
  at_second q =
      let g = pop-Gives e.small w.small v.small in
      Routed-in second _ _ q
        (λ c. elim c as (SameAt a (put_small e a (pop_from e e.small a.small sz)).0) [
          | second ↦ (g.same_idx, g.same_count)
          | _ ↦ (refl, refl)
        ])
        (λ apart. record {
          precise = v.precise;
          small = g.holds;
          medium = v.medium;
          large = v.large;
          huge = v.huge;
          apart = apart;
        })
        g.chunk

  pub vmap_alloc-Routed : Routed e sz (vmap_alloc e a sz)
  unfolding vmap_alloc
  vmap_alloc-Routed =
      if_cases (Routed e sz) (leb sz 512) (λ q. at_first (ground arith))
        λ q1.
          if_cases (Routed e sz) (ltb sz 4096) (λ q. at_second (ground arith))
            (λ q2. absurd (ground (arith, q2, small)))

  -- A request of less than 4096 bytes to an arena whose two tiers for small sizes are built on lists of
  -- src/cache_list.hpp without temporal blocks (`SmallTiers`) and hold, and whose tiers have sorted indices
  -- and no address in common (`Intact`), leaves such an arena, and if it is answered with a chunk, then
  -- the pointer, looked up in the arena afterwards to free it, is found in the tier for the size of the
  -- request.
  pub vmap_alloc-locate :
      Intact (vmap_alloc e a sz).0
      × (e.is_zero (vmap_alloc e a sz).1 ≡ false
          → class_at (locate (vmap_alloc e a sz).0 (vmap_alloc e a sz).1.ptr) ≡ class_of sz)
  vmap_alloc-locate =
      let r = vmap_alloc-Routed in
      (
        r.intact,
        λ n.
            locate-tier (vmap_alloc e a sz).0 r.intact (class_of sz) (vmap_alloc e a sz).1.ptr
              (r.chunk n),
      )
