-- ===== src/Arena/Others.antt =====
-- The tiers that a request to the arena of src/arena.hpp leaves alone: all but the one for its size, also
-- where the arena is expanded.
use abcmalloc.Base.{
  ℕ, ◌^◌, ◌≡◌, ◌≢◌, refl, sym, ◌∙◌, Bool, true, ltb, leb, Option, none, some, arith, if_cases,
}
use abcmalloc.Buddy.State.{Buddy, Chunk}
use abcmalloc.Tlsf.State.{Tlsf}
use abcmalloc.Arena.Tier.{Tier}
use abcmalloc.Arena.Route.{Setup, Arena, vmap_alloc, pop_from}
use abcmalloc.Arena.Grow.{System, Memory}
use abcmalloc.Arena.Push.{
  Spaces, Options, Heap, grown_heap, buf_expand_exact, expand_predicted, expand_for,
}
use abcmalloc.Arena.Routing.{
  Class, first, second, third, fourth, fifth, outside, class_of, index_of,
}

-- The indices of the tiers are the same, but for that of the tier for `n` bytes.
abbrev pub SameOthers : (n : ℕ) → Arena → Arena → Type 0
SameOthers n a u = (c : Class) → c ≢ class_of n → index_of u c ≡ index_of a c

pub SameOthers-trans :
    (n : ℕ) (a u w : Arena) → SameOthers n a u → SameOthers n u w → SameOthers n a w
SameOthers-trans n a u w p q c ne = q c ne ∙ p c ne

pub SameOthers-bytes :
    (n : ℕ) (a u : Arena) (b : ℕ → ℕ) → SameOthers n a u → SameOthers n a (record u { bytes = b })
SameOthers-bytes n a u b p first = p first
SameOthers-bytes n a u b p second = p second
SameOthers-bytes n a u b p third = p third
SameOthers-bytes n a u b p fourth = p fourth
SameOthers-bytes n a u b p fifth = p fifth
SameOthers-bytes n a u b p outside = p outside

module _ (n : ℕ) (a : Arena) where
  in_first : class_of n ≡ first → (t : Tier Tlsf) → SameOthers n a (record a { precise = t })
  in_first q t first ne = absurd (ne (sym q))
  in_first q t second ne = refl
  in_first q t third ne = refl
  in_first q t fourth ne = refl
  in_first q t fifth ne = refl
  in_first q t outside ne = refl

  in_second : class_of n ≡ second → (t : Tier Tlsf) → SameOthers n a (record a { small = t })
  in_second q t second ne = absurd (ne (sym q))
  in_second q t first ne = refl
  in_second q t third ne = refl
  in_second q t fourth ne = refl
  in_second q t fifth ne = refl
  in_second q t outside ne = refl

  in_third : class_of n ≡ third → (t : Tier Buddy) → SameOthers n a (record a { medium = t })
  in_third q t third ne = absurd (ne (sym q))
  in_third q t first ne = refl
  in_third q t second ne = refl
  in_third q t fourth ne = refl
  in_third q t fifth ne = refl
  in_third q t outside ne = refl

  in_fourth : class_of n ≡ fourth → (t : Tier Buddy) → SameOthers n a (record a { large = t })
  in_fourth q t fourth ne = absurd (ne (sym q))
  in_fourth q t first ne = refl
  in_fourth q t second ne = refl
  in_fourth q t third ne = refl
  in_fourth q t fifth ne = refl
  in_fourth q t outside ne = refl

  in_fifth : class_of n ≡ fifth → (t : Tier Buddy) → SameOthers n a (record a { huge = t })
  in_fifth q t fifth ne = absurd (ne (sym q))
  in_fifth q t first ne = refl
  in_fifth q t second ne = refl
  in_fifth q t third ne = refl
  in_fifth q t fourth ne = refl
  in_fifth q t outside ne = refl

pub vmap_alloc-SameOthers : (e : Setup) (a : Arena) (n : ℕ) → SameOthers n a (vmap_alloc e a n).0
unfolding vmap_alloc
vmap_alloc-SameOthers e a n =
    if_cases P (leb n 512) (λ q. in_first n a (ground arith) (pop_from e e.precise a.precise n).0)
      λ q1.
        if_cases P (ltb n 4096) (λ q. in_second n a (ground arith) (pop_from e e.small a.small n).0)
          λ q2.
            if_cases P (leb n 32768)
              (λ q. in_third n a (ground arith) (pop_from e e.medium a.medium n).0)
              λ q3.
                if_cases P (leb n 262144)
                  (λ q. in_fourth n a (ground arith) (pop_from e e.large a.large n).0)
                  (λ q4. in_fifth n a (ground arith) (pop_from e e.huge a.huge n).0)
  where
    P : Arena × Chunk → Type 0
    P r = SameOthers n a r.0

module _ (e : Setup) (y : System) (o : Options) (space : Spaces) (n : ℕ) where
  -- What an expansion that does not end the program leaves.
  abbrev pub Expands : Heap → Option (Heap × Bool) → Type 0
  Expands h none = true ≡ true
  Expands h (some (h', _)) = SameOthers n h.arena h'.arena

  grown_heap-Expands :
      {S : Type 0} (h : Heap) (put : Arena → Tier S → Arena)
      → ((a : Arena) (t : Tier S) → SameOthers n a (put a t))
      → (r : Option ((Memory × Tier S) × Bool)) → Expands h (grown_heap e y o space h put r)
  grown_heap-Expands h put same none = refl
  grown_heap-Expands h put same (some ((m, t), done)) =
      SameOthers-trans n h.arena (record h.arena { world = m.world })
        (put (record h.arena { world = m.world }) t) world (same _ t)
    where
      world : SameOthers n h.arena (record h.arena { world = m.world })
      world first _ = refl
      world second _ = refl
      world third _ = refl
      world fourth _ = refl
      world fifth _ = refl
      world outside _ = refl

  buf_expand_exact-Expands :
      (h : Heap) (exact_sz : ℕ) → Expands h (buf_expand_exact e y o space h n exact_sz)
  unfolding buf_expand_exact
  buf_expand_exact-Expands h exact_sz =
      if_cases (Expands h) (leb n 512)
        (λ q.
          grown_heap-Expands h (λ a t. record a { precise = t })
            (λ a t. in_first n a (ground arith) t) _)
        λ q1.
          if_cases (Expands h) (ltb n 4096)
            (λ q.
              grown_heap-Expands h (λ a t. record a { small = t })
                (λ a t. in_second n a (ground arith) t) _)
            λ q2.
              if_cases (Expands h) (leb n 32768)
                (λ q.
                  grown_heap-Expands h (λ a t. record a { medium = t })
                    (λ a t. in_third n a (ground arith) t) _)
                λ q3.
                  if_cases (Expands h) (leb n 262144)
                    (λ q.
                      grown_heap-Expands h (λ a t. record a { large = t })
                        (λ a t. in_fourth n a (ground arith) t) _)
                    (λ q4.
                      grown_heap-Expands h (λ a t. record a { huge = t })
                        (λ a t. in_fifth n a (ground arith) t) _)

  expand_predicted-Expands :
      (h : Heap) (next : ℕ) → Expands h (expand_predicted e y o space h n next)
  unfolding expand_predicted
  expand_predicted-Expands h next = buf_expand_exact-Expands _ _

  pub expand_for-Expands : (h : Heap) → Expands h (expand_for e y o space h n)
  unfolding expand_for
  expand_for-Expands h =
      if_cases (Expands h) (leb n 512) (λ _. buf_expand_exact-Expands h _)
        λ _.
          if_cases (Expands h) (ltb n 4096) (λ _. expand_predicted-Expands h _)
            λ _.
              if_cases (Expands h) (leb n 32768) (λ _. expand_predicted-Expands h _)
                λ _.
                  if_cases (Expands h) (leb n 262144) (λ _. expand_predicted-Expands h _)
                    λ _.
                      if_cases (Expands h) (ltb n (2 ^ 29)) (λ _. expand_predicted-Expands h _)
                        (λ _. buf_expand_exact-Expands h _)
