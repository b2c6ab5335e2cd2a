-- ===== src/Arena/Launder.antt =====
-- `launder` of src/arena.hpp for the smallest requests: they are served by the second tier, but its
-- failure adds a sheet to the first.
use abcmalloc.Base.{
  ℕ, zero, suc, ◌+◌, ◌*◌, ◌≤◌, ◌≡◌, refl, ap, Bool, true, false, ◌&&◌, ltb, leb, ◌==◌, Option, none,
  some, arith, if_cases, le-of-leb-false, lt-of-ltb, leb-of-le, ltb-of-lt,
}
use abcmalloc.Base.Bits.Count.{ctz}
use abcmalloc.Buddy.State.{Chunk, null_chunk}
use abcmalloc.Harden.{check_constraint}
use abcmalloc.Index.{mask_get, detail_words}
use abcmalloc.Sheet.{Book}
use abcmalloc.Tlsf.State.{Tlsf}
use abcmalloc.Arena.Tier.{Tier, Config, scan_bits, scan_words, insert_by, bucket_insert_temporal}
use abcmalloc.Arena.Remove.{◌>>=◌}
use abcmalloc.Arena.Route.{Setup, Arena, vmap_launder, rz_inflate, class_small}
use abcmalloc.Arena.Grow.{System, Memory}
use abcmalloc.Arena.Push.{
  Spaces, Options, Heap, failed_request, buf_expand_exact, expand_launder, after_expanding,
  launder_loop, launder, more_tlsf, grown_heap,
}

module _ {S : Type 0} (b : Book S) (is_zero is_invalid : Chunk → Bool) (k : Config)
    (null_zero : is_zero null_chunk ≡ true) (t : Tier S) (empty : t.index.count ≡ 0) (sz : ℕ) where
  scan_bits-none :
      (fuel w mask : ℕ) → scan_bits b is_zero is_invalid k true fuel t sz w mask ≡ (t, null_chunk)
  unfolding scan_bits
  scan_bits-none zero w mask = refl
  scan_bits-none (suc fuel) w mask =
      if_cases P (mask == 0) (λ _. refl)
        (λ _.
          if_cases P (leb t.index.count (w * 64 + ctz 64 mask)) (λ _. refl)
            (λ f.
              absurd
                (omega (arith, empty, le-of-leb-false t.index.count (w * 64 + ctz 64 mask) f))))
    where
      P : Tier S × Chunk → Type 0
      P r = r ≡ (t, null_chunk)

  scan_words-none :
      (left w : ℕ) → scan_words b is_zero is_invalid k true left t sz w ≡ (t, null_chunk)
  unfolding scan_words
  scan_words-none zero w = refl
  scan_words-none (suc left) w =
      rw (scan_bits-none 64 w (t.index.space_mask w), null_zero) (scan_words-none left (w + 1))

  pub bucket_insert_temporal-none :
      bucket_insert_temporal b is_zero is_invalid k t sz ≡ (t, null_chunk)
  unfolding bucket_insert_temporal insert_by
  bucket_insert_temporal-none =
      if_cases (λ (r : Tier S × Chunk). r ≡ (t, null_chunk))
        (ltb t.index.last_hit t.index.count && mask_get t.index.space_mask t.index.last_hit)
        (λ f.
          absurd
            (omega (arith, empty, lt-of-ltb t.index.last_hit t.index.count (ground (arith, f)))))
        (λ _. scan_words-none (detail_words k.max_sheets) 0)

module _ (e : Setup) (y : System) (o : Options) (space : Spaces)
    (memset : (ℕ → ℕ) → (at v n : ℕ) → ℕ → ℕ) (null_zero : e.is_zero null_chunk ≡ true) (sz : ℕ)
    (small : rz_inflate e sz ≤ class_small) where
  -- The second tier of the heap has no sheet.
  abbrev NoSmall : Heap → Type 0
  NoSmall h = h.arena.small.index.count ≡ 0

  -- An answer that is the chunk for a failure.
  abbrev pub Failed : Option (Heap × Chunk) → Type 0
  Failed none = true ≡ true
  Failed (some (h, c)) = c ≡ failed_request

  vmap_launder-none :
      (a : Arena) → a.small.index.count ≡ 0 → vmap_launder e a (rz_inflate e sz) ≡ (a, null_chunk)
  unfolding vmap_launder
  vmap_launder-none a empty = rw (ltb-of-lt (rz_inflate e sz) 4096 (omega arith)) (
      ap (λ (r : Tier Tlsf × Chunk). (record a { small = r.0 }, r.1))
        (bucket_insert_temporal-none e.small.book e.is_zero e.is_invalid e.small.config null_zero
          a.small empty (rz_inflate e sz)))

  -- The heap after an expansion, if there is one, still has no sheet in its second tier.
  StillNone : Option (Heap × Bool) → Type 0
  StillNone none = true ≡ true
  StillNone (some (h, _)) = NoSmall h

  grown_heap-StillNone :
      (h : Heap)
      → NoSmall h
      → (r : Option ((Memory × Tier Tlsf) × Bool))
      → StillNone (grown_heap e y o space h (λ a t. record a { precise = t }) r)
  unfolding StillNone
  grown_heap-StillNone h n none = refl
  grown_heap-StillNone h n (some ((m, t), done)) = n

  expand_launder-StillNone :
      (h : Heap) → NoSmall h → StillNone (expand_launder e y o space memset h (rz_inflate e sz))
  unfolding expand_launder buf_expand_exact
  expand_launder-StillNone h n =
      rw (ltb-of-lt (rz_inflate e sz) 4096 (omega arith), leb-of-le (rz_inflate e sz) 512 small)
        (grown_heap-StillNone h n (more_tlsf e y o space e.precise h h.arena.precise _))

  after_expanding-Failed :
      (next : Heap → Option (Heap × Chunk)) (g : Option (Heap × Bool))
      → StillNone g
      → ((h : Heap) → NoSmall h → Failed (next h))
      → Failed (g >>= after_expanding e y o space memset next)
  unfolding StillNone
  after_expanding-Failed next none n v = refl
  after_expanding-Failed next (some (h, true)) n v = v h n
  after_expanding-Failed next (some (h, false)) n v = refl

  launder_loop-Failed :
      (left : ℕ) (h : Heap) → NoSmall h → Failed (launder_loop e y o space memset left h sz)
  unfolding launder_loop
  launder_loop-Failed zero h n = rw (vmap_launder-none h.arena n, null_zero) refl
  launder_loop-Failed (suc left) h n =
      rw (vmap_launder-none h.arena n, null_zero)
        (after_expanding-Failed (λ h'. launder_loop e y o space memset left h' sz)
          (expand_launder e y o space memset h (rz_inflate e sz)) (expand_launder-StillNone h n)
          (launder_loop-Failed left))

  -- A request to `launder` of at most 512 bytes, canaries included, where the second tier has no sheet: it
  -- fails, however many sheets it adds, as it adds them to the first tier.
  pub launder-Failed :
      (h : Heap) → h.arena.small.index.count ≡ 0 → Failed (launder e y o space memset h sz)
  unfolding launder
  launder-Failed h n =
      if_cases Failed (check_constraint o.constrained o.limit sz) (λ _. refl)
        (λ _.
          if_cases Failed o.out_of_memory (λ _. refl) (λ _. launder_loop-Failed o.max_retries h n))
