-- ===== src/Arena/Answers.antt =====
-- What `push` of src/arena.hpp answers, and after which rounds of its loop.
use abcmalloc.Base.{
  ℕ, suc, ◌+◌, ◌*◌, ◌<◌, ◌≤◌, ◌≡◌, Bool, true, false, ◌⊎◌, Option, none, some, add64,
}
use abcmalloc.Buddy.State.{Chunk}
use abcmalloc.Harden.{check_constraint}
use abcmalloc.Arena.Route.{Setup, Arena, vmap_alloc, rz_inflate, rz_active, intact_chunk}
use abcmalloc.Arena.Grow.{System}
use abcmalloc.Arena.Push.{Spaces, Options, Heap, failed_request, expand_for}
use abcmalloc.Arena.Others.{SameOthers}

module _ (e : Setup) (sz : ℕ) where
  -- What becomes of a chunk of a tier: without canaries it is the answer, and with them the answer is the
  -- part of the size between the canaries, which are as they must be, and the size asked of the tier has
  -- room for both.
  pub record Delivered (r : Arena × Chunk) (b : Arena) (c : Chunk) : Type 0 where
    pub plain : rz_active e sz ≡ false → (b, c) ≡ r
    pub shifted :
        rz_active e sz ≡ true → c ≡ record { ptr = add64 r.1.ptr e.redzone_size; len = sz }
    pub intact : rz_active e sz ≡ true → e.redzone_size ≤ c.ptr → intact_chunk e b c ≡ true
    pub room : rz_active e sz ≡ true → sz + 2 * e.redzone_size ≤ rz_inflate e sz

module _ (e : Setup) (y : System) (o : Options) (space : Spaces) (sz : ℕ) where
  -- The heap after the request of a round.
  abbrev pub asked : Heap → Heap
  asked g = record g { arena = (vmap_alloc e g.arena (rz_inflate e sz)).0 }

  -- The tier for the size answers the request of a round with a zero chunk.
  abbrev pub is_refused : Heap → Bool
  is_refused g = e.is_zero (vmap_alloc e g.arena (rz_inflate e sz)).1

  -- The heap after some rounds, each of which was refused by the tier for the size and expanded it.
  pub data Tried (h : Heap) : ℕ → Heap → Type 0 where
    start : Tried h 0 h
    again :
        {i : ℕ} {g g' : Heap}
        → Tried h i g
        → is_refused g ≡ true
        → expand_for e y o space (asked g) (rz_inflate e sz) ≡ some (g', true)
        → Tried h (suc i) g'

  -- The last round of a request that does not end the program: it is refused and there is no further
  -- round, or what the tier gave out is delivered.
  abbrev pub LastRound : Heap → (i : ℕ) → Heap → Chunk → Type 0
  LastRound g i h' c =
      ((is_refused g ≡ true)
        × (c ≡ failed_request)
        × ((i ≡ o.max_retries)
            ⊎ (expand_for e y o space (asked g) (rz_inflate e sz) ≡ some (h', false))))
      ⊎ ((is_refused g ≡ false)
          × Delivered e sz (vmap_alloc e g.arena (rz_inflate e sz)) h'.arena c)

  abbrev pub Rounds : Heap → Option (Heap × Chunk) → Type 0
  Rounds h none =
      (i : ℕ) × (g : Heap) × Tried h i g
      × (i < o.max_retries)
      × (is_refused g ≡ true)
      × (expand_for e y o space (asked g) (rz_inflate e sz) ≡ none)
  Rounds h (some (h', c)) =
      SameOthers (rz_inflate e sz) h.arena h'.arena
      × ((i : ℕ) × (g : Heap) × Tried h i g × (i ≤ o.max_retries) × LastRound g i h' c)

  -- The answer to a request of `sz` bytes.
  abbrev pub Answer : Heap → Option (Heap × Chunk) → Type 0
  Answer h r =
      ((r ≡ none) × ((check_constraint o.constrained o.limit sz ≡ true) ⊎ (o.out_of_memory ≡ true)))
      ⊎ Rounds h r
