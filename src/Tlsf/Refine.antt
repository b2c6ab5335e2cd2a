-- ===== src/Tlsf/Refine.antt =====
-- What a list of src/cache_list.hpp promises its callers, without headers, lists and bitmaps: a set of
-- blocks with sizes, of which none overlaps another. The steps of Tlsf/Run are read as its moves.
use abcmalloc.Base.{
  ℕ, ◌+◌, ◌%◌, ◌<◌, ◌≤◌, ◌≡◌, ◌⊎◌, refl, sym, ◌∙◌, Bool, true, false, arith, update, not, ◌&&◌,
}
use abcmalloc.Tlsf.State.{Tlsf}
use abcmalloc.Tlsf.Valid.{Valid}
use abcmalloc.Tlsf.Valid.Merge.{used}
use abcmalloc.Tlsf.Run.{Reach, Sound, sound, Reach-Sound}

-- The blocks that are handed out keep their sizes.
abbrev pub SameSizes : (live : ℕ → Bool) (size size' : ℕ → ℕ) → Type 0
SameSizes live size size' = (c : ℕ) → live c ≡ true → size' c ≡ size c

-- The moves of an allocator: nothing is handed out, or an aligned block that overlaps none that is
-- handed out, or one that is handed out is shared, or one that is handed out comes back.
pub data Move (live : ℕ → Bool) (size : ℕ → ℕ) : (ℕ → Bool) → (ℕ → ℕ) → Type 0 where
  stay : (size' : ℕ → ℕ) → SameSizes live size size' → Move live size live size'
  give :
      (b : ℕ) (size' : ℕ → ℕ)
      → live b ≡ false
      → b % 32 ≡ 0
      → 64 ≤ size' b
      → ((c : ℕ) → live c ≡ true → (c + size c ≤ b) ⊎ (b + size' b ≤ c))
      → SameSizes live size size'
      → Move live size (update live b true) size'
  share :
      (b : ℕ) (size' : ℕ → ℕ)
      → live b ≡ true
      → SameSizes live size size'
      → Move live size live size'
  give_back :
      (b : ℕ) (size' : ℕ → ℕ)
      → live b ≡ true
      → SameSizes (update live b false) size size'
      → Move live size (update live b false) size'

module _ {s : Tlsf} {start free live : ℕ → Bool} (v : Valid s start free)
    (same : (c : ℕ) → live c ≡ used start free c) where
  live_used : (c : ℕ) → live c ≡ true → (start c ≡ true) × (free c ≡ false)
  live_used c h = by (start c) (free c) refl refl (sym (same c) ∙ h)
    where
      by :
          (x y : Bool)
          → start c ≡ x
          → free c ≡ y
          → (x && not y) ≡ true
          → (start c ≡ true) × (free c ≡ false)
      by true false p q _ = (p, q)
      by true true p q w = absurd (ground (arith, w))
      by false y p q w = absurd (ground (arith, w))

-- Of the blocks that are handed out in a state that can be reached, none overlaps another.
pub Reach-apart :
    {s : Tlsf} {live : ℕ → Bool}
    → Reach s live
    → (a b : ℕ) → live a ≡ true
    → live b ≡ true
    → a < b
    → a + s.bsize a ≤ b
Reach-apart {s} {live} r a b p q l = by (Reach-Sound r)
  where
    by : Sound s live → a + s.bsize a ≤ b
    by (sound start free v same) =
        v.core.tiled.apart a b (live_used v same a p).0 (live_used v same b q).0 l
