-- ===== src/Sheet/Release.antt =====
-- A sheet that was released, in src/book.hpp: it answers every request as an empty one, and a second
-- release, as the destructor makes, does nothing.
use abcmalloc.Base.{ℕ, ◌≡◌, refl, Bool, true, none, Bool-cases, inl, inr, ◌≢◌, ==_ne}
use abcmalloc.Buddy.State.{Chunk, null_chunk}
use abcmalloc.Reserve.{Reserve}
use abcmalloc.Registry.{Registry}
use abcmalloc.Sheet.{
  Book, Sheet, empty, release, mark, temporal_mark, try_mark, try_unmark, find, available_bytes,
  total_bytes,
}

module _ {S : Type 0} (b : Book S) (is_zero is_invalid : Chunk → Bool) where
  -- The sheet answers as an empty one: requests get nothing, the counts are 0, and what expects a
  -- region aborts.
  pub record IsReleased (s : Sheet S) : Type 0 where
    pub emptied : empty b is_zero is_invalid s ≡ true
    pub no_mark : (n : ℕ) → mark b is_zero is_invalid s n ≡ (s, null_chunk)
    pub no_temporal : (n : ℕ) → temporal_mark b is_zero is_invalid s n ≡ (s, null_chunk)
    pub aborts_mark : (n : ℕ) → try_mark b is_zero is_invalid s n ≡ none
    pub aborts_unmark : (p : Chunk) → try_unmark b is_zero is_invalid s p ≡ none
    pub aborts_find : (p : ℕ) → p ≢ 0 → find b is_zero is_invalid s p ≡ none
    pub no_bytes : available_bytes b is_zero is_invalid s ≡ 0
    pub no_total : total_bytes b is_zero is_invalid s ≡ 0

  empty-IsReleased : (s : Sheet S) → is_zero s.kernel_memory ≡ true → IsReleased s
  unfolding empty mark temporal_mark try_mark try_unmark find available_bytes total_bytes
  empty-IsReleased s e = record {
    emptied = e;
    no_mark = λ n. rw e refl;
    no_temporal = λ n. rw e refl;
    aborts_mark = λ n. rw e refl;
    aborts_unmark = λ p. rw e refl;
    aborts_find = λ p n. rw (==_ne p 0 n, e) refl;
    no_bytes = rw e refl;
    no_total = rw e refl;
  }

  module _ (zero_null : is_zero null_chunk ≡ true) where
    released-zero :
        (r : Reserve) (g : Registry) (s : Sheet S)
        → is_zero (release b is_zero is_invalid r g s).1.kernel_memory ≡ true
    unfolding release
    released-zero r g s = elim (Bool-cases (is_zero s.kernel_memory)) [
      | inl e ↦ rw e e
      | inr e ↦ rw e zero_null
    ]

    -- If `{ nullptr, 0 }` is a zero chunk, a sheet that was released answers as an empty one, and
    -- to release it again changes nothing: neither its reservation nor the registry.
    pub release-IsReleased :
        (r : Reserve) (g : Registry) (s : Sheet S)
        → let ((r', g'), s') = release b is_zero is_invalid r g s in
          IsReleased s' × (release b is_zero is_invalid r' g' s' ≡ ((r', g'), s'))
    unfolding release
    release-IsReleased r g s =
        (empty-IsReleased _ (released-zero r g s), rw (released-zero r g s) refl)
