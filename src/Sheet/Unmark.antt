-- ===== src/Sheet/Unmark.antt =====
-- A block that a sheet marks and unmarks, in src/book.hpp over the buddy list of src/free_list.hpp.
use abcmalloc.Base.{
  ℕ, ◌≡◌, ◌≢◌, refl, ap, sym, ◌∙◌, Bool, true, false, some, ◌==◌, ◌||◌, ==_ne, arith,
}
use abcmalloc.Buddy.State.{Buddy, Chunk, RetFlag, ok, invalid}
use abcmalloc.Buddy.Free.{is_allocated, deallocate, deallocate_chunk}
use abcmalloc.Buddy.DoubleFree.{deallocate_twice}
use abcmalloc.Sheet.{
  Book, buddy_book, Sheet, succeeded, empty, try_unmark, find, is_block_allocated,
}

module _ (k : ℕ) (m : Buddy) (is_zero is_invalid : Chunk → Bool) where
  abbrev pub list : Book Buddy
  list = buddy_book k is_zero m

  -- A chunk that the list takes back is not null.
  chunk_not_null :
      (s : Buddy) (p : Chunk)
      → (deallocate_chunk k s p).1 ≡ ok
      → ((p.ptr == 0) || (p.len == 0)) ≡ false
  unfolding deallocate_chunk
  chunk_not_null s p e = ground arith

  chunk_taken :
      (s : Buddy) (p : Chunk)
      → ((p.ptr == 0) || (p.len == 0)) ≡ false
      → deallocate_chunk k s p ≡ deallocate k s p.ptr
  unfolding deallocate_chunk
  chunk_taken s p g = rw g refl

  -- A chunk that the list of a sheet refuses.
  refused :
      (s : Sheet Buddy) (p : Chunk)
      → is_zero s.kernel_memory ≡ false
      → is_zero p ≡ false
      → p.ptr ≢ 0
      → is_allocated k s.book p.ptr ≡ false
      → deallocate_chunk k s.book p ≡ (s.book, invalid)
      → (find list is_zero is_invalid s p.ptr ≡ some false)
        × (is_block_allocated list is_zero is_invalid s p.ptr ≡ false)
        × (try_unmark list is_zero is_invalid s p ≡ some (s, false))
  unfolding try_unmark find is_block_allocated empty succeeded
  refused s p live real ne gone again =
      (rw (==_ne p.ptr 0 ne, live, gone) refl, rw gone refl, rw (live, real, again) refl)

  -- If the list of a sheet that is not empty takes back a chunk that is not zero, then unmarking
  -- the chunk succeeds; after that the block is found no more, and unmarking the chunk again
  -- fails and leaves the sheet as it is.
  pub try_unmark_twice :
      (s : Sheet Buddy) (p : Chunk)
      → empty list is_zero is_invalid s ≡ false
      → is_zero p ≡ false
      → (deallocate_chunk k s.book p).1 ≡ ok
      → let s' = record s { book = (deallocate_chunk k s.book p).0 } in
        (try_unmark list is_zero is_invalid s p ≡ some (s', true))
        × (find list is_zero is_invalid s' p.ptr ≡ some false)
        × (is_block_allocated list is_zero is_invalid s' p.ptr ≡ false)
        × (try_unmark list is_zero is_invalid s' p ≡ some (s', false))
  unfolding try_unmark empty succeeded
  try_unmark_twice s p live real e =
      let guard = chunk_not_null s.book p e in
      let same = chunk_taken s.book p guard in
      let freed =
        deallocate_twice k s.book p.ptr (ap (λ (o : Buddy × RetFlag). o.1) (sym same) ∙ e) in
      let after =
        refused (record s { book = (deallocate_chunk k s.book p).0 }) p live real (ground arith)
          (ap (λ (o : Buddy × RetFlag). is_allocated k o.0 p.ptr) same ∙ freed.0)
          (chunk_taken _ p guard
            ∙ ap (λ (o : Buddy × RetFlag). deallocate k o.0 p.ptr) same
            ∙ freed.1
            ∙ ap (λ (o : Buddy × RetFlag). (o.0, invalid)) (sym same)) in
      (rw (live, real, e) refl, after.0, after.1, after.2)
