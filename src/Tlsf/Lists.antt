-- ===== src/Tlsf/Lists.antt =====
-- The free lists of src/cache_list.hpp as local conditions on their nodes, for a set of free blocks.
pub mod Insert
pub mod Remove
use abcmalloc.Base.{ℕ, ◌≡◌, ◌≢◌, Bool, true, false}
use abcmalloc.Tlsf.State.{idx_of, mapping_insert}

-- The index of the list that a block of a size belongs to.
abbrev pub list_of : (ℕ → ℕ) → ℕ → ℕ
list_of bsize b = idx_of (mapping_insert (bsize b))

-- The links and heads of the free lists, for the set `free` of blocks: a head is a free block of its
-- class with no block before it, and links lead to free blocks of the same class and back.
pub record Linked (free : ℕ → Bool) (lst heads next prev : ℕ → ℕ) : Type 0 where
  pub not_null : free 0 ≡ false
  pub head :
      (i : ℕ) → heads i ≢ 0 → (free (heads i) ≡ true) × (lst (heads i) ≡ i) × (prev (heads i) ≡ 0)
  pub after :
      (b : ℕ)
      → free b ≡ true
      → next b ≢ 0
      → (free (next b) ≡ true) × (lst (next b) ≡ lst b) × (prev (next b) ≡ b)
  pub first : (b : ℕ) → free b ≡ true → prev b ≡ 0 → heads (lst b) ≡ b
  pub before :
      (b : ℕ)
      → free b ≡ true
      → prev b ≢ 0
      → (free (prev b) ≡ true) × (lst (prev b) ≡ lst b) × (next (prev b) ≡ b)
