-- ===== src/Arena/Routing.antt =====
-- The dispatch of src/arena.hpp by address: a pointer is found in the tier that has its range.
use abcmalloc.Base.{
  ℕ, ◌≡◌, ◌≢◌, refl, true, false, ltb, leb, if◌then◌else◌, arith, Option, none, some,
}
use abcmalloc.Buddy.State.{Chunk, null_chunk}
use abcmalloc.Index.{Index, find_range}
use abcmalloc.Index.Search.{IsSorted, Finds, find_range-Finds}
use abcmalloc.Sheet.{Sheet}
use abcmalloc.Arena.Insert.{InRange, Holds}
use abcmalloc.Tlsf.State.{Tlsf}
use abcmalloc.Arena.Small.{tlsf_book, IsWithin}
use abcmalloc.Arena.Route.{
  Kind, Setup, Arena, Place, in_precise, in_small, in_medium, in_large, in_huge, nowhere, locate,
}

-- The tiers of an arena, and none.
pub data Class : Type 0 where
  first : Class
  second : Class
  third : Class
  fourth : Class
  fifth : Class
  outside : Class

abbrev pub class_at : Place → Class
class_at (in_precise _) = first
class_at (in_small _) = second
class_at (in_medium _) = third
class_at (in_large _) = fourth
class_at (in_huge _) = fifth
class_at nowhere = outside

-- The tier for the requests of a size.
abbrev pub class_of : (sz : ℕ) → Class
class_of sz =
    if ltb 262144 sz
    then fifth
    else if ltb 32768 sz
    then fourth
    else if leb 4096 sz
    then third
    else if ltb 512 sz
    then second
    else first

abbrev no_index : Index
no_index = record {
  idx = λ _. record { lo = 0; hi = 0; nd = 0 };
  count = 0;
  last_hit = 0;
  space_mask = λ _. 0;
}

abbrev pub index_of : Arena → Class → Index
index_of a first = a.precise.index
index_of a second = a.small.index
index_of a third = a.medium.index
index_of a fourth = a.large.index
index_of a fifth = a.huge.index
index_of a outside = no_index

-- A sheet of a tier of lists of src/cache_list.hpp: its list manages bytes of the range of the sheet.
abbrev pub Within : (lo hi : ℕ) → Sheet Tlsf → Type 0
Within lo hi s = IsWithin lo hi s.book

-- The tier is built on lists of src/cache_list.hpp, and no block of it is temporal.
pub record IsTlsf (e : Setup) (k : Kind Tlsf) : Type 0 where
  pub min : ℕ
  pub memory : Tlsf
  pub book : k.book ≡ tlsf_book min e.is_zero memory
  pub no_launder : k.config.launder ≡ false

-- The two tiers for the small sizes are such tiers, and a chunk at the null pointer is a zero chunk.
pub record SmallTiers (e : Setup) : Type 0 where
  pub precise : IsTlsf e e.precise
  pub small : IsTlsf e e.small
  pub null_zero : e.is_zero null_chunk ≡ true
  pub nonnull : (c : Chunk) → e.is_zero c ≡ false → c.ptr ≢ 0

-- The two tiers for the small sizes hold, the indices of the others are sorted, and no address is in a
-- range of two of the tiers.
pub record Intact (a : Arena) : Type 0 where
  pub precise : Holds Within a.precise
  pub small : Holds Within a.small
  pub medium : IsSorted a.medium.index
  pub large : IsSorted a.large.index
  pub huge : IsSorted a.huge.index
  pub apart : (c d : Class) (p : ℕ) → InRange (index_of a c) p → InRange (index_of a d) p → c ≡ d

pub no_index-IsSorted : IsSorted no_index
no_index-IsSorted = record {
  proper = λ i p. absurd (omega arith);
  apart = λ i j p q. absurd (omega arith);
}

find_range-in : (s : Index) (p : ℕ) → IsSorted s → InRange s p → (i : ℕ) × (find_range s p ≡ some i)
find_range-in s p v (i, q, x, y) = by (find_range s p) (find_range-Finds s p v)
  where
    by : (o : Option ℕ) → Finds s p 0 s.count o → (j : ℕ) × (o ≡ some j)
    by none f = absurd (f i (omega arith) (omega arith) (x, y))
    by (some j) _ = (j, refl)

pub find_range-out : (s : Index) (p : ℕ) → IsSorted s → ¬ InRange s p → find_range s p ≡ none
find_range-out s p v out = by (find_range s p) (find_range-Finds s p v)
  where
    by : (o : Option ℕ) → Finds s p 0 s.count o → o ≡ none
    by none _ = refl
    by (some j) (_, q, h) = absurd (out (j, omega arith, h.0, h.1))

module _ (a : Arena) (v : Intact a) where
  pub index-IsSorted : (c : Class) → IsSorted (index_of a c)
  index-IsSorted first = v.precise.sorted
  index-IsSorted second = v.small.sorted
  index-IsSorted third = v.medium
  index-IsSorted fourth = v.large
  index-IsSorted fifth = v.huge
  index-IsSorted outside = no_index-IsSorted

  found :
      (c : Class) (p : ℕ)
      → InRange (index_of a c) p
      → (i : ℕ) × (find_range (index_of a c) p ≡ some i)
  found c p = find_range-in (index_of a c) p (index-IsSorted c)

  missed :
      (c d : Class) (p : ℕ) → c ≢ d → InRange (index_of a c) p → find_range (index_of a d) p ≡ none
  missed c d p ne h =
      find_range-out (index_of a d) p (index-IsSorted d) (λ k. ne (v.apart c d p h k))

  -- In an arena whose tiers hold and have no address in common, `locate` finds the tier that an address
  -- is in.
  pub locate-tier : (c : Class) (p : ℕ) → InRange (index_of a c) p → class_at (locate a p) ≡ c
  unfolding locate
  locate-tier first p h = rw ((found first p h).1) refl
  locate-tier second p h = rw (missed second first p (λ q. cc) h, (found second p h).1) refl
  locate-tier third p h =
      rw (missed third first p (λ q. cc) h, missed third second p (λ q. cc) h, (found third p h).1)
        refl
  locate-tier fourth p h =
      rw
        (
          missed fourth first p (λ q. cc) h,
          missed fourth second p (λ q. cc) h,
          missed fourth third p (λ q. cc) h,
          (found fourth p h).1,
        )
        refl
  locate-tier fifth p h =
      rw
        (
          missed fifth first p (λ q. cc) h,
          missed fifth second p (λ q. cc) h,
          missed fifth third p (λ q. cc) h,
          missed fifth fourth p (λ q. cc) h,
          (found fifth p h).1,
        )
        refl
  locate-tier outside p (i, q, _, _) = absurd (omega arith)
