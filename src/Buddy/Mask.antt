-- ===== src/Buddy/Mask.antt =====
-- The bitmap `free_mask` of `__buddy_list`: "bit i set iff free_lists[i] != nullptr"
-- (src/free_list.hpp), for the updates that the code makes to a bitmap and to a table of heads.
pub mod Lists
pub mod Merge
pub mod Ops
pub mod Init
use abcmalloc.Base.{
  ℕ, ◌^◌, ◌<◌, ◌≡◌, ◌≢◌, ◌∙◌, ap, Bool, not, false, true, ◌==◌, if◌then◌else◌, update, arith, inl,
  inr, Bool-cases, eq-of-==, ne-of-==, ==_ne, update_self, update-ne,
}
use abcmalloc.Base.Bits.{bit}
use abcmalloc.Base.Bits.Mask.{
  set_bit, clear_bit, bit-set_bit, bit-clear_bit, set_bit-lt, clear_bit-lt,
}
use abcmalloc.Buddy.State.{Buddy}

-- The bitmap fits a `u64`, and names the orders whose list is not empty.
pub record Agrees (mask : ℕ) (heads : ℕ → ℕ) : Type 0 where
  pub width : mask < 2 ^ 64
  pub names : (o : ℕ) → o < 64 → bit mask o ≡ not (heads o == 0)

module _ {mask : ℕ} {heads : ℕ → ℕ} (a : Agrees mask heads) where
  -- A block goes to a list, which may have been empty.
  pub Agrees-set : (o n : ℕ) → o < 64 → n ≢ 0 → Agrees (set_bit mask o) (update heads o n)
  Agrees-set o n p q = record {
    width = set_bit-lt 64 mask o a.width p;
    names = λ j h. ground (arith, bit-set_bit mask o j, a.names j h);
  }

  -- A list that is not empty gets another head.
  pub Agrees-keep : (o n : ℕ) → heads o ≢ 0 → n ≢ 0 → Agrees mask (update heads o n)
  Agrees-keep o n p q = record {
    width = a.width;
    names = λ j h. elim (Bool-cases (o == j)) [
      | inl e ↦ ground (arith, a.names j h, eq-of-== o j e)
      | inr e ↦ ground (arith, a.names j h)
    ];
  }

  -- A list becomes empty.
  pub Agrees-clear : (o : ℕ) → o < 64 → Agrees (clear_bit 64 mask o) (update heads o 0)
  Agrees-clear o p = record {
    width = clear_bit-lt 64 mask o a.width;
    names = λ j h. ground (arith, bit-clear_bit 64 mask o j p h, a.names j h);
  }

  -- The bit of a list that is empty is cleared.
  pub Agrees-clear_empty : (o : ℕ) → o < 64 → heads o ≡ 0 → Agrees (clear_bit 64 mask o) heads
  Agrees-clear_empty o p e = record {
    width = clear_bit-lt 64 mask o a.width;
    names = λ j h. elim (Bool-cases (o == j)) [
      | inl s ↦
          ground (arith, bit-clear_bit 64 mask o j p h, a.names j h, ap heads (eq-of-== o j s))
      | inr s ↦ ground (arith, bit-clear_bit 64 mask o j p h, a.names j h)
    ];
  }

-- The invariant of a list: its bitmap agrees with its heads, and no order is above 63.
pub record MaskAgrees (s : Buddy) : Type 0 where
  pub agrees : Agrees s.free_mask s.free_lists
  pub orders : s.max_order < 65
