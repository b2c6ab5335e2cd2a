-- ===== src/Buddy/Mask/Lists.antt =====
-- The list operations of `__buddy_list` (src/free_list.hpp) keep the bitmap in step with the lists.
use abcmalloc.Base.{
  ℕ, zero, suc, ◌+◌, ◌-◌, ◌/◌, ◌<◌, ◌≡◌, ◌≢◌, refl, ◌∙◌, Bool, not, arith, ◌==◌, if◌then◌else◌, inl,
  inr, Bool-cases, if_cases, eq-of-==, ne-of-==, update,
}
use abcmalloc.Base.Bits.Mask.{clear_bit}
use abcmalloc.Buddy.State.{Buddy, order_size, link_valid}
use abcmalloc.Buddy.FreeList.{
  remove_slow_loop, freelist_remove_slow, remove_head, remove_inner, links_broken, unlink_found,
  freelist_remove, push_right, split_loop, take_head, take_and_split, freelist_push_off,
}
use abcmalloc.Buddy.Mask.{Agrees, Agrees-set, Agrees-keep, Agrees-clear, Agrees-clear_empty}

abbrev pub Heads : Buddy → Type 0
Heads s = Agrees s.free_mask s.free_lists

module _ (k : ℕ) where
  -- The block found stands first only if `before` is null.
  unlink_found-Heads :
      (s : Buddy) (before n o : ℕ)
      → Heads s
      → o < 64
      → (before ≡ 0 → s.free_lists o ≢ 0)
      → Heads (unlink_found k s before n o)
  unfolding unlink_found
  unlink_found-Heads s before n o a p first = elim (Bool-cases (before == 0)) [
    | inl e ↦ elim (Bool-cases (n == 0)) [
      | inl z ↦ ground (arith, Agrees-clear a o p)
      | inr z ↦ ground (arith, Agrees-keep a o n (first (eq-of-== before 0 e)) (ne-of-== n 0 z))
    ]
    | inr e ↦ elim (Bool-cases (s.free_lists o == 0)) [
      | inl z ↦ ground (arith, Agrees-clear_empty a o p (eq-of-== (s.free_lists o) 0 z))
      | inr z ↦ ground arith
    ]
  ]

  remove_slow_loop-Heads :
      (rounds : ℕ) (s : Buddy) (b c buddy o : ℕ)
      → Heads s
      → o < 64
      → (b ≡ 0 → c ≡ s.free_lists o)
      → Heads (remove_slow_loop k rounds s b c buddy o).0
  unfolding remove_slow_loop
  remove_slow_loop-Heads zero s b c buddy o a p first = a
  remove_slow_loop-Heads (suc rounds) s b c buddy o a p first =
      if_cases (λ (r : Buddy × Bool). Heads r.0) (c == 0) (λ _. a)
        λ there.
          if_cases (λ (r : Buddy × Bool). Heads r.0) (c == buddy)
            (λ _. unlink_found-Heads s b _ o a p λ z e. ne-of-== c 0 there (first z ∙ e))
            λ _. remove_slow_loop-Heads rounds s c _ buddy o a p λ z. absurd (ne-of-== c 0 there z)

  remove_slow-Heads :
      (s : Buddy) (b o : ℕ) → Heads s → o < 64 → Heads (freelist_remove_slow k s b o).0
  unfolding freelist_remove_slow
  remove_slow-Heads s b o a p = remove_slow_loop-Heads _ s 0 (s.free_lists o) b o a p λ _. refl

  remove_head-Heads :
      (s : Buddy) (node following o : ℕ)
      → Heads s
      → o < 64
      → s.free_lists o ≢ 0
      → Heads (remove_head k s node following o).0
  unfolding remove_head
  remove_head-Heads s node following o a p full =
      if_cases (λ (r : Buddy × Bool). Heads r.0) (not (link_valid k s following))
        (λ _. remove_slow-Heads s node o a p)
        λ _.
          if_cases (λ (r : Buddy × Bool). Heads r.0) (following == 0) (λ _. Agrees-clear a o p)
            λ z. Agrees-keep a o following full (ne-of-== following 0 z)

  remove_inner-Heads :
      (s : Buddy) (node b f o : ℕ) → Heads s → o < 64 → Heads (remove_inner k s node b f o).0
  unfolding remove_inner
  remove_inner-Heads s node b f o a p =
      if_cases (λ (r : Buddy × Bool). Heads r.0) (not (link_valid k s f))
        (λ _. remove_slow-Heads s node o a p)
        λ _.
          if_cases (λ (r : Buddy × Bool). Heads r.0) (links_broken k s node b f)
            (λ _. remove_slow-Heads s node o a p) λ _. ground arith

  pub freelist_remove-Heads :
      (s : Buddy) (b o : ℕ) → Heads s → o < 64 → b ≢ 0 → Heads (freelist_remove k s b o).0
  unfolding freelist_remove
  freelist_remove-Heads s b o a p q =
      if_cases (λ (r : Buddy × Bool). Heads r.0) (s.free_lists o == b)
        (λ e.
          remove_head-Heads s b (s.next b) o a p
            λ z. q (ground (arith, eq-of-== (s.free_lists o) b e)))
        λ _. remove_inner-Heads s b (s.prev b) (s.next b) o a p

  pub freelist_push-Heads :
      (s : Buddy) (addr o off : ℕ)
      → Heads s
      → o < 64
      → addr ≢ 0
      → Heads (freelist_push_off k s addr o off)
  unfolding freelist_push_off
  freelist_push-Heads s addr o off a p q = elim (Bool-cases (s.free_lists o == 0)) [
    | inl z ↦ ground (arith, Agrees-set a o addr p q)
    | inr z ↦ ground (arith, Agrees-keep a o addr (ne-of-== (s.free_lists o) 0 z) q)
  ]

  abbrev Split : Buddy × ℕ → Type 0
  Split r = Agrees r.1 r.0.free_lists

  push_right-Split :
      (s : Buddy) (mask right from : ℕ)
      → Agrees mask s.free_lists
      → from < 64
      → right ≢ 0
      → Split (push_right k s mask right from)
  unfolding push_right
  push_right-Split s mask right from a p q = elim (Bool-cases (s.free_lists from == 0)) [
    | inl z ↦ ground (arith, Agrees-set a from right p q)
    | inr z ↦ ground (arith, Agrees-keep a from right (ne-of-== (s.free_lists from) 0 z) q)
  ]

  split_loop-Split :
      (levels target blk size : ℕ) (s : Buddy) (mask : ℕ)
      → Agrees mask s.free_lists
      → target + levels < 65
      → blk ≢ 0
      → Split (split_loop k levels target blk size s mask)
  unfolding split_loop
  split_loop-Split zero target blk size s mask a p q = a
  split_loop-Split (suc levels) target blk size s mask a p q =
      split_loop-Split levels target blk (size / 2) _ _
        (push_right-Split s mask (blk + size / 2) (target + levels) a (omega arith) (omega arith))
        (omega arith) q

  take_head-Split :
      (s : Buddy) (from : ℕ)
      → Heads s
      → from < 64
      → s.free_lists from ≢ 0
      → Split (take_head k s from)
  unfolding take_head
  take_head-Split s from a p q =
      go (if link_valid k s (s.next (s.free_lists from)) then s.next (s.free_lists from) else 0)
    where
      go :
          (n : ℕ)
          → Agrees
              (if n == 0 then clear_bit 64 s.free_mask from else s.free_mask)
              (update s.free_lists from n)
      go n = elim (Bool-cases (n == 0)) [
        | inl z ↦ ground (arith, Agrees-clear a from p)
        | inr z ↦ ground (arith, Agrees-keep a from n q (ne-of-== n 0 z))
      ]

  -- A block is taken from a list that is not empty, and cut down.
  pub take_and_split-Heads :
      (s : Buddy) (from target : ℕ)
      → Heads s
      → from < 64
      → target < 64
      → s.free_lists from ≢ 0
      → Heads (take_and_split k s from target).0
  unfolding take_and_split
  take_and_split-Heads s from target a p r q =
      split_loop-Split (from - target) target (s.free_lists from) (order_size k from) _ _
        (take_head-Split s from a p q) (omega arith) q
