-- ===== src/Tlsf/Core/Blocks.antt =====
-- `try_split` of src/cache_list.hpp: the rest of a block that is cut becomes a free block.
use abcmalloc.Base.{
  ℕ, ◌+◌, ◌-◌, ◌%◌, ◌^◌, ◌≤◌, ◌≡◌, ◌≢◌, refl, sym, ap, ◌∙◌, Bool, true, false, update, arith, inl,
  inr, Bool-cases, update_cases, update_self, update-ne, sub64,
}
use abcmalloc.Tlsf.State.{Tlsf, idx_of, mapping_insert}
use abcmalloc.Tlsf.FreeList.{write_rest, fl_insert}
use abcmalloc.Tlsf.Lists.{Linked, list_of}
use abcmalloc.Tlsf.Tiles.Cut.{Tiled-cut, rest_not_start}
use abcmalloc.Tlsf.Core.{Core}
use abcmalloc.Tlsf.Core.Lists.{fl_insert-Core}

-- The lists do not depend on the sizes of blocks that are not free.
pub Linked-sizes :
    {free : ℕ → Bool} {lst heads next prev : ℕ → ℕ} (lst' : ℕ → ℕ)
    → ((a : ℕ) → free a ≡ true → lst' a ≡ lst a)
    → Linked free lst heads next prev
    → Linked free lst' heads next prev
Linked-sizes {heads = heads} {next = next} {prev = prev} lst' h v = record {
  not_null = v.not_null;
  head = λ i n. let (p, q, r) = v.head i n in (p, h (heads i) p ∙ q, r);
  after = λ b p n. let (f, q, r) = v.after b p n in (f, h (next b) f ∙ q ∙ sym (h b p), r);
  first = λ b p e. ap heads (h b p) ∙ v.first b p e;
  before = λ b p n. let (f, q, r) = v.before b p n in (f, h (prev b) f ∙ q ∙ sym (h b p), r);
}

module _ {s : Tlsf} {start free : ℕ → Bool} (v : Core s start free) where
  module _ (b n : ℕ) (here : start b ≡ true) (used : free b ≡ false) (fits : n + 64 ≤ s.bsize b)
      (enough : 64 ≤ n) (steps : n % 32 ≡ 0) where
    size_rest : sub64 (s.bsize b) n % 2 ^ 32 ≡ s.bsize b - n
    size_rest = omega (arith, (v.tiled.sized b here).1)

    size_front : n % 2 ^ 32 ≡ n
    size_front = omega (arith, (v.tiled.sized b here).1)

    at_end : b + n + (s.bsize b - n) ≡ b + s.bsize b
    at_end = omega arith

    rest_not_free : free (b + n) ≡ false
    rest_not_free = elim (Bool-cases (free (b + n))) [
      | inr e ↦ e
      | inl e ↦
          absurd
            (ground (arith, v.subset (b + n) e, rest_not_start v.tiled b n here fits enough steps))
    ]

    size_other :
        (a : ℕ) → free a ≡ true → (write_rest s b n (sub64 (s.bsize b) n)).bsize a ≡ s.bsize a
    unfolding write_rest
    size_other a h =
        update-ne (update s.bsize b (n % 2 ^ 32)) (b + n) (sub64 (s.bsize b) n % 2 ^ 32) a
          (λ e. ground (arith, rest_not_free, ap free e))
        ∙ update-ne s.bsize b (n % 2 ^ 32) a (λ e. ground (arith, ap free e))

    pub write_rest-Core :
        Core (write_rest s b n (sub64 (s.bsize b) n)) (update start (b + n) true) free
    unfolding write_rest
    write_rest-Core = record {
      based = v.based;
      in_space = v.in_space;
      levels = v.levels;
      tiled = rw (size_rest, size_front, at_end) (Tiled-cut v.tiled b n here fits enough steps);
      subset = λ a h.
          update_cases (λ (x : Bool). x ≡ true) start (b + n) true a (λ _. refl)
            (λ _. v.subset a h);
      linked =
          Linked-sizes (list_of (write_rest s b n (sub64 (s.bsize b) n)).bsize)
            (λ a h. ap (λ (z : ℕ). idx_of (mapping_insert z)) (size_other a h)) v.linked;
      marked = v.marked;
    }

    -- The block that is cut, and the rest of it, which enters its list.
    pub cut-Core :
        Core
          (fl_insert (write_rest s b n (sub64 (s.bsize b) n)) (b + n))
          (update start (b + n) true)
          (update free (b + n) true)
    cut-Core = fl_insert-Core write_rest-Core (b + n) (update_self start (b + n) true) rest_not_free

    pub front_size : (fl_insert (write_rest s b n (sub64 (s.bsize b) n)) (b + n)).bsize b ≡ n
    unfolding fl_insert write_rest
    front_size =
        update-ne (update s.bsize b (n % 2 ^ 32)) (b + n) (sub64 (s.bsize b) n % 2 ^ 32) b
          (omega arith)
        ∙ update_self s.bsize b (n % 2 ^ 32)
        ∙ size_front

    pub size_kept :
        (a : ℕ)
        → start a ≡ true
        → b ≢ a
        → (fl_insert (write_rest s b n (sub64 (s.bsize b) n)) (b + n)).bsize a ≡ s.bsize a
    unfolding fl_insert write_rest
    size_kept a h m =
        update-ne (update s.bsize b (n % 2 ^ 32)) (b + n) (sub64 (s.bsize b) n % 2 ^ 32) a
          (λ e. ground (arith, ap start e, rest_not_start v.tiled b n here fits enough steps))
        ∙ update-ne s.bsize b (n % 2 ^ 32) a m
