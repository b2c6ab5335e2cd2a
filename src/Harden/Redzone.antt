-- ===== src/Harden/Redzone.antt =====
-- The canaries of src/harden.hpp: they pass the check when they were written, and fail it when a
-- byte of them was overwritten.
use abcmalloc.Base.{
  ℕ, zero, suc, ◌+◌, ◌-◌, ◌^◌, ◌<◌, ◌≤◌, ◌≡◌, ◌≢◌, ◌⊎◌, inl, inr, refl, sym, ◌∙◌, Bool, true, false,
  not, ◌&&◌, ltb, ◌==◌, if_cases, update, arith, Bool-cases, eq-of-==, ne-of-==, ==_self, subst,
}
use abcmalloc.Harden.{
  all_bytes, write_redzone, verify_redzone_leading, verify_redzone, check_chunk_valid,
  check_ptr_valid,
}

-- The loop passes if all bytes are right.
all_bytes-true :
    (m : ℕ → ℕ) (byte at n : ℕ)
    → ((i : ℕ) → at ≤ i → i < at + n → m i ≡ byte)
    → all_bytes m byte at n ≡ true
unfolding all_bytes
all_bytes-true m byte at zero h = refl
all_bytes-true m byte at (suc n) h =
    rw (h at (omega arith) (omega arith), ==_self byte)
      (all_bytes-true m byte (at + 1) n (λ i p q. h i (omega arith) (omega arith)))

-- It fails if one is wrong.
all_bytes-false :
    (m : ℕ → ℕ) (byte at n i : ℕ) → at ≤ i → i < at + n → m i ≢ byte → all_bytes m byte at n ≡ false
unfolding all_bytes
all_bytes-false m byte at zero i p q h = absurd (omega arith)
all_bytes-false m byte at (suc n) i p q h =
    if_cases (λ (b : Bool). b ≡ false) (not (m at == byte)) (λ _. refl)
      (λ e. all_bytes-false m byte (at + 1) n i (later (Bool-cases (at == i)) e) (omega arith) h)
  where
    later : ((at == i) ≡ true) ⊎ ((at == i) ≡ false) → not (m at == byte) ≡ false → at + 1 ≤ i
    later (inl f) e =
        absurd (subst (λ (j : ℕ). m j ≢ byte) (sym (eq-of-== at i f)) h (ground arith))
    later (inr f) e = omega (arith, ne-of-== at i f)

-- What `memset` is documented to do.
pub record FillsBytes (memset : (ℕ → ℕ) → (at v n : ℕ) → ℕ → ℕ) : Type 0 where
  pub inside : (m : ℕ → ℕ) (at v n i : ℕ) → at ≤ i → i < at + n → memset m at v n i ≡ v
  pub outside : (m : ℕ → ℕ) (at v n i : ℕ) → (i < at) ⊎ (at + n ≤ i) → memset m at v n i ≡ m i

module _ (size byte : ℕ) (memset : (ℕ → ℕ) → (at v n : ℕ) → ℕ → ℕ) (fills : FillsBytes memset) where
  -- Where `memset` does what is documented and the leading canary fits below the block, the
  -- canaries of the block pass the check right after they were written, and the user's bytes are
  -- as they were; if a byte of either canary is then changed, the check fails.
  pub verify_redzone-write_redzone :
      (m : ℕ → ℕ) (p n : ℕ)
      → size ≤ p
      → let m' = write_redzone true size byte memset m p n in
        (verify_redzone true size byte m' p n ≡ true)
        × ((i : ℕ) → p ≤ i → i < p + n → m' i ≡ m i)
        × ((i v : ℕ)
            → ((p - size ≤ i) × (i < p)) ⊎ ((p + n ≤ i) × (i < p + n + size))
            → v ≢ byte
            → verify_redzone true size byte (update m' i v) p n ≡ false)
  unfolding write_redzone verify_redzone verify_redzone_leading
  verify_redzone-write_redzone m p n h = (
    rw (all_bytes-true m2 byte (p - size) size low, all_bytes-true m2 byte (p + n) size high) refl,
    λ i a b.
        fills.outside m1 (p + n) byte size i (inl b)
        ∙ fills.outside m (p - size) byte size i (inr (omega arith)),
    λ i v o ne. elim o [
      | inl c ↦
          rw
            (all_bytes-false (update m2 i v) byte (p - size) size i c.0 (omega (arith, c.1))
              (differs i v ne))
            refl
      | inr c ↦
          if_cases (λ (b : Bool). b ≡ false) (not (all_bytes (update m2 i v) byte (p - size) size))
            (λ _. refl)
            (λ _. all_bytes-false (update m2 i v) byte (p + n) size i c.0 c.1 (differs i v ne))
    ],
  )
    where
      m1 : ℕ → ℕ
      m1 = memset m (p - size) byte size

      m2 : ℕ → ℕ
      m2 = memset m1 (p + n) byte size

      high : (i : ℕ) → p + n ≤ i → i < p + n + size → m2 i ≡ byte
      high i a b = fills.inside m1 (p + n) byte size i a b

      low : (i : ℕ) → p - size ≤ i → i < p - size + size → m2 i ≡ byte
      low i a b =
          fills.outside m1 (p + n) byte size i (inl (omega arith))
          ∙ fills.inside m (p - size) byte size i a b

      differs : (i v : ℕ) → v ≢ byte → update m2 i v i ≢ byte
      differs i v ne = ground (arith, ne)

-- A chunk passes the check exactly if its address is neither null nor the last one, it is not empty,
-- and it ends within the address space, for an address and a length of 64 bits.
pub check_chunk_valid-lem :
    (ptr len : ℕ)
    → ptr < 2 ^ 64
    → len < 2 ^ 64
    → check_chunk_valid ptr len ≡ (
        not (ptr == 0) && (not (ptr == 2 ^ 64 - 1) && (not (len == 0) && ltb (ptr + len) (2 ^ 64))))
unfolding check_chunk_valid check_ptr_valid
check_chunk_valid-lem ptr len p q = ground arith
