-- ===== src/Harden.antt =====
-- The checks of src/harden.hpp. Memory is a function of the address; `memset` is micron's, and the
-- constants of the configuration are arguments. What is printed is left out.
pub mod Redzone
pub mod Tests
use abcmalloc.Base.{
  ℕ, zero, suc, ◌+◌, ◌-◌, ◌*◌, ◌/◌, ◌%◌, ◌^◌, Bool, true, false, not, ◌&&◌, ltb, leb, ◌==◌,
  if◌then◌else◌, add64,
}

-- `limit` is `__alloc_limit`, `constrained` is `__is_constrained`.
unfoldable pub check_constraint : (constrained : Bool) → (limit sz : ℕ) → Bool
check_constraint constrained limit sz =
    if constrained && (ltb limit sz && not (limit == 0))
    then true
    else if ltb ((2 ^ 64 - 1) / 2) sz
    then true
    else false

-- Whether the product wraps, and the product.
unfoldable pub check_mul_overflow : (a b : ℕ) → Bool × ℕ
check_mul_overflow a b =
    if leb (2 ^ 64) (a * b) then (true, a * b % 2 ^ 64) else (false, a * b % 2 ^ 64)

unfoldable pub check_add_overflow : (a b : ℕ) → Bool × ℕ
check_add_overflow a b = if leb (2 ^ 64) (a + b) then (true, add64 a b) else (false, add64 a b)

-- `addr & (align - 1)`, where `align` is 8
unfoldable pub check_alignment : (enabled : Bool) → (addr : ℕ) → Bool
check_alignment enabled addr = if enabled && not (addr % 8 == 0) then false else true

unfoldable pub check_ptr_valid : (ptr : ℕ) → Bool
check_ptr_valid ptr = if ptr == 0 then false else if ptr == 2 ^ 64 - 1 then false else true

unfoldable pub check_chunk_valid : (ptr len : ℕ) → Bool
check_chunk_valid ptr len =
    if not (check_ptr_valid ptr)
    then false
    else if len == 0
    then false
    else if ltb (add64 ptr len) ptr
    then false
    else true

-- A loop that compares `left` bytes from `at` on with `byte`, and stops at the first that differs.
unfoldable pub all_bytes : (m : ℕ → ℕ) → (byte at left : ℕ) → Bool
all_bytes m byte at zero = true
all_bytes m byte at (suc left) =
    let rest = all_bytes m byte (at + 1) left in if not (m at == byte) then false else rest

-- `__default_redzone`, its size and its byte
module _ (redzone : Bool) (size byte : ℕ) where
  unfoldable pub write_redzone :
      (memset : (ℕ → ℕ) → (at v n : ℕ) → ℕ → ℕ) → (m : ℕ → ℕ) → (user_ptr user_sz : ℕ) → ℕ → ℕ
  write_redzone memset m user_ptr user_sz =
      if redzone
      then memset (memset m (user_ptr - size) byte size) (user_ptr + user_sz) byte size
      else m

  unfoldable pub verify_redzone_leading : (m : ℕ → ℕ) → (user_ptr : ℕ) → Bool
  verify_redzone_leading m user_ptr =
      if redzone then all_bytes m byte (user_ptr - size) size else true

  unfoldable pub verify_redzone : (m : ℕ → ℕ) → (user_ptr user_sz : ℕ) → Bool
  verify_redzone m user_ptr user_sz =
      if redzone
      then if not (verify_redzone_leading m user_ptr)
        then false
        else all_bytes m byte (user_ptr + user_sz) size
      else true
