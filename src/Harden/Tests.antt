-- ===== src/Harden/Tests.antt =====
-- The checks on concrete bytes.
use abcmalloc.Base.{
  ℕ, ◌+◌, ◌-◌, ◌^◌, ◌<◌, ◌≤◌, ◌≡◌, ◌≢◌, ◌⊎◌, refl, true, false, ◌&&◌, leb, ltb, if◌then◌else◌,
  update, arith,
}
use abcmalloc.Harden.{write_redzone, verify_redzone, check_mul_overflow}
use abcmalloc.Harden.Redzone.{FillsBytes, verify_redzone-write_redzone}

abbrev pub fill : (ℕ → ℕ) → (at v n : ℕ) → ℕ → ℕ
fill m at v n i = if leb at i && ltb i (at + n) then v else m i

pub fill-FillsBytes : FillsBytes fill
fill-FillsBytes = record {
  inside = λ m at v n i p q. ground arith;
  outside = λ m at v n i o. ground arith;
}

verify_redzone-write_redzone_example :
    let m' = write_redzone true 16 0xC1 fill (λ _. 7) 4096 100 in
    (verify_redzone true 16 0xC1 m' 4096 100 ≡ true)
    × ((i : ℕ) → 4096 ≤ i → i < 4096 + 100 → m' i ≡ 7)
    × ((i v : ℕ)
        → ((4096 - 16 ≤ i) × (i < 4096)) ⊎ ((4096 + 100 ≤ i) × (i < 4096 + 100 + 16))
        → v ≢ 0xC1
        → verify_redzone true 16 0xC1 (update m' i v) 4096 100 ≡ false)
verify_redzone-write_redzone_example =
    verify_redzone-write_redzone 16 0xC1 fill fill-FillsBytes (λ _. 7) 4096 100 (omega arith)

wrapped_product : check_mul_overflow (2 ^ 40) (2 ^ 30) ≡ (true, 0)
unfolding check_mul_overflow
wrapped_product = refl
