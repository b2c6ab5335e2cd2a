-- ===== src/Predictor.antt =====
-- `alloc_predictor` of src/prediction.hpp: the sizes of the last requests, and the size that an
-- arena maps for the next one. The page size is a power of two, given by its exponent `page`, and
-- `shifts` gives the exponents of the size classes, both of the configuration.
pub mod Tracking
pub mod Cover
mod Tests
use abcmalloc.Base.{
  ℕ, ◌+◌, ◌-◌, ◌*◌, ◌/◌, ◌%◌, ◌^◌, Bool, true, false, not, ◌||◌, ltb, ◌==◌, if◌then◌else◌, update,
  add64, sub64,
}

abbrev pub max_cached : ℕ
max_cached = 32

pub record Predictor : Type 0 where
  pub allocs : ℕ → ℕ
  pub running_sum : ℕ
  pub running_div : ℕ
  pub index : ℕ

abbrev pub new_predictor : Predictor
new_predictor = record { allocs = λ _. 0; running_sum = 0; running_div = 0; index = 0 }

-- A comparison `n != 0`, as a number.
abbrev pub nonzero : ℕ → ℕ
nonzero n = if n == 0 then 0 else 1

-- `operator+=`
unfoldable pub push : Predictor → (n : ℕ) → Predictor
push p n =
    let old = p.allocs p.index in
    record {
      allocs = update p.allocs p.index n;
      running_sum = add64 (sub64 p.running_sum old) n;
      running_div = add64 (sub64 p.running_div (nonzero old)) (nonzero n);
      index = (p.index + 1) % max_cached;
    }

-- The classes that `of_class` chooses between.
pub record Classes : Type 0 where
  pub precise : ℕ
  pub small : ℕ
  pub medium : ℕ
  pub large : ℕ
  pub class_1mb : ℕ
  pub class_gb : ℕ

unfoldable pub of_class : Classes → (sz : ℕ) → ℕ
of_class c sz =
    if ltb sz c.small
    then c.precise
    else if ltb sz c.medium
    then c.small
    else if ltb sz c.large
    then c.medium
    else if ltb sz c.class_1mb
    then c.large
    else if ltb sz c.class_gb
    then c.class_1mb
    else c.class_gb

-- `(n + __system_pagesize - 1) & ~(__system_pagesize - 1)`
unfoldable pub align_to_page : (page n : ℕ) → ℕ
align_to_page page n = sub64 (add64 n (2 ^ page)) 1 / 2 ^ page * 2 ^ page

unfoldable pub predict_size : (page : ℕ) → Classes → Predictor → (n : ℕ) → ℕ
predict_size page c p n =
    let mean_alloc = p.running_sum / p.running_div in
    if p.running_div == 0
    then align_to_page page n
    else if mean_alloc == 0
        || ltb (mean_alloc * 3 % 2 ^ 64) n
        || not (of_class c n == of_class c mean_alloc)
    then align_to_page page n
    else align_to_page page (if ltb n mean_alloc then mean_alloc else n)
