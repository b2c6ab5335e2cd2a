-- ===== src/Arena/Insert.antt =====
-- The requests to a tier of src/arena.hpp: what they hand out lies in the range of one of its sheets.
use abcmalloc.Base.{
  ℕ, zero, suc, ◌+◌, ◌-◌, ◌*◌, ◌^◌, ◌<◌, ◌≤◌, ◌≡◌, refl, ◌∙◌, subst, Bool, true, false, not, ◌&&◌,
  ltb, leb, ◌==◌, arith, if_cases, update_cases, lt-of-ltb, le-of-leb-false, bit_and,
}
use abcmalloc.Base.Bits.Count.{ctz}
use abcmalloc.Buddy.State.{Chunk, null_chunk}
use abcmalloc.Index.{Index, Range, mask_get, detail_words}
use abcmalloc.Index.Search.{IsSorted}
use abcmalloc.Sheet.{Book, Sheet, mark}
use abcmalloc.Arena.Tier.{
  Tier, Config, ask, scan_bits, scan_words, insert_by, mark_exhausted, node_at, sheet_at,
}

-- Whether a sheet of the index holds an address.
abbrev pub InRange : Index → (p : ℕ) → Type 0
InRange s p = (i : ℕ) × (i < s.count) × ((s.idx i).lo ≤ p) × (p < (s.idx i).hi)

pub InRange-same :
    (s u : Index) {p : ℕ} → u.idx ≡ s.idx → u.count ≡ s.count → InRange u p → InRange s p
InRange-same s u {p} e d (i, q, lo, hi) = (
  i,
  omega (arith, d, q),
  subst (λ (f : ℕ → Range). (f i).lo ≤ p) e lo,
  subst (λ (f : ℕ → Range). p < (f i).hi) e hi,
)

-- What a tier needs of its sheets: `P lo hi` holds of a sheet of the range from `lo` to `hi`, stays
-- after a request of less than `2 ^ 62` bytes, and what is handed out lies in the range.
pub record Serves {S : Type 0} (b : Book S) (is_zero is_invalid : Chunk → Bool)
    (P : (lo hi : ℕ) → Sheet S → Type 0) : Type 0 where
  pub stays :
      (lo hi : ℕ) (s : Sheet S) (sz : ℕ)
      → P lo hi s
      → sz < 2 ^ 62
      → P lo hi (mark b is_zero is_invalid s sz).0
  pub inside :
      (lo hi : ℕ) (s : Sheet S) (sz : ℕ)
      → P lo hi s
      → sz < 2 ^ 62
      → is_zero (mark b is_zero is_invalid s sz).1 ≡ false
      → (lo ≤ (mark b is_zero is_invalid s sz).1.ptr)
        × ((mark b is_zero is_invalid s sz).1.ptr < hi)

-- The ranges of a tier are sorted and disjoint, its sheets are as they must be, and the blocks in its
-- cache, which holds less than 2 ^ 32, lie in them.
pub record Holds {S : Type 0} (P : (lo hi : ℕ) → Sheet S → Type 0) (t : Tier S) : Type 0 where
  pub sorted : IsSorted t.index
  pub nodes : (i j : ℕ) → i < t.index.count → j < t.index.count → node_at t i ≡ node_at t j → i ≡ j
  pub sheets_ok :
      (i : ℕ) → i < t.index.count → P (t.index.idx i).lo (t.index.idx i).hi (sheet_at t i)
  pub cached : (i : ℕ) → i < t.cache.count → InRange t.index (t.cache.ptr i)
  pub few : t.cache.count < 2 ^ 32

-- The answer to a request: the tier holds with the same ranges, and a chunk lies in one of them.
pub record Gives {S : Type 0} (P : (lo hi : ℕ) → Sheet S → Type 0) (is_zero : Chunk → Bool)
    (t : Tier S) (r : Tier S × Chunk) : Type 0 where
  pub holds : Holds P r.0
  pub same_idx : r.0.index.idx ≡ t.index.idx
  pub same_count : r.0.index.count ≡ t.index.count
  pub chunk : is_zero r.1 ≡ false → InRange t.index r.1.ptr

module _ {S : Type 0} (b : Book S) (is_zero is_invalid : Chunk → Bool) (k : Config)
    (P : (lo hi : ℕ) → Sheet S → Type 0) (serves : Serves b is_zero is_invalid P)
    (null_zero : is_zero null_chunk ≡ true) where
  masked-Holds :
      {t : Tier S}
      → Holds P t
      → (m : ℕ → ℕ) (l : ℕ)
      → Holds P (record t { index = record t.index { space_mask = m; last_hit = l } })
  masked-Holds v m l = record {
    sorted = record { proper = v.sorted.proper; apart = v.sorted.apart };
    nodes = v.nodes;
    sheets_ok = v.sheets_ok;
    cached = v.cached;
    few = v.few;
  }

  nothing-Gives : {t : Tier S} → Holds P t → Gives P is_zero t (t, null_chunk)
  nothing-Gives v = record {
    holds = v;
    same_idx = refl;
    same_count = refl;
    chunk = λ n. absurd (ground (arith, n, null_zero));
  }

  module _ (sz : ℕ) (small : sz < 2 ^ 62) where
    ask-Gives :
        {t : Tier S}
        → Holds P t
        → (pos : ℕ) → pos < t.index.count
        → Gives P is_zero t (ask b is_zero is_invalid k false t pos sz)
    unfolding ask
    ask-Gives {t} v pos p = record {
      holds = record {
        sorted = v.sorted;
        nodes = v.nodes;
        sheets_ok = λ i q.
            update_cases (P (t.index.idx i).lo (t.index.idx i).hi) t.sheets (node_at t pos)
              (mark b is_zero is_invalid (sheet_at t pos) sz).0 (node_at t i)
              (λ e.
                subst
                  (λ (j : ℕ).
                    P (t.index.idx j).lo (t.index.idx j).hi
                      (mark b is_zero is_invalid (sheet_at t pos) sz).0)
                  (v.nodes pos i p q e)
                  (serves.stays (t.index.idx pos).lo (t.index.idx pos).hi (sheet_at t pos) sz
                    (v.sheets_ok pos p) small))
              (λ _. v.sheets_ok i q);
        cached = v.cached;
        few = v.few;
      };
      same_idx = refl;
      same_count = refl;
      chunk = λ n.
          let (q, r) =
            serves.inside (t.index.idx pos).lo (t.index.idx pos).hi (sheet_at t pos) sz
              (v.sheets_ok pos p) small n in
          (pos, p, q, r);
    }

    -- The answer of a tier after another answer that changed no range.
    then-Gives :
        {t u : Tier S} {r : Tier S × Chunk}
        → u.index.idx ≡ t.index.idx
        → u.index.count ≡ t.index.count
        → Gives P is_zero u r
        → Gives P is_zero t r
    then-Gives {t} {u} e d g = record {
      holds = g.holds;
      same_idx = g.same_idx ∙ e;
      same_count = g.same_count ∙ d;
      chunk = λ n. InRange-same t.index u.index e d (g.chunk n);
    }

    scan_bits-Gives :
        (fuel : ℕ) {t : Tier S}
        → Holds P t
        → (w mask : ℕ) → Gives P is_zero t (scan_bits b is_zero is_invalid k false fuel t sz w mask)
    unfolding scan_bits mark_exhausted
    scan_bits-Gives zero v w mask = nothing-Gives v
    scan_bits-Gives (suc fuel) {t} v w mask =
        let pos = w * 64 + ctz 64 mask in
        if_cases (Gives P is_zero t) (mask == 0) (λ _. nothing-Gives v)
          λ _.
            if_cases (Gives P is_zero t) (leb t.index.count pos) (λ _. nothing-Gives v)
              λ e.
                let g = ask-Gives v pos (le-of-leb-false t.index.count pos e) in
                if_cases (Gives P is_zero t)
                  (not (is_zero (ask b is_zero is_invalid k false t pos sz).1))
                  (λ n. record {
                    holds = masked-Holds g.holds _ _;
                    same_idx = g.same_idx;
                    same_count = g.same_count;
                    chunk = g.chunk;
                  })
                  (λ _.
                    then-Gives g.same_idx g.same_count
                      (scan_bits-Gives fuel (masked-Holds g.holds _ _) w (bit_and mask (mask - 1))))

    scan_words-Gives :
        (left : ℕ) {t : Tier S}
        → Holds P t
        → (w : ℕ) → Gives P is_zero t (scan_words b is_zero is_invalid k false left t sz w)
    unfolding scan_words
    scan_words-Gives zero v w = nothing-Gives v
    scan_words-Gives (suc left) {t} v w =
        let g = scan_bits-Gives 64 v w (t.index.space_mask w) in
        if_cases (Gives P is_zero t)
          (is_zero (scan_bits b is_zero is_invalid k false 64 t sz w (t.index.space_mask w)).1)
          (λ _. then-Gives g.same_idx g.same_count (scan_words-Gives left g.holds (w + 1))) (λ _. g)

    pub insert_by-Gives :
        {t : Tier S} → Holds P t → Gives P is_zero t (insert_by b is_zero is_invalid k false t sz)
    unfolding insert_by mark_exhausted
    insert_by-Gives {t} v =
        let words = detail_words k.max_sheets in
        if_cases (Gives P is_zero t)
          (ltb t.index.last_hit t.index.count && mask_get t.index.space_mask t.index.last_hit)
          (λ e.
            let g =
              ask-Gives v t.index.last_hit
                (lt-of-ltb t.index.last_hit t.index.count (ground (arith, e))) in
            if_cases (Gives P is_zero t)
              (not (is_zero (ask b is_zero is_invalid k false t t.index.last_hit sz).1)) (λ _. g)
              (λ _.
                then-Gives g.same_idx g.same_count
                  (scan_words-Gives words (masked-Holds g.holds _ _) 0)))
          (λ _. scan_words-Gives words v 0)
