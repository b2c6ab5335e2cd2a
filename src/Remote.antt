-- ===== src/Remote.antt =====
-- The queue of blocks that other threads free, `__mpsc_free_queue` of src/mpsc_free.hpp: many producers
-- push, and the owner of the arena pops. `seq`, `ptr` and `size` are the fields of the cells, and the
-- capacity is `2 ^ k`.
pub mod Fifo
pub mod Drain
mod Tests
use abcmalloc.Base.{
  ℕ, zero, suc, ◌+◌, ◌%◌, ◌^◌, Bool, not, ltb, ◌==◌, if◌then◌else◌, update, add64, Option, none,
  some, List, [], ◌∷◌,
}

pub record Queue : Type 0 where
  pub seq : ℕ → ℕ
  pub ptr : ℕ → ℕ
  pub size : ℕ → ℕ
  pub tail : ℕ
  pub head : ℕ

-- The constructor; `m` is the memory before.
unfoldable pub create : (m : Queue) → Queue
create m = record m { seq = λ i. i; tail = 0; head = 0 }

-- The cell of a position: `tail & __mask`, where the mask is the capacity less 1.
abbrev pub cell : (k position : ℕ) → ℕ
cell k position = position % 2 ^ k

-- `maybe_nonempty`
unfoldable pub maybe_nonempty : Queue → Bool
maybe_nonempty q = not (q.tail == q.head)

-- `diff < 0` for two numbers that are cast to `long long`
abbrev pub signed_lt : (a b : ℕ) → Bool
signed_lt a b = ltb (add64 a (2 ^ 63)) (add64 b (2 ^ 63))

-- What a round of `push` does with the tail that it read: it claims the position, finds the queue
-- full, or starts over.
pub data Attempt : Type 0 where
  claims : Attempt
  full : Attempt
  retries : Attempt

unfoldable pub attempt : (k : ℕ) → Queue → (tail : ℕ) → Attempt
attempt k q tail =
    let seq = q.seq (cell k tail) in
    if seq == tail then claims else if signed_lt seq tail then full else retries

-- `compare_exchange_weak`, where it succeeds
unfoldable pub claim : Queue → (tail : ℕ) → Queue
claim q tail = record q { tail = add64 tail 1 }

-- The end of `push`: the producer that claimed the position `tail` fills its cell.
unfoldable pub publish : (k : ℕ) → Queue → (tail p sz : ℕ) → Queue
publish k q tail p sz = record q {
  ptr = update q.ptr (cell k tail) p;
  size = update q.size (cell k tail) sz;
  seq = update q.seq (cell k tail) (add64 tail 1);
}

-- `none` is the answer `false`.
unfoldable pub pop : (k : ℕ) → Queue → Queue × Option (ℕ × ℕ)
pop k q =
    let c = cell k q.head in
    if not (q.seq c == add64 q.head 1) then (q, none) else (
      record q { seq = update q.seq c (add64 q.head (2 ^ k)); head = add64 q.head 1 },
      some (q.ptr c, q.size c),
    )

-- `drain`, with the payloads that it hands to its argument; fuel for the rounds of the loop
unfoldable pub drain : (fuel k : ℕ) → Queue → Queue × List (ℕ × ℕ)
drain zero k q = (q, [])
drain (suc fuel) k q = drain_next (pop k q).1 (drain fuel k (pop k q).0) q
  where
    drain_next : Option (ℕ × ℕ) → Queue × List (ℕ × ℕ) → Queue → Queue × List (ℕ × ℕ)
    drain_next none _ q = (q, [])
    drain_next (some p) (t, rest) _ = (t, p ∷ rest)
