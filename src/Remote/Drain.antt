-- ===== src/Remote/Drain.antt =====
-- `drain` of src/mpsc_free.hpp, when no producer is about to fill a cell.
use abcmalloc.Base.{
  ℕ, zero, suc, ◌+◌, ◌^◌, ◌<◌, ◌≤◌, ◌≡◌, ◌⊎◌, refl, ap, ◌∙◌, true, false, arith, Option, inl, inr,
  List, [], ◌∷◌, if_cases, not, ◌==◌, add64,
}
use abcmalloc.Remote.{Queue, cell, pop, drain}
use abcmalloc.Remote.Fifo.{World, Reach, popping, Reach-pop}

-- The payloads of `n` positions from `h` on.
abbrev pub payloads : (ℕ → ℕ × ℕ) → (n h : ℕ) → List (ℕ × ℕ)
payloads sent zero h = []
payloads sent (suc n) h = sent h ∷ payloads sent n (h + 1)

pop-tail : (k : ℕ) (q : Queue) → (pop k q).0.tail ≡ q.tail
unfolding pop
pop-tail k q =
    if_cases (λ (r : Queue × Option (ℕ × ℕ)). r.0.tail ≡ q.tail)
      (not (q.seq (cell k q.head) == add64 q.head 1)) (λ _. refl) (λ _. refl)

some_left :
    (w : World) (n : ℕ)
    → w.queue.tail ≡ w.queue.head + suc n
    → w.flying w.queue.head ≡ false
    → ¬ ((w.queue.head ≡ w.queue.tail) ⊎ (w.flying w.queue.head ≡ true))
some_left w n e still (inl h) = omega (arith, e, h)
some_left w n e still (inr f) = ground (arith, f, still)

module _ (k : ℕ) (low : 2 ≤ 2 ^ k) (high : 2 ^ k ≤ 2 ^ 62) where
  -- The loop of `drain` ends after as many rounds as there are positions from the head to the tail, if
  -- the producers of these have filled their cells, and it hands over their payloads in order.
  pub drain-payloads :
      (fuel n : ℕ) {w : World}
      → Reach k w
      → ((t : ℕ) → w.flying t ≡ false)
      → w.queue.tail ≡ w.queue.head + n
      → n < fuel
      → ((drain fuel k w.queue).1 ≡ payloads w.sent n w.queue.head)
        × ((drain fuel k w.queue).0.head ≡ w.queue.tail)
  unfolding drain
  drain-payloads zero n r still e p = absurd (omega arith)
  drain-payloads (suc fuel) zero {w} r still e p = elim (Reach-pop k low high r) [
    | inl (none_left, _) ↦ rw none_left (refl, omega (arith, e))
    | inr (_, _, l) ↦ absurd (omega (arith, e, l))
  ]
  drain-payloads (suc fuel) (suc n) {w} r still e p = elim (Reach-pop k low high r) [
    | inl (_, why) ↦ absurd (some_left w n e (still w.queue.head) why)
    | inr (got, on, _) ↦
        let (rest, ends) =
          drain-payloads fuel n (popping w r) still (omega (arith, pop-tail k w.queue, on, e))
            (omega arith) in
        rw got (
          ap (λ (x : List (ℕ × ℕ)). w.sent w.queue.head ∷ x) (rest ∙ ap (payloads w.sent n) on),
          ends ∙ pop-tail k w.queue,
        )
  ]
