-- ===== src/Remote/Tests.antt =====
-- Runs of the queue of src/mpsc_free.hpp, with a capacity of 4, and its theorems there.
use abcmalloc.Base.{ℕ, ◌+◌, ◌^◌, ◌<◌, ◌≡◌, ◌⊎◌, refl, true, false, some, none, arith}
use abcmalloc.Remote.{
  Queue, claims, full, create, attempt, claim, publish, pop, drain, maybe_nonempty,
}
use abcmalloc.Remote.Fifo.{
  World, Reach, created, claiming, publishing, claimed, published, Reach-pop, Reach-attempt,
}
use abcmalloc.Remote.Drain.{payloads, drain-payloads}

abbrev memory : Queue
memory = record { seq = λ _. 0; ptr = λ _. 0; size = λ _. 0; tail = 0; head = 0 }

abbrev world_0 : World
world_0 = record { queue = create memory; flying = λ _. false; sent = λ _. (0, 0) }

-- One producer pushes a block of 64 bytes at 4096.
abbrev world_1 : World
world_1 = claimed world_0 (4096, 64)

abbrev world_2 : World
world_2 = published 2 world_1 0

room_0 : attempt 2 world_0.queue world_0.queue.tail ≡ claims
unfolding create attempt
room_0 = refl

in_flight_1 : world_1.flying 0 ≡ true
unfolding create
in_flight_1 = refl

tail_0 : world_0.queue.tail < 2 ^ 62
unfolding create
tail_0 = omega arith

world_1-Reach : Reach 2 world_1
world_1-Reach = claiming world_0 (4096, 64) (created memory (λ _. (0, 0))) room_0 tail_0

world_2-Reach : Reach 2 world_2
world_2-Reach = publishing world_1 0 world_1-Reach in_flight_1

still_2 : (t : ℕ) → world_2.flying t ≡ false
unfolding create
still_2 t = ground arith

one_2 : world_2.queue.tail ≡ world_2.queue.head + 1
unfolding create claim publish
one_2 = refl

nonempty_2 : maybe_nonempty world_2.queue ≡ true
unfolding create claim publish maybe_nonempty
nonempty_2 = refl

Reach-pop_example :
    (((pop 2 world_2.queue).1 ≡ none)
      × ((world_2.queue.head ≡ world_2.queue.tail) ⊎ (world_2.flying world_2.queue.head ≡ true)))
    ⊎ (((pop 2 world_2.queue).1 ≡ some (world_2.sent world_2.queue.head))
        × ((pop 2 world_2.queue).0.head ≡ world_2.queue.head + 1)
        × (world_2.queue.head < world_2.queue.tail))
Reach-pop_example = Reach-pop 2 (omega arith) (omega arith) world_2-Reach

Reach-attempt_example :
    ((world_2.queue.tail < world_2.queue.head + 2 ^ 2)
      × (attempt 2 world_2.queue world_2.queue.tail ≡ claims))
    ⊎ ((world_2.queue.tail ≡ world_2.queue.head + 2 ^ 2)
        × (attempt 2 world_2.queue world_2.queue.tail ≡ full))
Reach-attempt_example = Reach-attempt 2 (omega arith) (omega arith) world_2-Reach

drain-payloads_example :
    ((drain 2 2 world_2.queue).1 ≡ payloads world_2.sent 1 world_2.queue.head)
    × ((drain 2 2 world_2.queue).0.head ≡ world_2.queue.tail)
drain-payloads_example =
    drain-payloads 2 (omega arith) (omega arith) 2 1 world_2-Reach still_2 one_2 (omega arith)

-- With a capacity of 1, a cell that was filled and not yet popped is claimed again.
overwritten : attempt 0 (published 0 world_1 0).queue 1 ≡ claims
unfolding create claim publish attempt
overwritten = refl
