-- ===== src/Remote/Fifo.antt =====
-- The queue of src/mpsc_free.hpp with any number of producers and one consumer, in any interleaving:
-- what is popped is what was pushed, in the order of the positions.
use abcmalloc.Base.{
  ℕ, ◌+◌, ◌/◌, ◌^◌, ◌<◌, ◌≤◌, ◌≡◌, ◌≢◌, ◌⊎◌, ==_self, refl, sym, ap, ◌∙◌, subst, Bool, true, false,
  not, ◌==◌, update, add64, arith, Option, none, some, inl, inr, Bool-cases, eq-of-==, ne-of-==,
  if_cases, ltb, lt-of-ltb, le-of-ltb-false, suc, update_cases, update_self, update-ne,
}
use native.Mathlib.Nat.{div-add-mod', mul-le-mul_right, add-mod_right, mod-eq_of_lt, suc-mul}
use abcmalloc.Remote.{
  Queue, Attempt, claims, full, create, cell, attempt, signed_lt, claim, publish, pop,
}

-- The queue with what its producers hold: `flying` are the positions that are claimed and not yet
-- filled, and `sent` is the payload of each position that was claimed.
pub record World : Type 0 where
  pub queue : Queue
  pub flying : ℕ → Bool
  pub sent : ℕ → ℕ × ℕ

-- A producer with the payload `x` claims the position at the tail.
abbrev pub claimed : World → (x : ℕ × ℕ) → World
claimed w x = record {
  queue = claim w.queue w.queue.tail;
  flying = update w.flying w.queue.tail true;
  sent = update w.sent w.queue.tail x;
}

-- The producer of a position fills its cell.
abbrev pub published : (k : ℕ) → World → (t : ℕ) → World
published k w t = record w {
  queue = publish k w.queue t (w.sent t).0 (w.sent t).1;
  flying = update w.flying t false;
}

abbrev pub popped : (k : ℕ) → World → World
popped k w = record w { queue = (pop k w.queue).0 }

-- The interleavings, from an empty queue on. Positions stay below 2^62.
pub data Reach (k : ℕ) : World → Type 0 where
  created :
      (m : Queue) (sent : ℕ → ℕ × ℕ)
      → Reach k (record { queue = create m; flying = λ _. false; sent = sent })
  claiming :
      (w : World) (x : ℕ × ℕ)
      → Reach k w
      → attempt k w.queue w.queue.tail ≡ claims
      → w.queue.tail < 2 ^ 62
      → Reach k (claimed w x)
  publishing : (w : World) (t : ℕ) → Reach k w → w.flying t ≡ true → Reach k (published k w t)
  popping : (w : World) → Reach k w → Reach k (popped k w)

-- The cells from the head to the tail belong to positions that are claimed or filled, and the others
-- to the positions that come next.
pub record Holds (k : ℕ) (w : World) : Type 0 where
  pub order : w.queue.head ≤ w.queue.tail
  pub room : w.queue.tail ≤ w.queue.head + 2 ^ k
  pub bounded : w.queue.tail ≤ 2 ^ 62
  pub in_flight : (t : ℕ) → w.flying t ≡ true → (w.queue.head ≤ t) × (t < w.queue.tail)
  pub waiting : (t : ℕ) → w.flying t ≡ true → w.queue.seq (cell k t) ≡ t
  pub filled :
      (t : ℕ)
      → w.queue.head ≤ t
      → t < w.queue.tail
      → w.flying t ≡ false
      → (w.queue.seq (cell k t) ≡ t + 1)
        × (w.queue.ptr (cell k t) ≡ (w.sent t).0)
        × (w.queue.size (cell k t) ≡ (w.sent t).1)
  pub vacant : (t : ℕ) → w.queue.tail ≤ t → t < w.queue.head + 2 ^ k → w.queue.seq (cell k t) ≡ t

-- Positions that are less than the capacity apart have different cells.
cell_ne : (k t u : ℕ) → t < u → u < t + 2 ^ k → cell k t ≢ cell k u
cell_ne k t u p q e = elim (Bool-cases (ltb (t / 2 ^ k) (u / 2 ^ k))) [
  | inl l ↦ omega (
    arith,
    e,
    div-add-mod' t (2 ^ k),
    div-add-mod' u (2 ^ k),
    mul-le-mul_right {m = suc (t / 2 ^ k)} {n = u / 2 ^ k} (2 ^ k)
        (lt-of-ltb (t / 2 ^ k) (u / 2 ^ k) l),
    suc-mul (t / 2 ^ k) (2 ^ k),
  )
  | inr l ↦ omega (
    arith,
    e,
    div-add-mod' t (2 ^ k),
    div-add-mod' u (2 ^ k),
    mul-le-mul_right {m = u / 2 ^ k} {n = t / 2 ^ k} (2 ^ k)
        (le-of-ltb-false (t / 2 ^ k) (u / 2 ^ k) l),
  )
]

-- Two positions of a stretch of the capacity.
cells_differ :
    (k h t u : ℕ) → h ≤ t → t < h + 2 ^ k → h ≤ u → u < h + 2 ^ k → t ≢ u → cell k t ≢ cell k u
cells_differ k h t u a b c d n = elim (Bool-cases (ltb t u)) [
  | inl e ↦ cell_ne k t u (lt-of-ltb t u e) (omega arith)
  | inr e ↦ λ f. cell_ne k u t (omega (arith, n, le-of-ltb-false t u e)) (omega arith) (sym f)
]

cell_round : (k t : ℕ) → cell k (t + 2 ^ k) ≡ cell k t
cell_round k t = add-mod_right t (2 ^ k)

attempt-claims : (k : ℕ) (q : Queue) (t : ℕ) → attempt k q t ≡ claims → q.seq (cell k t) ≡ t
unfolding attempt
attempt-claims k q t =
    if_cases (λ (a : Attempt). a ≡ claims → q.seq (cell k t) ≡ t) (q.seq (cell k t) == t)
      (λ e _. eq-of-== (q.seq (cell k t)) t e)
      (λ _.
        if_cases (λ (a : Attempt). a ≡ claims → q.seq (cell k t) ≡ t)
          (signed_lt (q.seq (cell k t)) t) (λ _ e. cc) (λ _ e. cc))

module _ (k : ℕ) (low : 2 ≤ 2 ^ k) (high : 2 ^ k ≤ 2 ^ 62) where
  created-Holds :
      (m : Queue) (sent : ℕ → ℕ × ℕ)
      → Holds k (record { queue = create m; flying = λ _. false; sent = sent })
  unfolding create
  created-Holds m sent = record {
    order = omega arith;
    room = omega arith;
    bounded = omega arith;
    in_flight = λ t h. absurd (ground (arith, h));
    waiting = λ t h. absurd (ground (arith, h));
    filled = λ t _ p _. absurd (omega arith);
    vacant = λ t _ p. mod-eq_of_lt {n = t} {m = 2 ^ k} (omega arith);
  }

  module _ {w : World} (v : Holds k w) where
    tail_room :
        w.queue.seq (cell k w.queue.tail) ≡ w.queue.tail → w.queue.tail < w.queue.head + 2 ^ k
    tail_room e = elim (Bool-cases (ltb w.queue.tail (w.queue.head + 2 ^ k))) [
      | inl l ↦ lt-of-ltb w.queue.tail (w.queue.head + 2 ^ k) l
      | inr l ↦ elim (Bool-cases (w.flying w.queue.head)) [
        | inl f ↦ absurd (
            omega (
              arith,
              v.waiting w.queue.head f,
              round l,
              e,
              le-of-ltb-false w.queue.tail (w.queue.head + 2 ^ k) l,
            ))
        | inr f ↦ absurd (
            omega (
              arith,
              (v.filled w.queue.head (omega arith)
                  (omega (arith, le-of-ltb-false w.queue.tail (w.queue.head + 2 ^ k) l)) f).0,
              round l,
              e,
              le-of-ltb-false w.queue.tail (w.queue.head + 2 ^ k) l,
              v.room,
            ))
      ]
    ]
      where
        round :
            ltb w.queue.tail (w.queue.head + 2 ^ k) ≡ false
            → w.queue.seq (cell k w.queue.tail) ≡ w.queue.seq (cell k w.queue.head)
        round l = ap w.queue.seq (
            ap (cell k) {x = w.queue.tail} {y = w.queue.head + 2 ^ k}
              (omega (arith, v.room, le-of-ltb-false w.queue.tail (w.queue.head + 2 ^ k) l))
            ∙ cell_round k w.queue.head)

    claimed-Holds :
        (x : ℕ × ℕ)
        → w.queue.seq (cell k w.queue.tail) ≡ w.queue.tail
        → w.queue.tail < 2 ^ 62
        → Holds k (claimed w x)
    unfolding claim
    claimed-Holds x e p = record {
      order = omega (arith, next);
      room = omega (arith, next, tail_room e);
      bounded = omega (arith, next);
      in_flight = λ t.
          update_cases (λ (b : Bool). b ≡ true → (w.queue.head ≤ t) × (t < add64 w.queue.tail 1))
            w.flying w.queue.tail true t (λ d _. (omega (arith, v.order), omega (arith, next)))
            (λ _ f. ((v.in_flight t f).0, omega (arith, (v.in_flight t f).1, next)));
      waiting = λ t.
          update_cases (λ (b : Bool). b ≡ true → w.queue.seq (cell k t) ≡ t) w.flying w.queue.tail
            true t (λ d _. subst (λ (u : ℕ). w.queue.seq (cell k u) ≡ u) d e)
            (λ _ f. v.waiting t f);
      filled = λ t a b f.
          let n : w.queue.tail ≢ t = λ d. ground (
            arith,
            sym f
                ∙ ap (update w.flying w.queue.tail true) (sym d)
                ∙ update_self w.flying w.queue.tail true,
          ) in
          let (x1, x2, x3) =
            v.filled t a (omega (arith, n, next))
              (sym (update-ne w.flying w.queue.tail true t n) ∙ f) in
          (
            x1,
            rw (update-ne w.sent w.queue.tail x t n) x2,
            rw (update-ne w.sent w.queue.tail x t n) x3,
          );
      vacant = λ t a b. v.vacant t (omega (arith, next)) b;
    }
      where
        next : add64 w.queue.tail 1 ≡ w.queue.tail + 1
        next = omega arith

    published-Holds : (t : ℕ) → w.flying t ≡ true → Holds k (published k w t)
    unfolding publish
    published-Holds t h = record {
      order = v.order;
      room = v.room;
      bounded = v.bounded;
      in_flight = λ u.
          update_cases (λ (b : Bool). b ≡ true → (w.queue.head ≤ u) × (u < w.queue.tail)) w.flying t
            false u (λ _ f. absurd (ground (arith, f))) (λ _ f. v.in_flight u f);
      waiting = λ u.
          update_cases
            (λ (b : Bool). b ≡ true → update w.queue.seq (cell k t) (add64 t 1) (cell k u) ≡ u)
            w.flying t false u (λ _ f. absurd (ground (arith, f)))
            (λ n f.
              other_cell w.queue.seq (add64 t 1) u (v.in_flight u f).0
                (omega (arith, (v.in_flight u f).1, v.room)) n
              ∙ v.waiting u f);
      filled = λ u a b.
          update_cases
            (λ (y : Bool).
              y ≡ false
              → (update w.queue.seq (cell k t) (add64 t 1) (cell k u) ≡ u + 1)
                × (update w.queue.ptr (cell k t) (w.sent t).0 (cell k u) ≡ (w.sent u).0)
                × (update w.queue.size (cell k t) (w.sent t).1 (cell k u) ≡ (w.sent u).1))
            w.flying t false u
            (λ e _.
              subst
                (λ (c : ℕ).
                  (update w.queue.seq (cell k t) (add64 t 1) (cell k c) ≡ c + 1)
                  × (update w.queue.ptr (cell k t) (w.sent t).0 (cell k c) ≡ (w.sent c).0)
                  × (update w.queue.size (cell k t) (w.sent t).1 (cell k c) ≡ (w.sent c).1))
                e
                (
                  update_self w.queue.seq (cell k t) (add64 t 1)
                      ∙ omega (arith, (v.in_flight t h).1, v.bounded),
                  update_self w.queue.ptr (cell k t) (w.sent t).0,
                  update_self w.queue.size (cell k t) (w.sent t).1,
                ))
            (λ n f.
              let (x1, x2, x3) = v.filled u a b f in
              (
                other_cell w.queue.seq (add64 t 1) u a (omega (arith, b, v.room)) n ∙ x1,
                other_cell w.queue.ptr (w.sent t).0 u a (omega (arith, b, v.room)) n ∙ x2,
                other_cell w.queue.size (w.sent t).1 u a (omega (arith, b, v.room)) n ∙ x3,
              ));
      vacant = λ u a b.
          other_cell w.queue.seq (add64 t 1) u (omega (arith, v.order)) b
            (omega (arith, (v.in_flight t h).1))
          ∙ v.vacant u a b;
    }
      where
        other_cell :
            (f : ℕ → ℕ) (y u : ℕ)
            → w.queue.head ≤ u
            → u < w.queue.head + 2 ^ k
            → t ≢ u
            → update f (cell k t) y (cell k u) ≡ f (cell k u)
        other_cell f y u a b n = update-ne f (cell k t) y (cell k u) (
            cells_differ k w.queue.head t u (v.in_flight t h).0
              (omega (arith, (v.in_flight t h).1, v.room)) a b n)

    -- A cell that the consumer accepts is filled.
    head_filled :
        w.queue.seq (cell k w.queue.head) ≡ add64 w.queue.head 1
        → (w.queue.head < w.queue.tail) × (w.flying w.queue.head ≡ false)
    head_filled e = elim (Bool-cases (ltb w.queue.head w.queue.tail)) [
      | inr l ↦ absurd (
          omega (
            arith,
            e,
            v.bounded,
            v.order,
            v.vacant w.queue.head (le-of-ltb-false w.queue.head w.queue.tail l) (omega arith),
          ))
      | inl l ↦ elim (Bool-cases (w.flying w.queue.head)) [
        | inl f ↦ absurd (omega (arith, e, v.waiting w.queue.head f, v.bounded, v.order))
        | inr f ↦ (lt-of-ltb w.queue.head w.queue.tail l, f)
      ]
    ]

    advanced-Holds :
        w.queue.seq (cell k w.queue.head) ≡ add64 w.queue.head 1
        → Holds k (record w {
          queue = record w.queue {
            seq = update w.queue.seq (cell k w.queue.head) (add64 w.queue.head (2 ^ k));
            head = add64 w.queue.head 1;
          };
        })
    advanced-Holds e = record {
      order = omega (arith, next, (head_filled e).0);
      room = omega (arith, next, v.room);
      bounded = v.bounded;
      in_flight =
          λ t f. (omega (arith, next, (v.in_flight t f).0, not_head t f), (v.in_flight t f).1);
      waiting = λ t f.
          other_cell t (omega (arith, (v.in_flight t f).0, not_head t f))
            (omega (arith, (v.in_flight t f).1, v.room))
          ∙ v.waiting t f;
      filled = λ t a b f.
          let (x1, x2, x3) = v.filled t (omega (arith, a, next)) b f in
          (other_cell t (omega (arith, a, next)) (omega (arith, b, v.room)) ∙ x1, x2, x3);
      vacant = λ t a b. elim (Bool-cases (ltb t (w.queue.head + 2 ^ k))) [
        | inl l ↦
            other_cell t (omega (arith, a, (head_filled e).0))
              (lt-of-ltb t (w.queue.head + 2 ^ k) l)
            ∙ v.vacant t a (lt-of-ltb t (w.queue.head + 2 ^ k) l)
        | inr l ↦
            subst
              (λ (c : ℕ).
                update w.queue.seq (cell k w.queue.head) (add64 w.queue.head (2 ^ k)) (cell k c)
                ≡ c)
              {x = w.queue.head + 2 ^ k} {y = t}
              (omega (arith, b, next, le-of-ltb-false t (w.queue.head + 2 ^ k) l))
              (ap (update w.queue.seq (cell k w.queue.head) (add64 w.queue.head (2 ^ k)))
                  (cell_round k w.queue.head)
                ∙ update_self w.queue.seq (cell k w.queue.head) (add64 w.queue.head (2 ^ k))
                ∙ omega (arith, v.order, v.bounded))
      ];
    }
      where
        next : add64 w.queue.head 1 ≡ w.queue.head + 1
        next = omega (arith, v.order, v.bounded)

        not_head : (t : ℕ) → w.flying t ≡ true → w.queue.head ≢ t
        not_head t f d = ground (arith, ap w.flying d, f, (head_filled e).1)

        other_cell :
            (t : ℕ)
            → w.queue.head < t
            → t < w.queue.head + 2 ^ k
            → update w.queue.seq (cell k w.queue.head) (add64 w.queue.head (2 ^ k)) (cell k t)
              ≡ w.queue.seq (cell k t)
        other_cell t a b =
            update-ne w.queue.seq (cell k w.queue.head) (add64 w.queue.head (2 ^ k)) (cell k t)
              (cell_ne k w.queue.head t a b)

    popped-Holds : Holds k (popped k w)
    unfolding pop
    popped-Holds =
        if_cases (λ (r : Queue × Option (ℕ × ℕ)). Holds k (record w { queue = r.0 }))
          (not (w.queue.seq (cell k w.queue.head) == add64 w.queue.head 1)) (λ _. v)
          (λ e. advanced-Holds (
            eq-of-== (w.queue.seq (cell k w.queue.head)) (add64 w.queue.head 1)
              (ground (arith, e))))

  -- In any interleaving of producers and the consumer, with fewer than 2^62 pushes: the cells from the
  -- head to the tail hold what was sent, or wait for their producers, and the others wait for the next
  -- positions.
  pub Reach-Holds : {w : World} → Reach k w → Holds k w
  Reach-Holds (created m sent) = created-Holds m sent
  Reach-Holds (claiming w x r e p) =
      claimed-Holds (Reach-Holds r) x (attempt-claims k w.queue w.queue.tail e) p
  Reach-Holds (publishing w t r h) = published-Holds (Reach-Holds r) t h
  Reach-Holds (popping w r) = popped-Holds (Reach-Holds r)

  -- `pop` answers the payload of the position at the head, and takes it; or nothing, if no position is
  -- claimed from the head on, or the producer of the one at the head has not filled its cell.
  pub pop-lem :
      {w : World}
      → Holds k w
      → (((pop k w.queue).1 ≡ none)
          × ((w.queue.head ≡ w.queue.tail) ⊎ (w.flying w.queue.head ≡ true)))
        ⊎ (((pop k w.queue).1 ≡ some (w.sent w.queue.head))
            × ((pop k w.queue).0.head ≡ w.queue.head + 1)
            × (w.queue.head < w.queue.tail))
  unfolding pop
  pop-lem {w} v =
      if_cases
        (λ (r : Queue × Option (ℕ × ℕ)).
          ((r.1 ≡ none) × ((w.queue.head ≡ w.queue.tail) ⊎ (w.flying w.queue.head ≡ true)))
          ⊎ ((r.1 ≡ some (w.sent w.queue.head))
              × (r.0.head ≡ w.queue.head + 1)
              × (w.queue.head < w.queue.tail)))
        (not (w.queue.seq (cell k w.queue.head) == add64 w.queue.head 1))
        (λ n. inl (refl, empty_or_flying n))
        (λ n.
          let e =
            eq-of-== (w.queue.seq (cell k w.queue.head)) (add64 w.queue.head 1)
              (ground (arith, n)) in
          let (l, f) = head_filled v e in
          let (_, p, s) = v.filled w.queue.head (omega arith) l f in
          inr (rw (p, s) refl, omega (arith, v.order, v.bounded), l))
    where
      empty_or_flying :
          not (w.queue.seq (cell k w.queue.head) == add64 w.queue.head 1) ≡ true
          → (w.queue.head ≡ w.queue.tail) ⊎ (w.flying w.queue.head ≡ true)
      empty_or_flying n = elim (Bool-cases (ltb w.queue.head w.queue.tail)) [
        | inr l ↦ inl (omega (arith, v.order, le-of-ltb-false w.queue.head w.queue.tail l))
        | inl l ↦ elim (Bool-cases (w.flying w.queue.head)) [
          | inl f ↦ inr f
          | inr f ↦ absurd (
              ne-of-== (w.queue.seq (cell k w.queue.head)) (add64 w.queue.head 1)
                (ground (arith, n))
                (omega (
                  arith,
                  (v.filled w.queue.head (omega arith) (lt-of-ltb w.queue.head w.queue.tail l) f).0,
                  v.order,
                  v.bounded,
                )))
        ]
      ]

  full_seq :
      {w : World}
      → Holds k w
      → w.queue.tail ≡ w.queue.head + 2 ^ k
      → w.queue.seq (cell k w.queue.tail) < w.queue.tail
  full_seq {w} v e = elim (Bool-cases (w.flying w.queue.head)) [
    | inl f ↦ omega (arith, e, same, v.waiting w.queue.head f)
    | inr f ↦ omega (arith, e, same, (v.filled w.queue.head (omega arith) (omega arith) f).0)
  ]
    where
      same : w.queue.seq (cell k w.queue.tail) ≡ w.queue.seq (cell k w.queue.head)
      same = ap w.queue.seq (ap (cell k) e ∙ cell_round k w.queue.head)

  -- A producer that reads the tail as it is claims it if the queue has room, and finds it full if the
  -- positions from the head to the tail are as many as the capacity.
  pub attempt-lem :
      {w : World}
      → Holds k w
      → ((w.queue.tail < w.queue.head + 2 ^ k) × (attempt k w.queue w.queue.tail ≡ claims))
        ⊎ ((w.queue.tail ≡ w.queue.head + 2 ^ k) × (attempt k w.queue w.queue.tail ≡ full))
  unfolding attempt
  attempt-lem {w} v = elim (Bool-cases (ltb w.queue.tail (w.queue.head + 2 ^ k))) [
    | inl l ↦ inl (
      lt-of-ltb w.queue.tail (w.queue.head + 2 ^ k) l,
      rw
          (
            v.vacant w.queue.tail (omega arith) (lt-of-ltb w.queue.tail (w.queue.head + 2 ^ k) l),
            ==_self w.queue.tail,
          )
          refl,
    )
    | inr l ↦
        let e : w.queue.tail ≡ w.queue.head + 2 ^ k =
          omega (arith, v.room, le-of-ltb-false w.queue.tail (w.queue.head + 2 ^ k) l) in
        inr (e, ground (arith, full_seq v e, v.bounded))
  ]

  -- `pop` answers the payload of the position at the head, and takes it; or nothing, if no position is
  -- claimed from the head on, or the producer of the one at the head has not filled its cell. This
  -- holds in any interleaving with fewer than 2^62 pushes, for a capacity of at least 2.
  pub Reach-pop :
      {w : World}
      → Reach k w
      → (((pop k w.queue).1 ≡ none)
          × ((w.queue.head ≡ w.queue.tail) ⊎ (w.flying w.queue.head ≡ true)))
        ⊎ (((pop k w.queue).1 ≡ some (w.sent w.queue.head))
            × ((pop k w.queue).0.head ≡ w.queue.head + 1)
            × (w.queue.head < w.queue.tail))
  Reach-pop r = pop-lem (Reach-Holds r)

  -- A producer that reads the tail as it is claims it if the queue has room, and finds it full if the
  -- positions from the head to the tail are as many as the capacity. This holds in any interleaving
  -- with fewer than 2^62 pushes, for a capacity of at least 2.
  pub Reach-attempt :
      {w : World}
      → Reach k w
      → ((w.queue.tail < w.queue.head + 2 ^ k) × (attempt k w.queue w.queue.tail ≡ claims))
        ⊎ ((w.queue.tail ≡ w.queue.head + 2 ^ k) × (attempt k w.queue w.queue.tail ≡ full))
  Reach-attempt r = attempt-lem (Reach-Holds r)
