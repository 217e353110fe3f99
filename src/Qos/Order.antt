-- ===== src/Qos/Order.antt =====
-- The scheduler as one queue, and what a push may drop.
use r2n.Common.{
  ℕ, ◌-◌, ◌≤◌, ◌≡◌, refl, Option, none, some, List, [], ◌∷◌, ◌++◌, arith, length, leb,
  length-append, Bool-cases, leb→le, leb→lt, inl, inr, take, length-take, max, ◌≢◌,
}
use r2n.Qos.{
  TrafficClass, control, realtime, interactive, bulk, QosScheduler, new, push, pop, pop_lists,
  pop_front,
}

-- A push, or a pop (of nothing, if nothing is queued).
pub data Use {ℓ} (T : Type ℓ) : Type ℓ where
  pushes : TrafficClass → T → Use T
  pops : Use T

module _ {ℓ} {T : Type ℓ} where
  -- All that is queued, by class and then by age.
  abbrev pub to_list : QosScheduler T → List T
  to_list q = q.control_queue ++ (q.realtime_queue ++ (q.interactive_queue ++ q.bulk_queue))

  abbrev pub queue : TrafficClass → QosScheduler T → List T
  queue control q = q.control_queue
  queue realtime q = q.realtime_queue
  queue interactive q = q.interactive_queue
  queue bulk q = q.bulk_queue

  abbrev pub PopsFront : List T → ℕ → Option (T × QosScheduler T) → Type ℓ
  PopsFront [] n r = r ≡ none
  PopsFront (x ∷ xs) n r =
      (q : QosScheduler T) × (r ≡ some (x, q)) × (to_list q ≡ xs) × (q.bulk_capacity ≡ n)

  -- `pop` fails exactly on the empty scheduler; otherwise it takes the oldest item of the most
  -- urgent class that has one, and leaves the rest in its order.
  pub pop-PopsFront : (q : QosScheduler T) → PopsFront (to_list q) q.bulk_capacity (pop q)
  unfolding pop
  pop-PopsFront q =
      go q.control_queue q.realtime_queue q.interactive_queue q.bulk_queue q.bulk_capacity
    where
      go : (c r i b : List T) (n : ℕ) → PopsFront (c ++ (r ++ (i ++ b))) n (pop_lists c r i b n)
      go [] [] [] [] n = refl
      go [] [] [] (x ∷ b) n = (_, refl, refl, refl)
      go [] [] (x ∷ i) b n = (_, refl, refl, refl)
      go [] (x ∷ r) i b n = (_, refl, refl, refl)
      go (x ∷ c) r i b n = (_, refl, refl, refl)

  -- A push appends to its class's queue and touches no other. It drops an item only from the bulk
  -- class, only the oldest, and only when that queue has reached its capacity.
  pub push_split :
      (c : TrafficClass) (item : T) (q : QosScheduler T)
      → (dropped kept : List T) × (queue c q ≡ dropped ++ kept)
        × (queue c (push c item q) ≡ kept ++ (item ∷ []))
        × (length dropped ≤ 1)
        × (dropped ≢ [] → (c ≡ bulk) × (q.bulk_capacity ≤ length q.bulk_queue))
        × ((d : TrafficClass) → d ≢ c → queue d (push c item q) ≡ queue d q)
  unfolding push
  push_split control item q =
      ([], q.control_queue, refl, refl, omega arith, λ h. absurd (h refl), λ d h. ground arith)
  push_split realtime item q =
      ([], q.realtime_queue, refl, refl, omega arith, λ h. absurd (h refl), λ d h. ground arith)
  push_split interactive item q =
      ([], q.interactive_queue, refl, refl, omega arith, λ h. absurd (h refl), λ d h. ground arith)
  push_split bulk item q = elim (Bool-cases (leb q.bulk_capacity (length q.bulk_queue))) [
    | inl full ↦ (
      take 1 q.bulk_queue,
      pop_front q.bulk_queue,
      front q.bulk_queue,
      rw full,
      omega (arith, length-take 1 q.bulk_queue),
      λ _. (refl, leb→le _ _ full),
      λ d h. ground arith,
    )
    | inr space ↦
        ([], q.bulk_queue, refl, rw space, omega arith, λ h. absurd (h refl), λ d h. ground arith)
  ]
    where
      front : (xs : List T) → xs ≡ take 1 xs ++ pop_front xs
      front [] = refl
      front (x ∷ xs) = refl

  abbrev after_pop : QosScheduler T → Option (T × QosScheduler T) → QosScheduler T
  after_pop q none = q
  after_pop q (some (x, r)) = r

  pub run : QosScheduler T → List (Use T) → QosScheduler T
  run q [] = q
  run q (pushes c item ∷ us) = run (push c item q) us
  run q (pops ∷ us) = run (after_pop q (pop q)) us

  record Bounded (n : ℕ) (q : QosScheduler T) : Type 0 where
    capacity : q.bulk_capacity ≡ n
    within : length q.bulk_queue ≤ max n 1

  push-Bounded :
      (n : ℕ) (c : TrafficClass) (item : T) (q : QosScheduler T)
      → Bounded n q
      → Bounded n (push c item q)
  unfolding push
  push-Bounded n control item q v = record { capacity = v.capacity; within = v.within }
  push-Bounded n realtime item q v = record { capacity = v.capacity; within = v.within }
  push-Bounded n interactive item q v = record { capacity = v.capacity; within = v.within }
  push-Bounded n bulk item q v = record {
    capacity = v.capacity;
    within = elim (Bool-cases (leb q.bulk_capacity (length q.bulk_queue))) [
      | inl full ↦ rw full (
          omega (
            arith,
            length-append (pop_front q.bulk_queue) (item ∷ []),
            length-pop_front q.bulk_queue,
            v.within,
          ))
      | inr space ↦
          rw space
            (omega (arith, length-append q.bulk_queue (item ∷ []), leb→lt _ _ space, v.capacity))
    ];
  }
    where
      length-pop_front : (xs : List T) → length (pop_front xs) ≡ length xs - 1
      length-pop_front [] = omega arith
      length-pop_front (x ∷ xs) = omega arith

  pop-Bounded : (n : ℕ) (q : QosScheduler T) → Bounded n q → Bounded n (after_pop q (pop q))
  unfolding pop
  pop-Bounded n q v =
      go q.control_queue q.realtime_queue q.interactive_queue q.bulk_queue v.capacity v.within
    where
      go :
          (c r i b : List T)
          → q.bulk_capacity ≡ n
          → length b ≤ max n 1
          → Bounded n (after_pop q (pop_lists c r i b q.bulk_capacity))
      go [] [] [] [] e h = v
      go [] [] [] (x ∷ b) e h = record { capacity = e; within = omega arith }
      go [] [] (x ∷ i) b e h = record { capacity = e; within = h }
      go [] (x ∷ r) i b e h = record { capacity = e; within = h }
      go (x ∷ c) r i b e h = record { capacity = e; within = h }

  run-Bounded :
      (n : ℕ) (q : QosScheduler T) (us : List (Use T)) → Bounded n q → Bounded n (run q us)
  unfolding run
  run-Bounded n q [] v = v
  run-Bounded n q (pushes c item ∷ us) v =
      run-Bounded n (push c item q) us (push-Bounded n c item q v)
  run-Bounded n q (pops ∷ us) v = run-Bounded n (after_pop q (pop q)) us (pop-Bounded n q v)

  -- However it is used, a scheduler that was made for `n` bulk items never holds more; for one that
  -- was made for none, the bound is one.
  pub run-new_bounded : (n : ℕ) (us : List (Use T)) → length (run (new n) us).bulk_queue ≤ max n 1
  unfolding new
  run-new_bounded n us =
      (run-Bounded n (new n) us (record { capacity = refl; within = omega arith })).within
