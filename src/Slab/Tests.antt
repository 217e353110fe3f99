-- ===== src/Slab/Tests.antt =====
-- A pool over a queue that is a list, and the theorems at concrete inputs.
use r2n.Common.{
  ℕ, ◌+◌, ◌≤◌, ◌<◌, ◌≡◌, refl, Option, none, some, List, [], ◌∷◌, ◌++◌, arith, length, ltb,
  if◌then◌else◌, count, replicate,
}
use r2n.Slab.{
  ArrayQueue, Pops, PacketDesc, bulk, fill, new, acquire, release, available, get_slot_slice,
  default_pool,
}
use r2n.Slab.Ownership.{Held, Reach, here, next, acquires, Reach-new_owned, Reach-new_usable}

abbrev pub push_list : ℕ → List ℕ × ℕ → List ℕ × ℕ
push_list x (xs, n) = (if ltb (length xs) n then xs ++ (x ∷ []) else xs, n)

abbrev pub pop_list : List ℕ × ℕ → Option (ℕ × (List ℕ × ℕ))
pop_list ([], n) = none
pop_list (x ∷ xs, n) = some (x, (xs, n))

pub push_list_room :
    (x : ℕ) (q : List ℕ × ℕ)
    → length q.0 < q.1
    → ((push_list x q).0 ≡ q.0 ++ (x ∷ [])) × ((push_list x q).1 ≡ q.1)
push_list_room x (xs, n) h = ground arith

pub push_list_full : (x : ℕ) (q : List ℕ × ℕ) → q.1 ≤ length q.0 → push_list x q ≡ q
push_list_full x (xs, n) h = ground arith

pub pop_list-Pops :
    (q : List ℕ × ℕ) → Pops {Q = List ℕ × ℕ} (λ r. r.0) (λ r. r.1) q q.0 (pop_list q)
pop_list-Pops ([], n) = refl
pop_list-Pops (x ∷ xs, n) = ((xs, n), refl, refl, refl)

abbrev pub list_queue : ArrayQueue
list_queue = record {
  Queue = List ℕ × ℕ;
  new = λ n. ([], n);
  push = push_list;
  pop = pop_list;
  contents = λ q. q.0;
  capacity = λ q. q.1;
  new_empty = λ n. (refl, refl);
  push_room = push_list_room;
  push_full = push_list_full;
  pop_front = pop_list-Pops;
}

abbrev first_slot : PacketDesc
first_slot = record { slot = 0; data_offset = 0; payload_offset = 64; len = 0; class = bulk }

abbrev pool : Held list_queue
pool = record { slab = new list_queue 4 2 64; out = [] }

abbrev one_out : Held list_queue
one_out = record {
  slab = record { slots = replicate 2 (replicate 4 0); free = (1 ∷ [], 2); headroom = 64 };
  out = 0 ∷ [];
}

one_out-Reach : Reach list_queue pool one_out
unfolding new fill acquire
one_out-Reach = next here (acquires pool first_slot one_out.slab refl)

released_twice : available list_queue (release list_queue first_slot one_out.slab) ≡ 2
unfolding available release
released_twice = refl

Reach-new_owned_example :
    ((k : ℕ) → count k (1 ∷ []) + count k (0 ∷ []) ≡ (if ltb k 2 then 1 else 0))
    × (available list_queue one_out.slab + 1 ≡ 2)
Reach-new_owned_example = Reach-new_owned list_queue 4 2 64 one_out (omega arith) one_out-Reach

Reach-new_usable_example :
    (0 < 1 → get_slot_slice list_queue first_slot one_out.slab ≡ some (replicate 4 0))
    × (acquire list_queue one_out.slab ≡ none → ◌≡◌ {A = ℕ} 1 2)
Reach-new_usable_example =
    Reach-new_usable list_queue 4 2 64 one_out first_slot (omega arith) one_out-Reach

-- The pool that the data plane and the supernode use, with 128 bytes of headroom.
default_headroom_kept : (default_pool list_queue 4).headroom ≡ 128
unfolding default_pool new
default_headroom_kept = refl
