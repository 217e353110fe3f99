-- ===== src/Slab/Ownership.antt =====
-- Who holds a slot. Descriptors are plain values; the pool is sound as long as each one that was
-- acquired is released once, which the steps below say.
use r2n.Common.{
  ℕ, suc, zero, ◌+◌, ◌%◌, ◌^◌, ◌≤◌, ◌<◌, ◌≡◌, refl, ap, ◌∙◌, ◌&&◌, Option, none, some, List, [],
  ◌∷◌, ◌++◌, arith, length, get_or, ltb, leb, if◌then◌else◌, count, count-append, length-append,
  length-set, length-replicate,
}
use native.Mathlib.Nat.{mod-eq_of_lt}
use r2n.Slab.{
  ArrayQueue, Pops, PacketSlab, PacketDesc, fill, new, describe, acquire, release, available,
  with_slot_mut, get_slot_slice,
}

module _ (queues : ArrayQueue) where
  open queues use {Queue, contents, capacity}

  abbrev in_range : ℕ → ℕ → ℕ → ℕ
  in_range k index n = if leb index k && ltb k (index + n) then 1 else 0

  abbrev Filled : ℕ → ℕ → Queue → Queue → Type 0
  Filled n index q r =
      (capacity r ≡ capacity q)
      × (length (contents r) ≡ length (contents q) + n)
      × ((k : ℕ) → count k (contents r) ≡ count k (contents q) + in_range k index n)

  fill-Filled :
      (n index : ℕ) (q : Queue)
      → index + n ≤ 2 ^ 32
      → length (contents q) + n ≤ capacity q
      → Filled n index q (fill queues n index q)
  unfolding fill
  fill-Filled zero index q small room = (refl, omega arith, λ k. ground arith)
  fill-Filled (suc n) index q small room =
      let (c, cap) = queues.push_room (index % 2 ^ 32) q (omega arith) in
      let e : index % 2 ^ 32 ≡ index = mod-eq_of_lt (omega arith) in
      let l = length-append (contents q) (index % 2 ^ 32 ∷ []) in
      let (cap', len', counts) =
        fill-Filled n (suc index) (queues.push (index % 2 ^ 32) q) (omega arith)
          (omega (arith, ap length c, l, cap)) in
      (
        cap' ∙ cap,
        omega (arith, len', ap length c, l),
        λ k.
            ground (
              arith,
              counts k,
              ap (count k) c,
              count-append k (contents q) (index % 2 ^ 32 ∷ []),
              e,
            ),
      )

  -- The pool, and the slots of the descriptors that are in use.
  pub record Held : Type 0 where
    pub slab : PacketSlab queues
    pub out : List ℕ

  -- Acquiring a descriptor, writing through one, and releasing one that is in use.
  pub data Step : Held → Held → Type 0 where
    acquires :
        (s : Held) (desc : PacketDesc) (t : PacketSlab queues)
        → acquire queues s.slab ≡ some (desc, t)
        → Step s (record { slab = t; out = desc.slot ∷ s.out })
    edits :
        (s : Held) (desc : PacketDesc) (func : List ℕ → ℕ × List ℕ) (r : ℕ) (t : PacketSlab queues)
        → with_slot_mut queues desc func s.slab ≡ some (r, t)
        → Step s (record s { slab = t })
    releases :
        (s : Held) (desc : PacketDesc) (front back : List ℕ)
        → s.out ≡ front ++ (desc.slot ∷ back)
        → Step s (record { slab = release queues desc s.slab; out = front ++ back })

  pub data Reach (s : Held) : Held → Type 0 where
    here : Reach s s
    next : {t u : Held} → Reach s t → Step t u → Reach s u

  -- Each of the `n` slots is free or held, once, and there are no others.
  pub record IsOwned (n : ℕ) (s : Held) : Type 0 where
    pub exclusive :
        (k : ℕ) → count k (contents s.slab.free) + count k s.out ≡ (if ltb k n then 1 else 0)
    pub total : length (contents s.slab.free) + length s.out ≡ n
    pub room : capacity s.slab.free ≡ n
    pub frames : length s.slab.slots ≡ n

  new-IsOwned :
      (frame_cap n headroom : ℕ)
      → n ≤ 2 ^ 32
      → IsOwned n (record { slab = new queues frame_cap n headroom; out = [] })
  unfolding new
  new-IsOwned frame_cap n headroom small =
      let (empty, cap) = queues.new_empty n in
      let (cap', len, counts) =
        fill-Filled n 0 (queues.new n) (omega arith) (omega (arith, ap length empty, cap)) in
      record {
        exclusive = λ k. ground (arith, counts k, ap (count k) empty);
        total = omega (arith, len, ap length empty);
        room = cap' ∙ cap;
        frames = length-replicate n _;
      }

  acquire_taken :
      (s t : PacketSlab queues) (desc : PacketDesc)
      → acquire queues s ≡ some (desc, t)
      → (contents s.free ≡ desc.slot ∷ contents t.free)
        × (capacity t.free ≡ capacity s.free)
        × (t.slots ≡ s.slots)
  unfolding acquire
  acquire_taken s t desc e = go (contents s.free) (queues.pop s.free) (queues.pop_front s.free) e
    where
      go :
          (xs : List ℕ) (r : Option (ℕ × Queue))
          → Pops contents capacity s.free xs r
          → describe queues s r ≡ some (desc, t)
          → (xs ≡ desc.slot ∷ contents t.free)
            × (capacity t.free ≡ capacity s.free)
            × (t.slots ≡ s.slots)
      go [] r p d = ground arith
      go (x ∷ xs) r p d = let (rest, e', c, cap) = p in ground arith

  -- Acquiring fails only while every slot is held.
  pub acquire-eq-none :
      (n : ℕ) (s : Held) → IsOwned n s → acquire queues s.slab ≡ none → length s.out ≡ n
  unfolding acquire
  acquire-eq-none n s v e =
      go (contents s.slab.free) (queues.pop s.slab.free) refl (queues.pop_front s.slab.free) e
    where
      go :
          (xs : List ℕ) (r : Option (ℕ × Queue))
          → contents s.slab.free ≡ xs
          → Pops contents capacity s.slab.free xs r
          → describe queues s.slab r ≡ none
          → length s.out ≡ n
      go [] r c p d = omega (arith, v.total, ap length c)
      go (x ∷ xs) r c p d = let (rest, e', _, _) = p in ground arith

  release-IsOwned :
      (n : ℕ) (s : Held) (desc : PacketDesc) (front back : List ℕ)
      → s.out ≡ front ++ (desc.slot ∷ back)
      → IsOwned n s
      → IsOwned n (record { slab = release queues desc s.slab; out = front ++ back })
  unfolding release
  release-IsOwned n s desc front back e v =
      let held = length-append front (desc.slot ∷ back) in
      let (c, cap) =
        queues.push_room desc.slot s.slab.free
          (omega (arith, v.total, v.room, ap length e, held)) in
      record {
        exclusive = λ k. omega (
          arith,
          v.exclusive k,
          ap (count k) c,
          ap (count k) e,
          count-append k (contents s.slab.free) (desc.slot ∷ []),
          count-append k front (desc.slot ∷ back),
          count-append k front back,
        );
        total = omega (
          arith,
          v.total,
          ap length c,
          ap length e,
          held,
          length-append front back,
          length-append (contents s.slab.free) (desc.slot ∷ []),
        );
        room = cap ∙ v.room;
        frames = v.frames;
      }

  edit-IsOwned :
      (n : ℕ) (s : Held) (desc : PacketDesc) (func : List ℕ → ℕ × List ℕ) (r : ℕ)
      (t : PacketSlab queues)
      → with_slot_mut queues desc func s.slab ≡ some (r, t)
      → IsOwned n s
      → IsOwned n (record s { slab = t })
  unfolding with_slot_mut
  edit-IsOwned n s desc func r t e v =
      let frame = (func (get_or s.slab.slots desc.slot [])).1 in
      let same : t.free ≡ s.slab.free = ground arith in
      let size : length t.slots ≡ length s.slab.slots =
        ground (arith, length-set s.slab.slots desc.slot frame) in
      record {
        exclusive = λ k. ground (arith, v.exclusive k);
        total = ground arith;
        room = ground arith;
        frames = size ∙ v.frames;
      }

  Step-IsOwned : (n : ℕ) {s t : Held} → Step s t → IsOwned n s → IsOwned n t
  Step-IsOwned n (acquires s desc t e) v =
      let (c, cap, same) = acquire_taken s.slab t desc e in
      record {
        exclusive = λ k. omega (arith, v.exclusive k, ap (count k) c);
        total = omega (arith, v.total, ap length c);
        room = cap ∙ v.room;
        frames = ap length same ∙ v.frames;
      }
  Step-IsOwned n (edits s desc func r t e) v = edit-IsOwned n s desc func r t e v
  Step-IsOwned n (releases s desc front back e) v = release-IsOwned n s desc front back e v

  Reach-IsOwned : (n : ℕ) {s t : Held} → IsOwned n s → Reach s t → IsOwned n t
  Reach-IsOwned n v here = v
  Reach-IsOwned n v (next r st) = Step-IsOwned n st (Reach-IsOwned n v r)

  -- Of a new pool of `n` slots, `n` at most 2^32: however its descriptors are acquired, written
  -- through and released, every slot is either free or held by exactly one descriptor, and no other
  -- slot ever appears; so free and held slots add up to `n`.
  pub Reach-new_owned :
      (frame_cap n headroom : ℕ) (t : Held)
      → n ≤ 2 ^ 32
      → Reach (record { slab = new queues frame_cap n headroom; out = [] }) t
      → ((k : ℕ) → count k (contents t.slab.free) + count k t.out ≡ (if ltb k n then 1 else 0))
        × (available queues t.slab + length t.out ≡ n)
  unfolding available
  Reach-new_owned frame_cap n headroom t small r =
      let v = Reach-IsOwned n (new-IsOwned frame_cap n headroom small) r in (v.exclusive, v.total)

  -- In any such state a held descriptor's buffer is there: reading it does not panic, and acquiring
  -- fails only when all slots are held.
  pub Reach-new_usable :
      (frame_cap n headroom : ℕ) (t : Held) (desc : PacketDesc)
      → n ≤ 2 ^ 32
      → Reach (record { slab = new queues frame_cap n headroom; out = [] }) t
      → (0 < count desc.slot t.out
          → get_slot_slice queues desc t.slab ≡ some (get_or t.slab.slots desc.slot []))
        × (acquire queues t.slab ≡ none → length t.out ≡ n)
  unfolding get_slot_slice
  Reach-new_usable frame_cap n headroom t desc small r =
      let v = Reach-IsOwned n (new-IsOwned frame_cap n headroom small) r in
      (λ held. ground (arith, v.exclusive desc.slot, v.frames), acquire-eq-none n t v)
