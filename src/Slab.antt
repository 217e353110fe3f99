-- ===== src/Slab.antt =====
-- crates/r2n-slab/src/lib.rs: the pool of packet buffers. Its free list, the ArrayQueue of the
-- crossbeam crate, is the parameter `ArrayQueue`.
pub mod Ownership
pub mod Access
pub mod Tests
use r2n.Common.{
  ℕ, suc, zero, ◌+◌, ◌%◌, ◌^◌, ◌≤◌, ◌<◌, ◌≡◌, Bool, true, false, Option, none, some, List, [], ◌∷◌,
  ◌++◌, length, replicate, set, get_or, ltb, if◌then◌else◌,
}

abbrev pub default_frame_cap : ℕ
default_frame_cap = 1600

abbrev pub default_headroom : ℕ
default_headroom = 128

pub data TrafficClass : Type 0 where
  control realtime interactive bulk : TrafficClass

pub record PacketDesc : Type 0 where
  pub slot : ℕ
  pub data_offset : ℕ
  pub payload_offset : ℕ
  pub len : ℕ
  pub class : TrafficClass

abbrev pub Pops {ℓ} : {Q : Type ℓ} → (Q → List ℕ) → (Q → ℕ) → Q → List ℕ → Option (ℕ × Q) → Type ℓ
Pops contents capacity q [] r = r ≡ none
Pops {Q} contents capacity q (x ∷ xs) r =
    (rest : Q) × (r ≡ some (x, rest)) × (contents rest ≡ xs) × (capacity rest ≡ capacity q)

-- A bounded queue of slots, seen through its contents, front first. Pushing to a full queue is
-- refused and changes nothing; the slab ignores the refusal.
pub record ArrayQueue : Type 1 where
  pub Queue : Type 0
  pub new : ℕ → Queue
  pub push : ℕ → Queue → Queue
  pub pop : Queue → Option (ℕ × Queue)
  pub contents : Queue → List ℕ
  pub capacity : Queue → ℕ
  pub new_empty : (n : ℕ) → (contents (new n) ≡ []) × (capacity (new n) ≡ n)
  pub push_room :
      (x : ℕ) (q : Queue)
      → length (contents q) < capacity q
      → (contents (push x q) ≡ contents q ++ (x ∷ [])) × (capacity (push x q) ≡ capacity q)
  pub push_full : (x : ℕ) (q : Queue) → capacity q ≤ length (contents q) → push x q ≡ q
  pub pop_front : (q : Queue) → Pops contents capacity q (contents q) (pop q)

module _ (queues : ArrayQueue) where
  open queues use {Queue}

  pub record PacketSlab : Type 0 where
    pub slots : List (List ℕ)
    pub free : Queue
    pub headroom : ℕ

  -- `for index in 0..capacity { free.push(index as u32) }`, from `index` on, with `n` to go.
  pub fill : ℕ → ℕ → Queue → Queue
  fill zero index q = q
  fill (suc n) index q = fill n (suc index) (queues.push (index % 2 ^ 32) q)

  -- `frame_cap` is the type's constant FRAME_CAP.
  unfoldable pub new : ℕ → ℕ → ℕ → PacketSlab
  new frame_cap capacity headroom = record {
    slots = replicate capacity (replicate frame_cap 0);
    free = fill capacity 0 (queues.new capacity);
    headroom = headroom;
  }

  pub default_pool : ℕ → PacketSlab
  default_pool capacity = new default_frame_cap capacity default_headroom

  abbrev pub describe : PacketSlab → Option (ℕ × Queue) → Option (PacketDesc × PacketSlab)
  describe s none = none
  describe s (some (slot, rest)) = some (
    record { slot = slot; data_offset = 0; payload_offset = s.headroom; len = 0; class = bulk },
    record s { free = rest },
  )

  unfoldable pub acquire : PacketSlab → Option (PacketDesc × PacketSlab)
  acquire s = describe s (queues.pop s.free)

  unfoldable pub release : PacketDesc → PacketSlab → PacketSlab
  release desc s = record s { free = queues.push desc.slot s.free }

  pub available : PacketSlab → ℕ
  available s = length (queues.contents s.free)

  -- `none` is the panic of an index out of bounds.
  unfoldable pub get_slot_slice : PacketDesc → PacketSlab → Option (List ℕ)
  get_slot_slice desc s =
      if ltb desc.slot (length s.slots) then some (get_or s.slots desc.slot []) else none

  pub with_slot_mut :
      {R : Type 0} → PacketDesc → (List ℕ → R × List ℕ) → PacketSlab → Option (R × PacketSlab)
  with_slot_mut desc func s =
      if ltb desc.slot (length s.slots)
      then (let (r, frame) = func (get_or s.slots desc.slot []) in
          some (r, record s { slots = set s.slots desc.slot frame }))
      else none
