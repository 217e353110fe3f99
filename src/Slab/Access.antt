-- ===== src/Slab/Access.antt =====
-- What is written through a descriptor is read back through it.
use r2n.Common.{
  ℕ, zero, suc, ◌<◌, ◌≡◌, refl, ap, Option, none, some, List, [], ◌∷◌, arith, length, set, get_or,
  ltb, ltb→lt, length-set, Bool-cases, inl, inr,
}
use r2n.Slab.{ArrayQueue, PacketSlab, PacketDesc, get_slot_slice, with_slot_mut}

get_or-set :
    (xs : List (List ℕ)) (i : ℕ) (v : List ℕ) → i < length xs → get_or (set xs i v) i [] ≡ v
get_or-set [] i v h = ground arith
get_or-set (x ∷ xs) zero v h = refl
get_or-set (x ∷ xs) (suc i) v h = get_or-set xs i v (omega (arith, h))

module _ (queues : ArrayQueue) where
  -- Only the slot of a descriptor says what it gives access to.
  pub get_slot_slice_slot :
      (d e : PacketDesc) (s : PacketSlab queues)
      → d.slot ≡ e.slot
      → get_slot_slice queues d s ≡ get_slot_slice queues e s
  unfolding get_slot_slice
  get_slot_slice_slot d e s same = rw same refl

  -- An access to a slot that exists.
  pub with_slot_mut-access :
      {R : Type 0} (desc : PacketDesc) (func : List ℕ → R × List ℕ) (s : PacketSlab queues)
      (slot : List ℕ)
      → get_slot_slice queues desc s ≡ some slot
      → (t : PacketSlab queues) × (with_slot_mut queues desc func s ≡ some ((func slot).0, t))
        × (t.free ≡ s.free)
        × ((d : PacketDesc) → d.slot ≡ desc.slot → get_slot_slice queues d t ≡ some (func slot).1)
  unfolding get_slot_slice with_slot_mut
  with_slot_mut-access desc func s slot e = elim (Bool-cases (ltb desc.slot (length s.slots))) [
    | inr b ↦ let bad : ◌≡◌ {A = Option (List ℕ)} none (some slot) = rw b at e in cc
    | inl b ↦
        let got : ◌≡◌ {A = Option (List ℕ)} (some (get_or s.slots desc.slot [])) (some slot) =
          rw b at e in
        let found : get_or s.slots desc.slot [] ≡ slot = cc in
        let inside : desc.slot < length s.slots = ltb→lt _ _ b in
        (
          record s { slots = set s.slots desc.slot (func slot).1 },
          rw (b, found) refl,
          refl,
          λ d same.
              rw (same, length-set s.slots desc.slot (func slot).1, b)
                (ap (λ (x : List ℕ). some x) (get_or-set s.slots desc.slot (func slot).1 inside)),
        )
  ]
