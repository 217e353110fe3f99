-- ===== src/Room/Allocating.antt =====
-- What an allocation from the pool gives, and when there is nothing to give.
use r2n.Common.{
  ℕ, zero, suc, ◌+◌, ◌-◌, ◌*◌, ◌^◌, ◌≤◌, ◌<◌, ◌≡◌, ◌⊎◌, refl, Bool, true, false, not, ◌&&◌, none,
  some, List, [], ◌∷◌, ◌++◌, arith, ok, err, All, any, ltb, Bool-cases, Option-cases, inl, inr,
  lt→ltb, ◌==◌,
}
use r2n.Common.Maps.{lookup, insert, values}
use r2n.Room.Nets.{Ipv4Nets}
use r2n.Room.Errors.{address_pool_exhausted}
use r2n.Room.Subnets.{
  RoomAddressPool, range_from, preferred_indices, checked_shl_one, candidate_indices, is_free,
  ipv4_nets_overlap, try_indices, allocate_with_avoidance,
}
use r2n.Room.Blocks.{IsBlock, candidate_indices-lt, candidate-IsBlock}
use r2n.Room.Partition.{IsPartition, size_scales, allocate_fresh, allocate-IsPartition}

All-left {ℓ κ} : {A : Type ℓ} (P : A → Type κ) (xs ys : List A) → All P (xs ++ ys) → All P xs
All-left P [] ys h = tt
All-left P (x ∷ xs) ys h = (h.0, All-left P xs ys h.1)

All-right {ℓ κ} : {A : Type ℓ} (P : A → Type κ) (xs ys : List A) → All P (xs ++ ys) → All P ys
All-right P [] ys h = h
All-right P (x ∷ xs) ys h = All-right P xs ys h.1

-- What holds of the numbers of a range holds of each of them.
All-range_from :
    (P : ℕ → Type 0) (first n i : ℕ) → All P (range_from first n) → first ≤ i → i < first + n → P i
unfolding range_from
All-range_from P first zero i h lo hi = let bad : ⊥ = omega arith in elim bad [ ]
All-range_from P first (suc n) i h lo hi = elim (Bool-cases (ltb first i)) [
  | inl less ↦ All-range_from P (suc first) n i h.1 (ground arith) (omega arith)
  | inr at ↦ let same : first ≡ i = ground arith in rw (← same) h.0
]

All-preferred : (P : ℕ → Type 0) → All P preferred_indices → (i : ℕ) → i < 256 → P i
All-preferred P h i lt =
    let middle = All-right P (range_from 200 56) _ h in
    let late = All-right P (range_from 4 27) _ middle in
    let few = All-right P (range_from 32 168) _ late in
    elim (Bool-cases (ltb i 200)) [
      | inr high ↦
          All-range_from P 200 56 i (All-left P (range_from 200 56) _ h) (ground arith)
            (omega arith)
      | inl low ↦ elim (Bool-cases (ltb 31 i)) [
        | inl above ↦
            All-range_from P 32 168 i (All-left P (range_from 32 168) _ late) (ground arith)
              (ground arith)
        | inr below ↦ elim (Bool-cases (ltb 3 i && ltb i 31)) [
          | inl between ↦
              All-range_from P 4 27 i (All-left P (range_from 4 27) _ middle) (ground arith)
                (ground arith)
          | inr rest ↦ first_ones i (ground arith) few
        ]
      ]
    ]
  where
    first_ones :
        (i : ℕ)
        → (i ≡ 0) ⊎ (i ≡ 1) ⊎ (i ≡ 2) ⊎ (i ≡ 3) ⊎ (i ≡ 31)
        → All P (0 ∷ 1 ∷ 2 ∷ 3 ∷ 31 ∷ [])
        → P i
    first_ones i (inl e) few = rw e few.0
    first_ones i (inr (inl e)) few = rw e few.1.0
    first_ones i (inr (inr (inl e))) few = rw e few.1.1.0
    first_ones i (inr (inr (inr (inl e)))) few = rw e few.1.1.1.0
    first_ones i (inr (inr (inr (inr e)))) few = rw e few.1.1.1.1.0

module _ (nets : Ipv4Nets) where
  open nets use {Ipv4Net, network, prefix_len, net_eq}

  -- Every index is a candidate.
  candidate_indices-All :
      (pool : Ipv4Net) (len count : ℕ) (P : ℕ → Type 0)
      → All P (candidate_indices nets pool len count)
      → (i : ℕ) → i < count
      → P i
  unfolding candidate_indices
  candidate_indices-All pool len count P h i lt =
      let test =
        (network pool == 3232235520)
        && ((prefix_len pool == 16) && ((len == 24) && (count == 256))) in
      elim (Bool-cases test) [
        | inl e ↦ All-preferred P (rw e at h) i (ground arith)
        | inr e ↦ All-range_from P 0 count i (rw e at h) (omega arith) (omega arith)
      ]

  -- The subnet of an index belongs to a room already, or meets a network to avoid.
  abbrev pub IsBlocked : RoomAddressPool nets → List Ipv4Net → ℕ → Type 0
  IsBlocked p avoid i =
      (c : Ipv4Net) × (nets.make (network p.pool + i * 2 ^ (32 - p.room_prefix_len))
          p.room_prefix_len
        ≡ some c)
      × ((any (λ used. net_eq used c) (values p.allocations) ≡ true)
          ⊎ (any (λ blocked. ipv4_nets_overlap nets blocked c) avoid ≡ true))

  not_free : (a b : Bool) → (not a && not b) ≡ false → (a ≡ true) ⊎ (b ≡ true)
  not_free a b h = ground arith

  try_indices_outcome :
      (p : RoomAddressPool nets) (room_id : ℕ) (avoid : List Ipv4Net) (size : ℕ) (indices : List ℕ)
      → prefix_len p.pool ≤ p.room_prefix_len
      → p.room_prefix_len ≤ 30
      → ((i : ℕ)
          → i < 2 ^ (p.room_prefix_len - prefix_len p.pool)
          → i * size ≡ i * 2 ^ (32 - p.room_prefix_len))
      → All (λ i. i < 2 ^ (p.room_prefix_len - prefix_len p.pool)) indices
      → ((net : Ipv4Net) × (q : RoomAddressPool nets) × (try_indices nets p room_id avoid size
              indices
            ≡ ok (net, q)))
        ⊎ ((try_indices nets p room_id avoid size indices ≡ err address_pool_exhausted)
            × All (IsBlocked p avoid) indices)
  unfolding try_indices
  try_indices_outcome p room_id avoid size [] wide small scale lt = inr (refl, tt)
  try_indices_outcome p room_id avoid size (i ∷ is) wide small scale lt =
      let (c, made, block) = candidate-IsBlock nets p.pool p.room_prefix_len i wide small lt.0 in
      elim (Bool-cases (is_free nets p.allocations avoid c)) [
        | inl free ↦ inl (
          c,
          record p { allocations = insert room_id c p.allocations },
          rw (scale i lt.0, made, free) refl,
        )
        | inr taken ↦ elim (try_indices_outcome p room_id avoid size is wide small scale lt.1) [
          | inl (net, q, e) ↦ inl (net, q, rw (scale i lt.0, made, taken) e)
          | inr (e, all) ↦
              inr (rw (scale i lt.0, made, taken) e, ((c, made, not_free _ _ taken), all))
        ]
      ]

  -- From a partitioned pool, an allocation always ends in one of three ways. A room with a subnet
  -- gets it again, whatever is to be avoided now, and the pool is as before. A room without one gets
  -- a subnet of the room size inside the pool that meets no network to avoid, and has it from then
  -- on. Or the room has none and the pool is said to be exhausted, and then every subnet of the room
  -- size belongs to a room or meets a network to avoid.
  pub allocate_with_avoidance_outcome :
      (p : RoomAddressPool nets) (room_id : ℕ) (avoid : List Ipv4Net)
      → IsPartition nets p
      → ((old : Ipv4Net) × (lookup room_id p.allocations ≡ some old)
          × (allocate_with_avoidance nets room_id avoid p ≡ ok (old, p)))
        ⊎ ((lookup room_id p.allocations ≡ none)
            × (net : Ipv4Net) × (q : RoomAddressPool nets) × (allocate_with_avoidance nets room_id
                  avoid p
                ≡ ok (net, q))
            × (lookup room_id q.allocations ≡ some net)
            × IsBlock nets p.pool p.room_prefix_len net
            × (any (λ blocked. ipv4_nets_overlap nets blocked net) avoid ≡ false))
        ⊎ ((lookup room_id p.allocations ≡ none)
            × (allocate_with_avoidance nets room_id avoid p ≡ err address_pool_exhausted)
            × ((i : ℕ) → i < 2 ^ (p.room_prefix_len - prefix_len p.pool) → IsBlocked p avoid i))
  unfolding allocate_with_avoidance
  allocate_with_avoidance_outcome p room_id avoid v =
      let len = p.room_prefix_len - prefix_len p.pool in
      let indices = candidate_indices nets p.pool p.room_prefix_len (2 ^ len) in
      let shift : checked_shl_one len ≡ 2 ^ len =
        rw (lt→ltb len 32 (omega (arith, v.small))) refl in
      elim (Option-cases (lookup room_id p.allocations)) [
        | inr (old, known) ↦ inl (old, known, rw known refl)
        | inl none_yet ↦
            elim (try_indices_outcome p room_id avoid (checked_shl_one (32 - p.room_prefix_len))
              indices v.wide v.small
              (λ i lt. size_scales nets p.room_prefix_len (prefix_len p.pool) i v.wide v.small lt)
              (candidate_indices-lt nets p.pool p.room_prefix_len _)) [
                | inl (net, q, e) ↦
                    let got : allocate_with_avoidance nets room_id avoid p ≡ ok (net, q) =
                      rw (none_yet, shift) e in
                    let (block, free, eq) =
                      allocate_fresh nets p q room_id avoid net v.wide v.small none_yet got in
                    inr (
                      inl (
                        none_yet,
                        net,
                        q,
                        got,
                        (allocate-IsPartition nets p q room_id avoid net v got).1,
                        block,
                        ground arith,
                      ))
                | inr (e, all) ↦ inr (
                    inr (
                      none_yet,
                      rw (none_yet, shift) e,
                      candidate_indices-All p.pool p.room_prefix_len (2 ^ len) (IsBlocked p avoid)
                          all,
                    ))
              ]
      ]
