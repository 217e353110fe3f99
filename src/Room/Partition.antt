-- ===== src/Room/Partition.antt =====
-- Allocations and releases keep the pool a partition into blocks.
use Prim.Native.String.{String}
use r2n.Common.{
  ℕ, zero, suc, ◌-◌, ◌*◌, ◌^◌, ◌≤◌, ◌<◌, ◌≡◌, ◌≢◌, ◌⊎◌, refl, true, false, ◌||◌, Option, none, some,
  List, [], ◌∷◌, arith, Result, ok, err, All, any, ltb, Bool-cases, Option-cases, inl, inr, lt→ltb,
}
use r2n.Common.Maps.{
  lookup, insert, values, lookup-insert, lookup-remove, All-insert, All-remove, All-lookup,
  any-values-lookup,
}
use r2n.Room.Nets.{Ipv4Nets}
use r2n.Room.Errors.{RoomError, invalid_address_pool}
use r2n.Room.Subnets.{
  RoomAddressPool, checked_shl_one, new_pool, new, candidate_indices, is_free, consider,
  try_indices, allocate_with_avoidance, release,
}
use r2n.Room.Blocks.{IsBlock, candidate_indices-lt, candidate-IsBlock, IsBlock-apart}

module _ (nets : Ipv4Nets) where
  open nets use {Ipv4Net, network, broadcast, prefix_len, net_eq, addr}

  -- The pool's parameters are those that `new` lets through; every room has a block of the pool,
  -- and the blocks of two rooms do not meet.
  pub record IsPartition (p : RoomAddressPool nets) : Type 0 where
    pub wide : prefix_len p.pool ≤ p.room_prefix_len
    pub small : p.room_prefix_len ≤ 30
    pub blocks : All (λ e. IsBlock nets p.pool p.room_prefix_len e.1) p.allocations
    pub apart :
        (j k : ℕ) (a b : Ipv4Net)
        → lookup j p.allocations ≡ some a
        → lookup k p.allocations ≡ some b
        → j ≢ k
        → (broadcast a < network b) ⊎ (broadcast b < network a)

  -- What a fresh allocation picks.
  abbrev pub Picks :
      RoomAddressPool nets → ℕ → List Ipv4Net → Ipv4Net → RoomAddressPool nets → Type 0
  Picks p room_id avoid net q =
      IsBlock nets p.pool p.room_prefix_len net
      × (is_free nets p.allocations avoid net ≡ true)
      × (q ≡ record p { allocations = insert room_id net p.allocations })

  consider-ok :
      (p q : RoomAddressPool nets) (room_id : ℕ) (avoid : List Ipv4Net) (c net : Ipv4Net)
      (rest : Result RoomError (Ipv4Net × RoomAddressPool nets))
      → consider nets p room_id avoid (some c) rest ≡ ok (net, q)
      → ((c ≡ net)
          × (is_free nets p.allocations avoid net ≡ true)
          × (q ≡ record p { allocations = insert room_id net p.allocations }))
        ⊎ (rest ≡ ok (net, q))
  consider-ok p q room_id avoid c net rest e =
      elim (Bool-cases (is_free nets p.allocations avoid c)) [
        | inl free ↦
            let won : ◌≡◌ {A = Result RoomError (Ipv4Net × RoomAddressPool nets)}
                (ok (c, record p { allocations = insert room_id c p.allocations })) (ok (net, q)) =
              rw free at e in
            let same : c ≡ net = cc in inl (same, rw (← same) free, cc)
        | inr taken ↦ inr (rw taken at e)
      ]

  -- `scale` says that the subnet size of the code, which is 0 for a prefix of 0, serves as well.
  try_indices-Picks :
      (p q : RoomAddressPool nets) (room_id : ℕ) (avoid : List Ipv4Net) (net : Ipv4Net) (size : ℕ)
      (indices : List ℕ)
      → prefix_len p.pool ≤ p.room_prefix_len
      → p.room_prefix_len ≤ 30
      → ((i : ℕ)
          → i < 2 ^ (p.room_prefix_len - prefix_len p.pool)
          → i * size ≡ i * 2 ^ (32 - p.room_prefix_len))
      → All (λ i. i < 2 ^ (p.room_prefix_len - prefix_len p.pool)) indices
      → try_indices nets p room_id avoid size indices ≡ ok (net, q)
      → Picks p room_id avoid net q
  unfolding try_indices
  try_indices-Picks p q room_id avoid net size [] wide small scale lt e = cc
  try_indices-Picks p q room_id avoid net size (i ∷ is) wide small scale lt e =
      let (c, made, block) = candidate-IsBlock nets p.pool p.room_prefix_len i wide small lt.0 in
      elim (consider-ok p q room_id avoid c net _ (rw (scale i lt.0, made) at e)) [
        | inl (same, free, eq) ↦ (rw (← same) block, free, eq)
        | inr rest ↦ try_indices-Picks p q room_id avoid net size is wide small scale lt.1 rest
      ]

  pub size_scales :
      (len narrow i : ℕ)
      → narrow ≤ len
      → len ≤ 30
      → i < 2 ^ (len - narrow)
      → i * checked_shl_one (32 - len) ≡ i * 2 ^ (32 - len)
  size_scales zero narrow i h small lt =
      let none_left : 0 - narrow ≡ 0 = omega arith in
      let only : 2 ^ (0 - narrow) ≡ 1 = rw none_left in
      let first : i ≡ 0 = omega (arith, lt, only) in rw first (omega arith)
  size_scales (suc len) narrow i h small lt = rw (lt→ltb (32 - suc len) 32 (omega arith))

  pub allocate_fresh :
      (p q : RoomAddressPool nets) (room_id : ℕ) (avoid : List Ipv4Net) (net : Ipv4Net)
      → prefix_len p.pool ≤ p.room_prefix_len
      → p.room_prefix_len ≤ 30
      → lookup room_id p.allocations ≡ none
      → allocate_with_avoidance nets room_id avoid p ≡ ok (net, q)
      → Picks p room_id avoid net q
  unfolding allocate_with_avoidance
  allocate_fresh p q room_id avoid net wide small none_yet e =
      try_indices-Picks p q room_id avoid net (checked_shl_one (32 - p.room_prefix_len))
        (candidate_indices nets p.pool p.room_prefix_len
          (2 ^ (p.room_prefix_len - prefix_len p.pool)))
        wide small (λ i lt. size_scales p.room_prefix_len (prefix_len p.pool) i wide small lt)
        (candidate_indices-lt nets p.pool p.room_prefix_len _)
        (rw (none_yet, lt→ltb (p.room_prefix_len - prefix_len p.pool) 32 (omega arith)) at e)

  pub allocate_existing :
      (p q : RoomAddressPool nets) (room_id : ℕ) (avoid : List Ipv4Net) (net old : Ipv4Net)
      → lookup room_id p.allocations ≡ some old
      → allocate_with_avoidance nets room_id avoid p ≡ ok (net, q)
      → (net ≡ old) × (q ≡ p)
  unfolding allocate_with_avoidance
  allocate_existing p q room_id avoid net old known e =
      let got : ◌≡◌ {A = Result RoomError (Ipv4Net × RoomAddressPool nets)} (ok (old, p))
          (ok (net, q)) =
        rw known at e in
      (cc, cc)

  insert-IsPartition :
      (p : RoomAddressPool nets) (room_id : ℕ) (avoid : List Ipv4Net) (net : Ipv4Net)
      → IsPartition p
      → IsBlock nets p.pool p.room_prefix_len net
      → is_free nets p.allocations avoid net ≡ true
      → IsPartition (record p { allocations = insert room_id net p.allocations })
  insert-IsPartition p room_id avoid net v block free = record {
    wide = v.wide;
    small = v.small;
    blocks =
        All-insert (λ e. IsBlock nets p.pool p.room_prefix_len e.1) room_id net p.allocations
          v.blocks block;
    apart = λ j k a b e f ne. ground (
      arith,
      lookup-insert room_id j net p.allocations,
      lookup-insert room_id k net p.allocations,
      new_old k b,
      new_old j a,
      v.apart j k a b,
    );
  }
    where
      new_old :
          (k : ℕ) (b : Ipv4Net)
          → lookup k p.allocations ≡ some b
          → (broadcast b < network net) ⊎ (broadcast net < network b)
      new_old k b f =
          let off : any (λ used. net_eq used net) (values p.allocations) ≡ false = ground arith in
          IsBlock-apart nets p.pool b net p.room_prefix_len
            (All-lookup (λ e. IsBlock nets p.pool p.room_prefix_len e.1) k b p.allocations v.blocks
              f)
            block (any-values-lookup (λ used. net_eq used net) k b p.allocations off f)

  -- Every allocation, fresh or not, keeps the partition, and the room then has the subnet that was
  -- returned.
  pub allocate-IsPartition :
      (p q : RoomAddressPool nets) (room_id : ℕ) (avoid : List Ipv4Net) (net : Ipv4Net)
      → IsPartition p
      → allocate_with_avoidance nets room_id avoid p ≡ ok (net, q)
      → IsPartition q × (lookup room_id q.allocations ≡ some net) × (q.pool ≡ p.pool)
  allocate-IsPartition p q room_id avoid net v e =
      elim (Option-cases (lookup room_id p.allocations)) [
        | inr (old, known) ↦
            let (same, eq) = allocate_existing p q room_id avoid net old known e in
            rw (eq, same) (v, known, refl)
        | inl none_yet ↦
            let (block, free, eq) =
              allocate_fresh p q room_id avoid net v.wide v.small none_yet e in
            rw eq (
              insert-IsPartition p room_id avoid net v block free,
              ground (arith, lookup-insert room_id room_id net p.allocations),
              refl,
            )
      ]

  pub release-IsPartition :
      (p : RoomAddressPool nets) (room_id : ℕ)
      → IsPartition p
      → IsPartition (release nets room_id p)
  unfolding release
  release-IsPartition p room_id v = record {
    wide = v.wide;
    small = v.small;
    blocks =
        All-remove (λ e. IsBlock nets p.pool p.room_prefix_len e.1) room_id p.allocations v.blocks;
    apart = λ j k a b e f ne. ground (
      arith,
      lookup-remove room_id j p.allocations,
      lookup-remove room_id k p.allocations,
      v.apart j k a b,
    );
  }

  pub new-IsPartition :
      (text : String) (room_prefix_len : ℕ) (p : RoomAddressPool nets)
      → new nets text room_prefix_len ≡ ok p
      → IsPartition p × (p.allocations ≡ [])
  unfolding new
  new-IsPartition text room_prefix_len p e = go (nets.parse text) e
    where
      go :
          (o : Option Ipv4Net)
          → new_pool nets text room_prefix_len o ≡ ok p
          → IsPartition p × (p.allocations ≡ [])
      go none h = cc
      go (some pool) h =
          elim (Bool-cases (ltb room_prefix_len (prefix_len pool) || ltb 30 room_prefix_len)) [
            | inl refused ↦
                let bad : ◌≡◌ {A = Result RoomError (RoomAddressPool nets)}
                    (err (invalid_address_pool text)) (ok p) =
                  rw refused at h in
                cc
            | inr fine ↦
                let start : RoomAddressPool nets = record {
                  pool = pool;
                  room_prefix_len = room_prefix_len;
                  allocations = [];
                } in
                let made : ◌≡◌ {A = Result RoomError (RoomAddressPool nets)} (ok start) (ok p) =
                  rw fine at h in
                let same : p ≡ start = cc in
                rw same (
                  record {
                    wide = ground arith;
                    small = ground arith;
                    blocks = tt;
                    apart = λ j k a b e f ne. unfold lookup in cc;
                  },
                  refl,
                )
          ]
