-- ===== src/Room/Disjoint.antt =====
-- Rooms get disjoint parts of the pool.
use Prim.Native.String.{String}
use r2n.Common.{ℕ, ◌<◌, ◌≡◌, ◌≢◌, ◌⊎◌, refl, some, List, [], ◌∷◌, Result, ok, err}
use r2n.Common.Maps.{lookup}
use r2n.Room.Nets.{Ipv4Nets}
use r2n.Room.Errors.{RoomError}
use r2n.Room.Subnets.{RoomAddressPool, new, allocate_with_avoidance, release}
use r2n.Room.Partition.{IsPartition, allocate-IsPartition, release-IsPartition, new-IsPartition}

module _ (nets : Ipv4Nets) where
  open nets use {Ipv4Net, network, broadcast, prefix_len, net_eq, addr}

  -- An allocation that succeeds, or one that fails and changes nothing, or a release.
  pub data Change : Type 0 where
    allocates : ℕ → List Ipv4Net → Change
    releases : ℕ → Change

  abbrev allocated :
      RoomAddressPool nets
      → Result RoomError (Ipv4Net × RoomAddressPool nets)
      → RoomAddressPool nets
  allocated p (err e) = p
  allocated p (ok (net, q)) = q

  unfoldable pub change_all : RoomAddressPool nets → List Change → RoomAddressPool nets
  change_all p [] = p
  change_all p (allocates room_id avoid ∷ cs) =
      change_all (allocated p (allocate_with_avoidance nets room_id avoid p)) cs
  change_all p (releases room_id ∷ cs) = change_all (release nets room_id p) cs

  change_all-IsPartition :
      (p : RoomAddressPool nets) (cs : List Change)
      → IsPartition nets p
      → IsPartition nets (change_all p cs)
  unfolding change_all
  change_all-IsPartition p [] v = v
  change_all-IsPartition p (allocates room_id avoid ∷ cs) v =
      change_all-IsPartition (allocated p (allocate_with_avoidance nets room_id avoid p)) cs
        (go (allocate_with_avoidance nets room_id avoid p) refl)
    where
      go :
          (r : Result RoomError (Ipv4Net × RoomAddressPool nets))
          → allocate_with_avoidance nets room_id avoid p ≡ r
          → IsPartition nets (allocated p r)
      go (err e) eq = v
      go (ok (net, q)) eq = (allocate-IsPartition nets p q room_id avoid net v eq).0
  change_all-IsPartition p (releases room_id ∷ cs) v =
      change_all-IsPartition (release nets room_id p) cs (release-IsPartition nets p room_id v)

  -- From a pool that `new` made, after any allocations, with any networks to avoid, and releases:
  -- the subnets of two different rooms have no address in common.
  pub change_all-new_apart :
      (text : String) (room_prefix_len : ℕ) (p : RoomAddressPool nets) (cs : List Change) (j k : ℕ)
      (a b : Ipv4Net)
      → new nets text room_prefix_len ≡ ok p
      → lookup j (change_all p cs).allocations ≡ some a
      → lookup k (change_all p cs).allocations ≡ some b
      → j ≢ k
      → (broadcast a < network b) ⊎ (broadcast b < network a)
  change_all-new_apart text room_prefix_len p cs j k a b e f g ne =
      (change_all-IsPartition p cs (new-IsPartition nets text room_prefix_len p e).0).apart j k a b
        f g ne
