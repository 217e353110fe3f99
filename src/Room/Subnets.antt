-- ===== src/Room/Subnets.antt =====
-- crates/r2n-room/src/lib.rs, RoomAddressPool: a subnet for each room.
use Prim.Native.String.{String}
use r2n.Common.{
  ℕ, zero, suc, ◌+◌, ◌-◌, ◌*◌, ◌^◌, Bool, not, ◌&&◌, ◌||◌, Option, none, some, List, [], ◌∷◌, ◌++◌,
  Result, ok, err, any, ltb, leb, ◌==◌, if◌then◌else◌,
}
use r2n.Common.Maps.{Map, lookup, insert, remove, values}
use r2n.Room.Nets.{Ipv4Nets}
use r2n.Room.Errors.{RoomError, invalid_address_pool, address_pool_exhausted}

-- `n` numbers from `first` on.
unfoldable pub range_from : ℕ → ℕ → List ℕ
range_from first zero = []
range_from first (suc n) = first ∷ range_from (suc first) n

-- `1u32.checked_shl(s).unwrap_or(0)`.
abbrev pub checked_shl_one : ℕ → ℕ
checked_shl_one s = if ltb s 32 then 2 ^ s else 0

abbrev pub preferred_indices : List ℕ
preferred_indices =
    range_from 200 56 ++ (range_from 4 27 ++ (range_from 32 168 ++ (0 ∷ 1 ∷ 2 ∷ 3 ∷ 31 ∷ [])))

module _ (nets : Ipv4Nets) where
  open nets use {Ipv4Net, network, broadcast, prefix_len, net_eq}

  pub record RoomAddressPool : Type 0 where
    pub pool : Ipv4Net
    pub room_prefix_len : ℕ
    pub allocations : Map Ipv4Net

  abbrev pub new_pool : String → ℕ → Option Ipv4Net → Result RoomError RoomAddressPool
  new_pool text room_prefix_len none = err (invalid_address_pool text)
  new_pool text room_prefix_len (some pool) =
      if ltb room_prefix_len (prefix_len pool) || ltb 30 room_prefix_len
      then err (invalid_address_pool text)
      else ok (record { pool = pool; room_prefix_len = room_prefix_len; allocations = [] })

  -- The message of the error carries the text in another form where the prefix is refused.
  unfoldable pub new : String → ℕ → Result RoomError RoomAddressPool
  new text room_prefix_len = new_pool text room_prefix_len (nets.parse text)

  unfoldable pub candidate_indices : Ipv4Net → ℕ → ℕ → List ℕ
  candidate_indices pool room_prefix_len room_count =
      if (network pool == 3232235520)
        && ((prefix_len pool == 16) && ((room_prefix_len == 24) && (room_count == 256)))
      then preferred_indices
      else range_from 0 room_count

  unfoldable pub ipv4_nets_overlap : Ipv4Net → Ipv4Net → Bool
  ipv4_nets_overlap a b = leb (network a) (broadcast b) && leb (network b) (broadcast a)

  abbrev pub is_free : Map Ipv4Net → List Ipv4Net → Ipv4Net → Bool
  is_free allocations avoid candidate =
      not (any (λ used. net_eq used candidate) (values allocations))
      && not (any (λ blocked. ipv4_nets_overlap blocked candidate) avoid)

  -- What the loop does with a candidate, and how it goes on if the candidate is not free.
  abbrev pub consider :
      RoomAddressPool
      → ℕ
      → List Ipv4Net
      → Option Ipv4Net
      → Result RoomError (Ipv4Net × RoomAddressPool)
      → Result RoomError (Ipv4Net × RoomAddressPool)
  consider p room_id avoid none rest = err (invalid_address_pool (nets.show p.pool))
  consider p room_id avoid (some candidate) rest =
      if is_free p.allocations avoid candidate
      then ok (candidate, record p { allocations = insert room_id candidate p.allocations })
      else rest

  unfoldable pub try_indices :
      RoomAddressPool → ℕ → List Ipv4Net → ℕ → List ℕ → Result RoomError (Ipv4Net × RoomAddressPool)
  try_indices p room_id avoid subnet_size [] = err address_pool_exhausted
  try_indices p room_id avoid subnet_size (index ∷ rest) =
      consider p room_id avoid (nets.make (network p.pool + index * subnet_size) p.room_prefix_len)
        (try_indices p room_id avoid subnet_size rest)

  abbrev pub existing_or :
      RoomAddressPool
      → Option Ipv4Net
      → Result RoomError (Ipv4Net × RoomAddressPool)
      → Result RoomError (Ipv4Net × RoomAddressPool)
  existing_or p none fresh = fresh
  existing_or p (some net) fresh = ok (net, p)

  unfoldable pub allocate_with_avoidance :
      ℕ → List Ipv4Net → RoomAddressPool → Result RoomError (Ipv4Net × RoomAddressPool)
  allocate_with_avoidance room_id avoid p = existing_or p (lookup room_id p.allocations) (
      let room_count = checked_shl_one (p.room_prefix_len - prefix_len p.pool) in
      let subnet_size = checked_shl_one (32 - p.room_prefix_len) in
      try_indices p room_id avoid subnet_size
        (candidate_indices p.pool p.room_prefix_len room_count))

  unfoldable pub allocate : ℕ → RoomAddressPool → Result RoomError (Ipv4Net × RoomAddressPool)
  allocate room_id p = allocate_with_avoidance room_id [] p

  unfoldable pub release : ℕ → RoomAddressPool → RoomAddressPool
  release room_id p = record p { allocations = remove room_id p.allocations }
