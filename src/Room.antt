-- ===== src/Room.antt =====
-- crates/r2n-room/src/lib.rs: a room's members and their virtual addresses, and the pool of room
-- subnets. IPv4 networks, of the ipnet crate, are the parameter `Ipv4Nets` (Room/Nets).
pub mod Nets
pub mod Errors
pub mod Leases
pub mod Leasing
pub mod Members
pub mod Subnets
pub mod Blocks
pub mod Partition
pub mod Disjoint
pub mod Allocating
pub mod Rejoining
pub mod Tests
use Prim.Native.String.{String}
use r2n.Common.{
  ℕ, zero, suc, ◌+◌, ◌-◌, ◌*◌, ◌^◌, ◌≤◌, ◌<◌, ◌≡◌, Bool, true, false, not, min, ◌&&◌, ◌||◌, Option,
  none, some, List, [], ◌∷◌, ◌++◌, Result, ok, err, any, ltb, leb, ◌==◌, if◌then◌else◌,
}
use r2n.Common.Maps.{Map, lookup, insert, remove, values}
use Nets.{Ipv4Nets}
use Errors.{RoomError, invalid_cidr, address_pool_exhausted}

pub data MemberRole : Type 0 where
  owner_role admin guest : MemberRole

pub record Member : Type 0 where
  pub node_id : ℕ
  pub virtual_ip : ℕ
  pub nickname : String
  pub role : MemberRole

pub record Room : Type 0 where
  pub room_id : ℕ
  pub name : String
  pub owner : ℕ
  pub virtual_cidr : String
  pub join_token : String
  pub members : Map Member
  pub ip_leases : Map ℕ

unfoldable pub new : ℕ → String → ℕ → String → String → Room
new room_id name owner virtual_cidr join_token = record {
  room_id = room_id;
  name = name;
  owner = owner;
  virtual_cidr = virtual_cidr;
  join_token = join_token;
  members = [];
  ip_leases = [];
}

pub add_member : Member → Room → Room
add_member m room = record room {
  members = insert m.node_id m room.members;
  ip_leases = insert m.node_id m.virtual_ip room.ip_leases;
}

pub remove_member : ℕ → Room → Room
remove_member node_id room = record room { members = remove node_id room.members }

abbrev pub preferred_host : MemberRole → ℕ
preferred_host owner_role = 1
preferred_host admin = 2
preferred_host guest = 2

-- Does another member have the address?
abbrev pub taken_by_other : ℕ → ℕ → List Member → Bool
taken_by_other node_id ip = any λ m. not (m.node_id == node_id) && m.virtual_ip == ip

abbrev pub is_used : Room → ℕ → Bool
is_used room ip =
    any (λ m. m.virtual_ip == ip) (values room.members)
    || any (λ a. a == ip) (values room.ip_leases)

-- `network.saturating_add(host)`.
abbrev pub candidate : ℕ → ℕ → ℕ
candidate network host = min (network + host) (2 ^ 32 - 1)

-- `for host in preferred_host..`, with fuel; `none` when the loop breaks.
pub find_host : ℕ → ℕ → ℕ → (ℕ → Bool) → ℕ → Option ℕ
find_host zero network broadcast used host = none
find_host (suc fuel) network broadcast used host =
    let rest = find_host fuel network broadcast used (suc host) in
    if leb broadcast (candidate network host)
    then none
    else if used (candidate network host)
    then rest
    else some (candidate network host)

abbrev pub lease : ℕ → Room → Option ℕ → Result RoomError (ℕ × Room)
lease node_id room none = err address_pool_exhausted
lease node_id room (some ip) = ok (ip, record room { ip_leases = insert node_id ip room.ip_leases })

module _ (nets : Ipv4Nets) where
  open nets use {Ipv4Net, network, broadcast}

  -- The loop stops at the broadcast address, so as many rounds as the network has addresses do.
  abbrev pub search : ℕ → MemberRole → Room → Option Ipv4Net → Result RoomError (ℕ × Room)
  search node_id role room none = err (invalid_cidr room.virtual_cidr)
  search node_id role room (some net) = lease node_id room (
      find_host (broadcast net - network net) (network net) (broadcast net) (is_used room)
        (preferred_host role))

  abbrev pub reuse_or :
      ℕ → Room → Option ℕ → Result RoomError (ℕ × Room) → Result RoomError (ℕ × Room)
  reuse_or node_id room none fresh = fresh
  reuse_or node_id room (some ip) fresh =
      if taken_by_other node_id ip (values room.members) then fresh else ok (ip, room)

  pub allocate_ip : ℕ → MemberRole → Room → Result RoomError (ℕ × Room)
  allocate_ip node_id role room =
      reuse_or node_id room (lookup node_id room.ip_leases)
        (search node_id role room (nets.parse room.virtual_cidr))

  abbrev pub admit :
      ℕ → String → MemberRole → Result RoomError (ℕ × Room) → Result RoomError (ℕ × Room)
  admit node_id nickname role (err e) = err e
  admit node_id nickname role (ok (ip, room)) = ok (ip, add_member member room)
    where
      member : Member
      member = record { node_id = node_id; virtual_ip = ip; nickname = nickname; role = role }

  pub add_or_reuse_member : ℕ → String → MemberRole → Room → Result RoomError (ℕ × Room)
  add_or_reuse_member node_id nickname role room =
      admit node_id nickname role (allocate_ip node_id role room)
