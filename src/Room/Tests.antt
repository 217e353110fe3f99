-- ===== src/Room/Tests.antt =====
-- Networks as pairs of an address and a prefix length, runs over them, and the theorems at
-- concrete inputs.
use Prim.Native.String.{String}
use text.Mathlib.Text.{◌==◌ as str_eq}
use native.Mathlib.Decide.{dec_lt, dec_le}
use r2n.Common.{
  ℕ, ◌+◌, ◌-◌, ◌*◌, ◌%◌, ◌^◌, ◌≤◌, ◌<◌, ◌≡◌, ◌⊎◌, refl, sym, ap, ◌∙◌, true, false, ◌&&◌, Option,
  none, some, List, [], ◌∷◌, arith, leb, ok, err, any, map, ◌==◌, if◌then◌else◌,
}
use r2n.Common.Maps.{lookup, insert, remove, values}
use r2n.Room.Nets.{Ipv4Nets}
use r2n.Room.Members
use r2n.Room.Leases
use r2n.Room.Subnets
use r2n.Room.Disjoint
use r2n.Room.Allocating
use r2n.Room.Rejoining
use r2n.Room.Errors.{address_pool_exhausted}
use r2n.Room.Partition
use r2n.Room.Blocks
use r2n.Room.{
  Room, new, owner_role, guest, add_member, remove_member, add_or_reuse_member, allocate_ip,
  find_host,
}
use r2n.Common.Powers.{pow-add, two_pow_pos}

-- An address and a prefix length.
abbrev pub Pair : Type 0
Pair = (a : ℕ) × (p : ℕ) × (a < 2 ^ 32) × (p ≤ 32)

abbrev pub block : Pair → ℕ
block n = 2 ^ (32 - n.1)

abbrev pub pair_network : Pair → ℕ
pair_network n = n.0 - n.0 % block n

block_end : (a C S : ℕ) → 0 < S → a < C * S → a - a % S + S ≤ C * S
block_end a C S pos h = grind arith

pub pair_end : (n : Pair) → pair_network n + block n ≤ 2 ^ 32
pair_end n =
    let split : 2 ^ n.1 * block n ≡ 2 ^ 32 =
      sym (pow-add n.1 (32 - n.1))
      ∙ ap (λ (t : ℕ). 2 ^ t) {x = n.1 + (32 - n.1)} {y = 32} (omega (arith, n.3)) in
    omega
      (arith, split, block_end n.0 (2 ^ n.1) (block n) (two_pow_pos _) (omega (arith, n.2, split)))

pub make_pair : (a p : ℕ) → Dec (a < 2 ^ 32) → Dec (p ≤ 32) → Option Pair
make_pair a p (yes h) (yes k) = some (a, p, h, k)
make_pair a p _ _ = none

pub make_pair-some :
    (a p : ℕ) (d : Dec (a < 2 ^ 32)) (e : Dec (p ≤ 32))
    → a < 2 ^ 32
    → p ≤ 32
    → (n : Pair) × (make_pair a p d e ≡ some n) × (n.0 ≡ a) × (n.1 ≡ p)
unfolding make_pair
make_pair-some a p (yes h) (yes k) u v = ((a, p, h, k), refl, refl, refl)
make_pair-some a p (yes h) (no k) u v = absurd (k v)
make_pair-some a p (no h) (yes k) u v = absurd (h u)
make_pair-some a p (no h) (no k) u v = absurd (h u)

abbrev pub wide_net : Pair
wide_net = (3232235520, 16, omega arith, omega arith)

abbrev pub narrow_net : Pair
narrow_net = (3232237312, 24, omega arith, omega arith)

abbrev pub pair_nets : Ipv4Nets
pair_nets = record {
  Ipv4Net = Pair;
  parse = λ t.
      if str_eq t "192.168.0.0/16"
      then some wide_net
      else if str_eq t "192.168.7.0/24"
      then some narrow_net
      else none;
  show = λ n. "";
  make = λ a p. make_pair a p (dec_lt a (2 ^ 32)) (dec_le p 32);
  prefix_len = λ n. n.1;
  network = pair_network;
  broadcast = λ n. pair_network n + block n - 1;
  net_eq = λ m n. (m.0 == n.0) && (m.1 == n.1);
  addr = λ n. n.0;
  prefix_max = λ n. n.3;
  network_lem = λ n. refl;
  broadcast_lem = λ n. omega (arith, two_pow_pos (32 - n.1));
  broadcast_max = λ n. omega (arith, pair_end n, two_pow_pos (32 - n.1));
  make_some = λ a p h k. make_pair-some a p (dec_lt a (2 ^ 32)) (dec_le p 32) h k;
  net_eq_lem = λ m n. refl;
}

-- Addresses in a room over 192.168.7.0/24.
abbrev cidr : String
cidr = "192.168.7.0/24"

abbrev changes : List (Members.Change pair_nets)
changes =
    Members.joins 1 "owner" owner_role
    ∷ Members.joins 2 "peer" guest
    ∷ Members.leaves 2
    ∷ Members.joins 3 "late" guest
    ∷ Members.joins 2 "peer" guest
    ∷ []

abbrev fresh_room : Room
fresh_room = record {
  room_id = 1;
  name = "room";
  owner = 1;
  virtual_cidr = cidr;
  join_token = "token";
  members = [];
  ip_leases = [];
}

after_changes :
    map (λ e. e.1.virtual_ip) (Members.change_all pair_nets fresh_room changes).members
    ≡ 3232237313 ∷ 3232237315 ∷ 3232237314 ∷ []
unfolding Members.change_all Members.change add_or_reuse_member allocate_ip find_host lookup insert
    remove values add_member remove_member
after_changes = refl

change_all-new_addresses_example :
    (◌≡◌ {A = ℕ} 3232237313 3232237314 → ◌≡◌ {A = ℕ} 1 2)
    × (pair_network narrow_net < 3232237313)
    × (3232237313 < pair_network narrow_net + block narrow_net - 1)
unfolding Members.change_all Members.change add_or_reuse_member allocate_ip find_host lookup insert
    remove values add_member remove_member new
change_all-new_addresses_example =
    Members.change_all-new_addresses pair_nets 1 1 "room" cidr "token" narrow_net changes 1 2
      (record { node_id = 1; virtual_ip = 3232237313; nickname = "owner"; role = owner_role })
      (record { node_id = 2; virtual_ip = 3232237314; nickname = "peer"; role = guest }) refl refl
      refl

abbrev meanwhile : List (Members.Change pair_nets)
meanwhile = Members.joins 9 "other" guest ∷ Members.leaves 1 ∷ []

rejoin_same_ip_example :
    (after : Room) × (add_or_reuse_member pair_nets 2 "again" owner_role (
        Members.change_all pair_nets
          (remove_member 2 (Members.change_all pair_nets (new 1 "room" 1 cidr "token") changes))
          meanwhile)
      ≡ ok (3232237314, after))
unfolding Members.change_all Members.change add_or_reuse_member allocate_ip find_host lookup insert
    remove values add_member remove_member new
rejoin_same_ip_example =
    Rejoining.rejoin_same_ip pair_nets 1 1 "room" cidr "token" narrow_net changes meanwhile 2
      (record { node_id = 2; virtual_ip = 3232237314; nickname = "peer"; role = guest }) "again"
      owner_role refl refl

-- Every host of a subnet of four addresses is in use.
find_host-none_case : leb 1 101 ≡ true
unfolding find_host
find_host-none_case =
    Leases.find_host-none 3 100 103 (λ ip. leb 1 ip) 1 101 (omega arith) (omega arith) refl
      (omega arith) (omega arith)

abbrev pub wide_pool : Subnets.RoomAddressPool pair_nets
wide_pool = record { pool = wide_net; room_prefix_len = 24; allocations = [] }

abbrev got : Option Pair → Pair
got none = wide_net
got (some n) = n

abbrev subnet_changes : List (Disjoint.Change pair_nets)
subnet_changes =
    Disjoint.allocates 1 [] ∷ Disjoint.allocates 2 (wide_net ∷ []) ∷ Disjoint.allocates 3 [] ∷ []

abbrev subnet : ℕ → Pair
subnet k = got (lookup k (Disjoint.change_all pair_nets wide_pool subnet_changes).allocations)

wide_pool_new : Subnets.new pair_nets "192.168.0.0/16" 24 ≡ ok wide_pool
unfolding Subnets.new
wide_pool_new = refl

-- `allocate` is the allocation with nothing to avoid.
allocates_twice :
    Subnets.allocate pair_nets 1 wide_pool
    ≡ Subnets.allocate_with_avoidance pair_nets 1 [] wide_pool
unfolding Subnets.allocate
allocates_twice = refl

change_all-new_apart_example :
    (pair_network (subnet 1) + block (subnet 1) - 1 < pair_network (subnet 3))
    ⊎ (pair_network (subnet 3) + block (subnet 3) - 1 < pair_network (subnet 1))
unfolding Disjoint.change_all Subnets.new Subnets.allocate_with_avoidance Subnets.try_indices
    Subnets.candidate_indices Subnets.range_from Subnets.ipv4_nets_overlap lookup insert values
    dec_lt dec_le make_pair
change_all-new_apart_example =
    Disjoint.change_all-new_apart pair_nets "192.168.0.0/16" 24 wide_pool subnet_changes 1 3
      (subnet 1) (subnet 3) refl refl refl (omega arith)

allocate_with_avoidance_outcome_example :
    ((old : Pair) × (lookup 1 [] ≡ some old)
      × (Subnets.allocate_with_avoidance pair_nets 1 (narrow_net ∷ []) wide_pool
          ≡ ok (old, wide_pool)))
    ⊎ ((lookup {V = Pair} 1 [] ≡ none)
        × (net : Pair) × (q : Subnets.RoomAddressPool pair_nets) × (Subnets.allocate_with_avoidance
              pair_nets 1
              (narrow_net ∷ [])
              wide_pool
            ≡ ok (net, q))
        × (lookup 1 q.allocations ≡ some net)
        × Blocks.IsBlock pair_nets wide_net 24 net
        × (any (λ blocked. Subnets.ipv4_nets_overlap pair_nets blocked net) (narrow_net ∷ [])
            ≡ false))
    ⊎ ((lookup {V = Pair} 1 [] ≡ none)
        × (Subnets.allocate_with_avoidance pair_nets 1 (narrow_net ∷ []) wide_pool
            ≡ err address_pool_exhausted)
        × ((i : ℕ) → i < 2 ^ 8 → Allocating.IsBlocked pair_nets wide_pool (narrow_net ∷ []) i))
allocate_with_avoidance_outcome_example =
    Allocating.allocate_with_avoidance_outcome pair_nets wide_pool 1 (narrow_net ∷ [])
      (Partition.new-IsPartition pair_nets "192.168.0.0/16" 24 wide_pool wide_pool_new).0
