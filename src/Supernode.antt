-- ===== src/Supernode.antt =====
-- crates/r2n-supernode-lib/src/lib.rs: the supernode's tables and its handlers of control frames.
-- A handler is one step. Its sends are listed in `sent`, the first one first; random ids, tokens
-- and the time are arguments.
pub mod Frames
pub mod Control
pub mod Leaving
pub mod Relay
pub mod Strangers
pub mod Tests
use Prim.Native.String.{String}
use text.Mathlib.Text.{◌==◌ as str_eq}
use r2n.Common.{
  ℕ, ◌+◌, ◌≤◌, ◌≡◌, Bool, true, false, not, ◌&&◌, Option, none, some, List, [], ◌∷◌, ◌++◌, Result,
  ok, err, any, length, leb, map, ◌==◌, if◌then◌else◌,
}
use r2n.Common.Maps.{Map, lookup, insert, remove, values}
use r2n.Dataplane.Table.{PeerInfo}
use r2n.Room.{Room, Member, owner_role, guest, add_or_reuse_member, remove_member}
use r2n.Room.{new as new_room}
use r2n.Room.Nets.{Ipv4Nets}
use r2n.Room.Errors.{RoomError}
use r2n.Room.Subnets.{
  RoomAddressPool, allocate, allocate_with_avoidance, release, ipv4_nets_overlap,
}
use Frames.{
  ControlFrame, NatType, Candidate, RoomDescription, add_peer, remove_peer, register_node,
  register_ok, punch_request, create_room, room_created, join_room, join_reject, join_accept,
  peer_list, peer_update, leave_room, heartbeat, query_rooms, rooms_list, error_frame,
}

-- What an invite holds besides its signature.
pub record Invite : Type 0 where
  pub primary_supernode : String
  pub fallback_supernodes : List String
  pub room_id : ℕ
  pub room_pub_key : ℕ
  pub virtual_cidr : String
  pub token : String

-- The network crate, whether a frame can be sent to an address, the code that an invite is signed
-- and encoded to, and two texts that `format!` makes of a number.
pub record Env : Type 1 where
  pub nets : Ipv4Nets
  pub sends : ℕ → ControlFrame → Bool
  pub encode_invite : Invite → String
  pub peer_name : ℕ → String
  pub restored_name : ℕ → String

module _ (env : Env) where
  open env use {nets, sends, encode_invite, peer_name, restored_name}

  pub record NodeInfo : Type 0 where
    pub node_id : ℕ
    pub addr : ℕ
    pub nat_type : NatType
    pub external_addr : Option ℕ
    pub public_key : ℕ
    pub candidates : List Candidate
    pub nickname : String
    pub local_networks : List nets.Ipv4Net
    pub last_seen : ℕ

  pub record Supernode : Type 0 where
    pub nodes : Map NodeInfo
    pub addr_to_node : Map ℕ
    pub rooms : Map Room
    pub address_pool : RoomAddressPool nets
    pub peers : List String
    -- What `public_supernode_addr` returns.
    pub public_addr : Option String
    pub sent : List (ℕ × ControlFrame)

  -- How a handler ends: with Ok, with an error, in a panic, or never, as it waits for a
  -- lock that it holds.
  pub data Outcome : Type 0 where
    returned failed panicked stuck : Supernode → Outcome

  abbrev pub record_send : ℕ → ControlFrame → Supernode → Supernode
  record_send addr frame s = record s { sent = s.sent ++ ((addr, frame) ∷ []) }

  -- `send_control(..).await?`, and what follows.
  abbrev pub send_then : ℕ → ControlFrame → Supernode → (Supernode → Outcome) → Outcome
  send_then addr frame s next =
      if sends addr frame then next (record_send addr frame s) else failed s

  pub send_all_then : List (ℕ × ControlFrame) → Supernode → (Supernode → Outcome) → Outcome
  send_all_then [] s next = next s
  send_all_then ((addr, frame) ∷ frames) s next =
      let rest = send_all_then frames (record_send addr frame s) next in
      if sends addr frame then rest else failed s

  -- `let _ = send_control(..).await`.
  abbrev pub try_send : ℕ → ControlFrame → Supernode → Supernode
  try_send addr frame s = if sends addr frame then record_send addr frame s else s

  pub try_send_all : List (ℕ × ControlFrame) → Supernode → Supernode
  try_send_all [] s = s
  try_send_all ((addr, frame) ∷ frames) s = try_send_all frames (try_send addr frame s)

  abbrev pub key_of : Option NodeInfo → ℕ
  key_of none = 0
  key_of (some node) = node.public_key

  abbrev pub peer_info_for_member : Supernode → Member → PeerInfo
  peer_info_for_member s member = record {
    node_id = member.node_id;
    virtual_ip = member.virtual_ip;
    nickname = member.nickname;
    public_key = key_of (lookup member.node_id s.nodes);
  }

  pub parse_local_networks : List String → List nets.Ipv4Net
  parse_local_networks [] = []
  parse_local_networks (cidr ∷ cidrs) =
      let rest = parse_local_networks cidrs in
      elim (nets.parse cidr) [ none ↦ rest | some network ↦ network ∷ rest ]

  abbrev pub conflicts : Option nets.Ipv4Net → List nets.Ipv4Net → Bool
  conflicts none local_networks = false
  conflicts (some room_network) local_networks =
      any (λ local. ipv4_nets_overlap nets room_network local) local_networks

  pub room_subnet_conflicts : String → List nets.Ipv4Net → Bool
  room_subnet_conflicts room_virtual_cidr local_networks =
      conflicts (nets.parse room_virtual_cidr) local_networks

  abbrev pub networks_of : Option NodeInfo → List nets.Ipv4Net
  networks_of none = []
  networks_of (some node) = node.local_networks

  abbrev pub nickname_or : String → Option NodeInfo → String
  nickname_or other none = other
  nickname_or other (some node) = node.nickname

  -- A frame for each of the members that is a node, but not for `node_id`.
  pub to_others :
      ℕ → (NodeInfo → ControlFrame) → Map NodeInfo → List Member → List (ℕ × ControlFrame)
  to_others node_id frame nodes [] = []
  to_others node_id frame nodes (member ∷ members) =
      let rest = to_others node_id frame nodes members in
      if member.node_id == node_id then rest else elim (lookup member.node_id nodes) [
        | none ↦ rest
        | some node ↦ (node.addr, frame node) ∷ rest
      ]

  abbrev pub has_member : ℕ → Room → Bool
  has_member node_id room = elim (lookup node_id room.members) [ none ↦ false | some member ↦ true ]

  pub punches : ℕ → List Candidate → Map NodeInfo → List Room → List (ℕ × ControlFrame)
  punches node_id candidates nodes [] = []
  punches node_id candidates nodes (room ∷ rooms) =
      let rest = punches node_id candidates nodes rooms in
      let here =
        to_others node_id (λ node. punch_request node_id candidates) nodes (values room.members) in
      if has_member node_id room then here ++ rest else rest

  pub handle_register :
      ℕ
      → ℕ
      → NatType
      → Option ℕ
      → ℕ
      → List Candidate
      → String
      → List String
      → ℕ
      → Supernode
      → Outcome
  handle_register now node_id nat_type external_addr public_key candidates nickname local_networks
        addr s =
      let node : NodeInfo = record {
        node_id = node_id;
        addr = addr;
        nat_type = nat_type;
        external_addr = external_addr;
        public_key = public_key;
        candidates = candidates;
        nickname = nickname;
        local_networks = parse_local_networks local_networks;
        last_seen = now;
      } in
      let nodes = insert node_id node s.nodes in
      send_then addr register_ok
        (record s { nodes = nodes; addr_to_node = insert addr node_id s.addr_to_node })
        (λ t. returned (try_send_all (punches node_id candidates nodes (values t.rooms)) t))

  -- The end of CreateRoom: the invite and the reply.
  abbrev pub invite_owner : ℕ → ℕ → ℕ → String → String → ℕ → Supernode → Outcome
  invite_owner room_id node_id assigned_ip virtual_cidr join_token addr s = elim s.public_addr [
    | none ↦ failed s
    | some primary_supernode ↦
        (let invite : Invite = record {
          primary_supernode = primary_supernode;
          fallback_supernodes = s.peers;
          room_id = room_id;
          room_pub_key = key_of (lookup node_id s.nodes);
          virtual_cidr = virtual_cidr;
          token = join_token;
        } in
          send_then addr (room_created room_id assigned_ip virtual_cidr (encode_invite invite)) s
            (λ t. returned t))
  ]

  abbrev pub open_room :
      ℕ → ℕ → String → String → ℕ → Supernode → Result RoomError (ℕ × Room) → Outcome
  open_room room_id node_id virtual_cidr join_token addr s (err e) = failed s
  open_room room_id node_id virtual_cidr join_token addr s (ok (assigned_ip, room)) =
      invite_owner room_id node_id assigned_ip virtual_cidr join_token addr
        (record s { rooms = insert room_id room s.rooms })

  abbrev pub with_subnet :
      ℕ
      → String
      → ℕ
      → String
      → ℕ
      → Supernode
      → Result RoomError (nets.Ipv4Net × RoomAddressPool nets)
      → Outcome
  with_subnet room_id join_token node_id name addr s (err e) = failed s
  with_subnet room_id join_token node_id name addr s (ok (net, pool)) =
      let virtual_cidr = nets.show net in
      let room = new_room room_id name node_id virtual_cidr join_token in
      open_room room_id node_id virtual_cidr join_token addr (record s { address_pool = pool })
        (add_or_reuse_member nets node_id (nickname_or "Owner" (lookup node_id s.nodes)) owner_role
          room)

  abbrev pub create_for : ℕ → String → String → ℕ → Supernode → Option ℕ → Outcome
  create_for room_id join_token name addr s none =
      send_then addr (error_frame 400 "node not registered") s (λ t. returned t)
  create_for room_id join_token name addr s (some node_id) =
      with_subnet room_id join_token node_id name addr s
        (allocate_with_avoidance nets room_id (networks_of (lookup node_id s.nodes)) s.address_pool)

  pub handle_create : ℕ → String → String → ℕ → Supernode → Outcome
  handle_create room_id join_token name addr s =
      create_for room_id join_token name addr s (lookup addr s.addr_to_node)
