-- ===== src/Supernode/Control.antt =====
-- crates/r2n-supernode-lib/src/lib.rs, handle_control: the other control frames, and all of them.
use Prim.Native.String.{String}
use text.Mathlib.Text.{◌==◌ as str_eq}
use r2n.Common.{
  ℕ, ◌+◌, Bool, false, not, Option, none, some, List, [], ◌∷◌, Result, ok, err, length, map, ◌==◌,
  if◌then◌else◌,
}
use r2n.Common.Maps.{Map, lookup, insert, remove, values}
use r2n.Room.{Room, Member, guest, add_or_reuse_member, remove_member}
use r2n.Room.{new as new_room}
use r2n.Room.Errors.{RoomError}
use r2n.Room.Subnets.{RoomAddressPool, allocate, release}
use r2n.Supernode.Frames.{
  ControlFrame, Candidate, RoomDescription, add_peer, remove_peer, register_node, punch_request,
  create_room, join_room, join_reject, join_accept, peer_list, peer_update, leave_room, heartbeat,
  query_rooms, rooms_list,
}
use r2n.Supernode.{
  Env, NodeInfo, Supernode, Outcome, send_then, send_all_then, try_send, peer_info_for_member,
  networks_of, nickname_or, room_subnet_conflicts, to_others, handle_register, handle_create,
  returned, failed, panicked, stuck,
}

abbrev pub or_empty : Option String → String
or_empty none = ""
or_empty (some token) = token

module _ (env : Env) where
  open env use {nets, peer_name, restored_name}

  -- The network of a room that is made again, and the pool behind it.
  abbrev pub restored_cidr :
      Supernode env
      → Result RoomError (nets.Ipv4Net × RoomAddressPool nets)
      → String × RoomAddressPool nets
  restored_cidr s (err e) = ("192.168.255.0/24", s.address_pool)
  restored_cidr s (ok (net, pool)) = (nets.show net, pool)

  abbrev pub name_or : String → Option String → String
  name_or other none = other
  name_or other (some name) = name

  -- `self.rooms.entry(room_id).or_insert_with(..)`.
  abbrev pub entry_or_insert :
      ℕ → ℕ → Option String → Option String → Supernode env → Option Room → Room × Supernode env
  entry_or_insert room_id node_id token room_name s (some room) = (room, s)
  entry_or_insert room_id node_id token room_name s none =
      let (virtual_cidr, pool) = restored_cidr s (allocate nets room_id s.address_pool) in
      let room =
        new_room room_id (name_or (restored_name room_id) room_name) node_id virtual_cidr
          (or_empty token) in
      (room, record s { rooms = insert room_id room s.rooms; address_pool = pool })

  abbrev pub member_ip : ℕ → Supernode env → Room → Option Member → Result RoomError (ℕ × Room)
  member_ip node_id s room (some existing) = ok (existing.virtual_ip, room)
  member_ip node_id s room none =
      add_or_reuse_member nets node_id
        (nickname_or env (peer_name (length room.members + 1)) (lookup node_id s.nodes)) guest room

  -- Both punch requests for each other member that is a node.
  unfoldable pub introductions :
      ℕ → ℕ → List Candidate → Map (NodeInfo env) → List Member → List (ℕ × ControlFrame)
  introductions node_id addr candidates nodes [] = []
  introductions node_id addr candidates nodes (member ∷ members) =
      let rest = introductions node_id addr candidates nodes members in
      if member.node_id == node_id then rest else elim (lookup member.node_id nodes) [
        | none ↦ rest
        | some existing ↦
            (existing.addr, punch_request node_id candidates)
            ∷ (addr, punch_request member.node_id existing.candidates)
            ∷ rest
      ]

  abbrev pub introduce : ℕ → ℕ → Room → Supernode env → Outcome env
  introduce node_id addr room s = elim (lookup node_id s.nodes) [
    | none ↦ returned s
    | some new_node ↦
        send_all_then env
          (introductions node_id addr new_node.candidates s.nodes (values room.members)) s
          (λ t. returned t)
  ]

  -- The replies to a node that joined.
  abbrev pub announce : ℕ → ℕ → ℕ → ℕ → Room → Supernode env → Outcome env
  announce room_id node_id assigned_ip addr room s = elim (lookup node_id room.members) [
    | none ↦ panicked s
    | some joined_member ↦
        (let joined_peer = peer_info_for_member env s joined_member in
          send_then env addr (join_accept room_id assigned_ip room.virtual_cidr (some room.name)) s
            (λ t.
              send_then env addr
                (peer_list (map (peer_info_for_member env s) (values room.members))) t
                (λ u.
                  send_all_then env
                    (to_others env node_id (λ node. peer_update joined_peer add_peer) s.nodes
                      (values room.members))
                    u (introduce node_id addr room))))
  ]

  abbrev pub enter : ℕ → ℕ → ℕ → Supernode env → Result RoomError (ℕ × Room) → Outcome env
  enter room_id node_id addr s (err e) = failed s
  enter room_id node_id addr s (ok (assigned_ip, room)) =
      announce room_id node_id assigned_ip addr room
        (record s { rooms = insert room_id room s.rooms })

  abbrev pub join_checked : ℕ → ℕ → Option String → ℕ → Room × Supernode env → Outcome env
  join_checked room_id node_id token addr (room, s) =
      if not (str_eq room.join_token (or_empty token))
      then send_then env addr (join_reject "invalid invite token") s (λ t. returned t)
      else if room_subnet_conflicts env room.virtual_cidr (networks_of env (lookup node_id s.nodes))
      then send_then env addr
          (join_reject "room subnet conflicts with a local network on this device") s
          (λ t. returned t)
      else enter room_id node_id addr s (member_ip node_id s room (lookup node_id room.members))

  abbrev pub join_for :
      ℕ → Option String → Option String → ℕ → Supernode env → Option ℕ → Outcome env
  join_for room_id token room_name addr s none =
      send_then env addr (join_reject "node not registered") s (λ t. returned t)
  join_for room_id token room_name addr s (some node_id) =
      join_checked room_id node_id token addr
        (entry_or_insert room_id node_id token room_name s (lookup room_id s.rooms))

  unfoldable pub handle_join : ℕ → Option String → Option String → ℕ → Supernode env → Outcome env
  handle_join room_id token room_name addr s =
      join_for room_id token room_name addr s (lookup addr s.addr_to_node)

  -- A frame for each of the members that is a node.
  unfoldable pub to_all : ControlFrame → Map (NodeInfo env) → List Member → List (ℕ × ControlFrame)
  to_all frame nodes [] = []
  to_all frame nodes (member ∷ members) =
      let rest = to_all frame nodes members in
      elim (lookup member.node_id nodes) [ none ↦ rest | some node ↦ (node.addr, frame) ∷ rest ]

  abbrev pub farewells : Room → Supernode env → Option Member → List (ℕ × ControlFrame)
  farewells room s none = []
  farewells room s (some removed_member) =
      to_all (peer_update (peer_info_for_member env s removed_member) remove_peer) s.nodes
        (values room.members)

  -- A call of the map of rooms that writes to a key waits for the lock on the key's shard. A
  -- reference from `get_mut` to a key holds that lock while it lives, as the documentation of
  -- dashmap says; whether a handler that has such a reference waits for itself.
  abbrev pub is_locked : Option ℕ → ℕ → Bool
  is_locked none key = false
  is_locked (some referred) key = referred == key

  -- `rooms.remove(..)`, with the key of the reference that is alive, and what follows.
  abbrev pub remove_room :
      Option ℕ → ℕ → Supernode env → (Supernode env → Outcome env) → Outcome env
  remove_room reference room_id s next =
      if is_locked reference room_id
      then stuck s
      else next (record s { rooms = remove room_id s.rooms })

  -- `room`, from `get_mut`, lives to the end of the handler.
  abbrev pub close_empty : ℕ → Room → Supernode env → Outcome env
  close_empty room_id room s = elim room.members [
    | [] ↦
        remove_room (some room_id) room_id s
          (λ t. returned (record t { address_pool = release nets room_id t.address_pool }))
    | member ∷ members ↦ returned s
  ]

  abbrev pub leave_known : ℕ → ℕ → Supernode env → Option Room → Outcome env
  leave_known room_id node_id s none = returned s
  leave_known room_id node_id s (some room) =
      let left = remove_member node_id room in
      send_all_then env (farewells left s (lookup node_id room.members))
        (record s { rooms = insert room_id left s.rooms }) (close_empty room_id left)

  abbrev pub leave_for : ℕ → Supernode env → Option ℕ → Outcome env
  leave_for room_id s none = returned s
  leave_for room_id s (some node_id) = leave_known room_id node_id s (lookup room_id s.rooms)

  unfoldable pub handle_leave : ℕ → ℕ → Supernode env → Outcome env
  handle_leave room_id addr s = leave_for room_id s (lookup addr s.addr_to_node)

  abbrev pub describe_rooms : List Room → List RoomDescription
  describe_rooms rooms =
      map
        (λ room. record {
          room_id = room.room_id;
          name = room.name;
          member_count = length room.members;
        })
        rooms

  -- The arguments after the frame: the time, a random room id and a random join token.
  unfoldable pub handle_control : ControlFrame → ℕ → ℕ → String → ℕ → Supernode env → Outcome env
  handle_control
        (register_node node_id nat_type external_addr public_key candidates nickname local_networks)
        now fresh_id fresh_token addr s =
      handle_register env now node_id nat_type external_addr public_key candidates nickname
        local_networks addr s
  handle_control (create_room name) now fresh_id fresh_token addr s =
      handle_create env fresh_id fresh_token name addr s
  handle_control (join_room room_id token room_name) now fresh_id fresh_token addr s =
      handle_join room_id token room_name addr s
  handle_control (leave_room room_id) now fresh_id fresh_token addr s = handle_leave room_id addr s
  handle_control heartbeat now fresh_id fresh_token addr s =
      returned (try_send env addr heartbeat s)
  handle_control query_rooms now fresh_id fresh_token addr s =
      returned (try_send env addr (rooms_list (describe_rooms (values s.rooms))) s)
  handle_control frame now fresh_id fresh_token addr s = returned s
