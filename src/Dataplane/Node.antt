-- ===== src/Dataplane/Node.antt =====
-- crates/r2n-dataplane/src/lib.rs: sending a packet to a peer, and handling a received frame, of the
-- whole data plane. An async function is one step; the frames that were sent and the packets that
-- were written to the tunnel are listed, the first one first.
pub mod Sending
pub mod Handling
pub mod Receiving
pub mod Delivery
pub mod Outgoing
pub mod Probing
mod Tests
use r2n.Common.{
  ℕ, ◌+◌, ◌-◌, ◌%◌, ◌^◌, ◌≤◌, ◌≡◌, Bool, true, false, not, Option, none, some, List, [], ◌∷◌, ◌++◌,
  Result, ok, err, any, length, take, leb, ltb, ◌==◌, if◌then◌else◌,
}
use r2n.Common.Maps.{Map, lookup, insert}
use r2n.Common.Words.{from_be}
use r2n.Proto.{
  DataHeader, DataHeaderError, DataPacketType, ipv4, ipv6, broadcast, multicast, discovery,
  keepalive, ping, pong, ethernet, protocol_version, data_header_size, encode_into,
}
use r2n.Crypto.{ReplayWindow, Outcome, done, failed, panicked, Profile, decrypt_in_place}
use r2n.Qos.{IpParser, QosScheduler, classify_packet}
use r2n.Qos
use r2n.Slab.{ArrayQueue, PacketSlab, PacketDesc, acquire, release, with_slot_mut, get_slot_slice}
use r2n.Policy.{Packets, TrafficPolicy, inbound}
use r2n.Observability.{
  MetricsRegistry, PathKind, direct, relay, mark_path_hit, mark_packet_drop, record_pong_received,
}
use r2n.Dataplane.Frames.{ethernet_macs, map_class, policy_allows_packet_type}
use r2n.Dataplane.Path.{Floats, PathInfo, active_addr, add_or_update_path, record_success}
use r2n.Dataplane.Table.{DataPeer, DataPlane, set_direct_path, learn_mac}
use r2n.Dataplane.Incoming.{Incoming, validate_incoming_header}
use r2n.Dataplane.Sealing.{Cipher, seal, zero_header}

abbrev pub max_dataplane_payload : ℕ
max_dataplane_payload = 1600 - data_header_size - 16

abbrev pub flood_ttl : ℕ
flood_ttl = 1

-- What the data plane uses of other crates, whether a frame can be sent to an address, and whether
-- a packet can be written to the tunnel.
pub record Env : Type 1 where
  pub floats : Floats
  pub queues : ArrayQueue
  pub packets : Packets
  pub parse : IpParser
  pub profile : Profile
  pub sends : ℕ → List ℕ → Bool
  pub writes : List ℕ → Bool
  -- `rtt as f32`.
  pub to_float : ℕ → floats.F

-- How an operation ends: with Ok, with an error, or in a panic.
pub data Ending : Type 0 where
  completed errored crashed : Ending

module _ (env : Env) where
  open env use {floats, queues, packets, parse, profile, sends, writes, to_float}

  -- `incoming` has the id, the room, the flooded packets that were seen and the metrics.
  pub record Node : Type 0 where
    pub incoming : Incoming
    pub plane : DataPlane floats Cipher
    pub slab : PacketSlab queues
    pub scheduler : QosScheduler PacketDesc
    pub next_packet_id : ℕ
    pub traffic_policy : TrafficPolicy packets
    pub has_tun : Bool
    pub sent : List (ℕ × List ℕ)
    pub written : List (List ℕ)

  abbrev pub put_peer : ℕ → DataPeer floats Cipher → Node → Node
  put_peer k peer s = record s { plane = record s.plane { peers = insert k peer s.plane.peers } }

  abbrev pub count_hit : ℕ → PathKind → Node → Node
  count_hit k kind s = record s {
    incoming = record s.incoming { metrics = mark_path_hit k kind s.incoming.metrics };
  }

  abbrev pub count_drop : Option ℕ → Node → Node
  count_drop k s = record s {
    incoming = record s.incoming { metrics = mark_packet_drop k s.incoming.metrics };
  }

  -- `paths.iter().find(..).map(|p| p.is_relay).unwrap_or(false)`.
  pub is_relay_path : ℕ → List (PathInfo floats) → Bool
  is_relay_path addr [] = false
  is_relay_path addr (p ∷ ps) = if p.addr == addr then p.is_relay else is_relay_path addr ps

  abbrev pub path_kind : ℕ → List (PathInfo floats) → PathKind
  path_kind addr ps = if is_relay_path addr ps then relay else direct

  -- The packet id and the TTL, and the node with the next id.
  abbrev pub packet_id_for : Bool → Node → ℕ × ℕ × Node
  packet_id_for true s =
      (s.next_packet_id, flood_ttl, record s { next_packet_id = (s.next_packet_id + 1) % 2 ^ 64 })
  packet_id_for false s = (0, 0, s)

  -- The header that `send_to_peer` writes, but for the payload's length.
  abbrev pub frame_header : ℕ → ℕ → DataPeer floats Cipher → DataPacketType → ℕ → ℕ → DataHeader
  frame_header local_node_id room_id peer packet_type packet_id ttl = record {
    version = protocol_version;
    flags = 0;
    packet_type = packet_type;
    reserved = 0;
    ttl = ttl;
    room_id = room_id;
    src_node = local_node_id;
    dst_node = peer.info.node_id;
    origin_node = local_node_id;
    session_id = peer.session_id;
    nonce = peer.next_nonce;
    packet_id = packet_id;
    payload_len = 0;
  }

  abbrev pub dropped :
      Option (PacketDesc × QosScheduler PacketDesc)
      → QosScheduler PacketDesc
      → QosScheduler PacketDesc
  dropped none q = q
  dropped (some (desc, rest)) q = rest

  -- `send_raw`, and what is done once the frame is sent.
  abbrev pub transmit : PacketDesc → ℕ → List ℕ → Node → Ending × Node
  transmit desc target frame s =
      if sends target frame
      then (
        completed,
        record s {
          sent = s.sent ++ ((target, frame) ∷ []);
          scheduler = dropped (Qos.pop s.scheduler) s.scheduler;
          slab = release queues desc s.slab;
        },
      )
      else (errored, s)

  -- `&frame_bytes[..desc.len]`.
  abbrev pub transmit_slot : PacketDesc → ℕ → Node → Option (List ℕ) → Ending × Node
  transmit_slot desc target s none = (crashed, s)
  transmit_slot desc target s (some slot) =
      if leb desc.len (length slot)
      then transmit desc target (take desc.len slot) s
      else (crashed, s)

  abbrev pub to_target : DataPeer floats Cipher → PacketDesc → Node → Option ℕ → Ending × Node
  to_target peer desc s none = (crashed, s)
  to_target peer desc s (some target) =
      let t = count_hit peer.info.node_id (path_kind target peer.path_manager.paths) s in
      transmit_slot desc target t (get_slot_slice queues desc t.slab)

  abbrev pub target_for : DataPeer floats Cipher → Option ℕ → Option ℕ
  target_for peer (some addr) = some addr
  target_for peer none = active_addr floats peer.path_manager

  -- What follows the closure that fills the slot; an error returns with the slot still taken.
  abbrev pub after_sealing :
      DataPeer floats Cipher
      → Qos.TrafficClass
      → PacketDesc
      → Option ℕ
      → Node
      → Option (Outcome ℕ × PacketSlab queues)
      → Ending × Node
  after_sealing peer class desc override s none = (crashed, s)
  after_sealing peer class desc override s (some (failed, slab)) =
      (errored, record s { slab = slab })
  after_sealing peer class desc override s (some (panicked, slab)) =
      (crashed, record s { slab = slab })
  after_sealing peer class desc override s (some (done n, slab)) =
      let full = record desc { len = data_header_size + n } in
      to_target peer full (record s { slab = slab; scheduler = Qos.push class full s.scheduler })
        (target_for peer override)

  abbrev pub with_slot :
      ℕ
      → ℕ
      → DataPeer floats Cipher
      → DataPacketType
      → List ℕ
      → Option ℕ
      → Bool
      → Node
      → Option (PacketDesc × PacketSlab queues)
      → Ending × Node
  with_slot room_id k peer packet_type payload override flood s none = (errored, s)
  with_slot room_id k peer packet_type payload override flood s (some (got, slab)) =
      let class = classify_packet parse packet_type payload in
      let desc : PacketDesc = record got {
        class = map_class class;
        data_offset = 0;
        payload_offset = data_header_size;
      } in
      let next = record peer { next_nonce = (peer.next_nonce + 1) % 2 ^ 64 } in
      let (packet_id, ttl, t) = packet_id_for flood (put_peer k next (record s { slab = slab })) in
      let header = frame_header s.incoming.local_node_id room_id peer packet_type packet_id ttl in
      after_sealing peer class desc override t
        (with_slot_mut queues desc (seal profile peer.cipher header payload) t.slab)

  abbrev pub in_room :
      ℕ
      → DataPeer floats Cipher
      → DataPacketType
      → List ℕ
      → Option ℕ
      → Bool
      → Node
      → Option ℕ
      → Ending × Node
  in_room k peer packet_type payload override flood s none = (errored, s)
  in_room k peer packet_type payload override flood s (some room_id) =
      with_slot room_id k peer packet_type payload override flood s (acquire queues s.slab)

  -- `peer` stands under `k` in the table of peers.
  pub send_to_peer :
      ℕ → DataPeer floats Cipher → DataPacketType → List ℕ → Option ℕ → Bool → Node → Ending × Node
  send_to_peer k peer packet_type payload override flood s =
      if ltb max_dataplane_payload (length payload)
      then (errored, s)
      else in_room k peer packet_type payload override flood s s.incoming.room_id
