-- ===== src/Dataplane/Node/Tests.antt =====
-- Two nodes that share a room, and the theorem at a packet that the one sends to the other.
use r2n.Common.{
  ℕ, ◌≡◌, refl, inr, true, false, Result, ok, err, none, some, List, [], ◌∷◌, ◌++◌, arith,
  length-replicate, replicate,
}
use r2n.Common.Maps.{lookup}
use r2n.Common.Bits.{test_bit, set_bit}
use r2n.Proto.{ipv4}
use r2n.Proto.RoundTrip.{header_bytes}
use r2n.Crypto.{release, new_window, check_replay_window, advance_replay_window}
use r2n.Crypto.Tests.{open_aead, open_aead-IsCorrect}
use r2n.Qos
use r2n.Slab.{bulk, acquire, get_slot_slice}
use r2n.Slab.Tests.{list_queue}
use r2n.Policy.{
  default_policy, deny, allow, outbound, decide, action_eq, PolicyError, PacketMeta, allows,
  decision, packet_meta, decision_for_meta, first_action,
}
use r2n.Policy.Tests.{small_packets}
use r2n.Observability.{new as new_metrics}
use r2n.Dataplane.Flood.{new as new_seen}
use r2n.Dataplane.Path.{new as new_paths}
use r2n.Dataplane.Path.Tests.{thousandths}
use r2n.Dataplane.Table.{DataPeer}
use r2n.Dataplane.Path.{get, active_addr}
use r2n.Dataplane.Sealing.{Cipher}
use r2n.Dataplane.Node.{Env, completed, Node, send_to_peer}
use r2n.Dataplane.Node.Sending.{sent_header}
use r2n.Discovery.{default_config}
use r2n.Dataplane.Node.Outgoing.{TunSide, tun_packet}
use r2n.Dataplane.Node.Outgoing.Denied.{tun_packet-denied}
use r2n.Dataplane.Node.Probing.{ping_tick}
use r2n.Dataplane.Node.Delivery.{receive_datagram, receive_datagram-send_to_peer}

abbrev env : Env
env = record {
  floats = thousandths;
  queues = list_queue;
  packets = small_packets;
  parse = λ bytes. none;
  profile = release;
  sends = λ target frame. true;
  writes = λ packet. true;
  to_float = λ rtt. rtt;
}

abbrev peer_at : ℕ → DataPeer thousandths Cipher
peer_at node_id = record {
  info = record { node_id = node_id; virtual_ip = 3; nickname = "peer"; public_key = 5 };
  path_manager = new_paths thousandths 0 10;
  cipher = some (record { aead = open_aead; window = new_window });
  session_id = 4;
  next_nonce = 1;
}

abbrev slots : List (List ℕ)
slots = replicate 2 (replicate 1600 0)

-- A node that knows one peer.
abbrev node_with : ℕ → ℕ → Node env
node_with local_node_id peer = record {
  incoming = record {
    local_node_id = local_node_id;
    room_id = some 9;
    seen_flood = new_seen;
    metrics = new_metrics;
  };
  plane = record { peers = (peer, peer_at peer) ∷ []; mac_table = [] };
  slab = record { slots = slots; free = (0 ∷ 1 ∷ [], 2); headroom = 128 };
  scheduler = Qos.new 8;
  next_packet_id = 1;
  traffic_policy = default_policy small_packets;
  has_tun = true;
  sent = [];
  written = [];
}

abbrev packet : List ℕ
packet = 1 ∷ 2 ∷ 3 ∷ 4 ∷ []

abbrev sent_frame : List ℕ
sent_frame =
    header_bytes (sent_header env 100 9 (peer_at 200) ipv4 20) ++ (packet ++ replicate 16 0)

receive_datagram-send_to_peer_example :
    (t : Node env) × (u : Node env) × (send_to_peer env 200
        (peer_at 200)
        ipv4
        packet
        none
        false
        (node_with 100 200)
      ≡ (completed, t))
    × (t.sent ≡ (10, sent_frame) ∷ [])
    × (receive_datagram env (λ bytes. none) 7 60 sent_frame (node_with 200 100)
        ≡ some (completed, u))
    × (u.written ≡ packet ∷ [])
unfolding lookup acquire get_slot_slice check_replay_window advance_replay_window new_paths allows
    decision packet_meta decision_for_meta first_action set_bit test_bit active_addr get
receive_datagram-send_to_peer_example =
    receive_datagram-send_to_peer env env 200 none 10 9 7 60 (peer_at 200)
      (record { aead = open_aead; window = new_window }) ipv4 packet (node_with 100 200)
      (record { slot = 0; data_offset = 0; payload_offset = 128; len = 0; class = bulk })
      (record { slots = slots; free = (1 ∷ [], 2); headroom = 128 }) (replicate 1600 0) packet
      (replicate 16 0) (peer_at 100) new_window (record { last_nonce = 1; bitmap = 1 })
      (node_with 200 100) (λ bytes. none)
      (record {
        version_u8 = omega arith;
        flags_u8 = omega arith;
        reserved_u8 = omega arith;
        ttl_u8 = omega arith;
        room_id_array = omega arith;
        src_node_array = omega arith;
        dst_node_array = omega arith;
        origin_node_array = omega arith;
        session_id_u64 = omega arith;
        nonce_u64 = omega arith;
        packet_id_u64 = omega arith;
        payload_len_u16 = omega arith;
      })
      refl (omega arith) refl refl refl (omega (arith, length-replicate {A = ℕ} 1600 0)) refl
      open_aead-IsCorrect refl (inr (refl, refl)) refl refl (omega arith) refl refl refl refl refl
      refl refl refl

abbrev side : TunSide
side = record { is_tap = false; tun_mtu = 1280; discovery = default_config; parse = λ bytes. none }

abbrev closed : Node env
closed = record (node_with 100 200) {
  traffic_policy = record { enabled = true; default_action = deny; rules = [] };
}

deny_all : (out : List ℕ) → allows small_packets closed.traffic_policy outbound out ≡ false
unfolding allows decision packet_meta decision_for_meta first_action
deny_all out = go (packet_meta small_packets out)
  where
    go :
        (r : Result PolicyError (PacketMeta small_packets))
        → action_eq (decide small_packets closed.traffic_policy outbound r) allow ≡ false
    go (ok meta) = refl
    go (err e) = refl

tun_packet-denied_example : (tun_packet env side 7 true packet closed).1.sent ≡ []
tun_packet-denied_example =
    tun_packet-denied env side 7 true packet closed (λ e. cc) (λ l d out e. deny_all out)

-- Without a room nothing is pinged.
no_room :
    let outside = record (node_with 100 200) {
      incoming = record (node_with 100 200).incoming { room_id = none };
    } in
    ping_tick env 7 5 outside ≡ (5, (completed, outside))
unfolding ping_tick
no_room = refl
