-- ===== src/Dataplane/Node/Outgoing.antt =====
-- crates/r2n-dataplane/src/lib.rs, run_tun_loop: what is done with a packet that the tunnel gives.
-- The answer of the rate limiter is an argument.
pub mod Denied
use r2n.Common.{
  ℕ, ◌+◌, ◌%◌, ◌^◌, ◌≡◌, refl, Bool, true, false, not, ◌&&◌, Option, none, some, List, [], ◌∷◌,
  ◌++◌, length, get_or, any, ltb, leb, if◌then◌else◌, ◌==◌, ◌/◌,
}
use r2n.Common.Maps.{lookup}
use r2n.Common.Bits.{test_bit}
use r2n.Common.Words.{from_be}
use r2n.Proto.{DataPacketType, ipv4, ethernet, slice}
use r2n.Policy.{outbound}
use r2n.Observability.{mark_discovery_packet}
use r2n.Discovery.{DiscoveryConfig, classify_packet_with_config}
use r2n.Dataplane.Frames.{FrameMode, l2, l3, policy_allows}
use r2n.Dataplane.Defense.{
  Clamping, out_of_rounds, crashed, clamping, clamp_mss, build_icmp_frag_needed,
}
use r2n.Dataplane.Table.{DataPlane, DataPeer, PacketTarget, select_targets}
use r2n.Dataplane.Sealing.{Cipher}
use r2n.Dataplane.Node.{Env, Ending, completed, errored, Node, count_drop, send_to_peer}
use r2n.Dataplane.Node

-- The device's mode, and what the loop reads besides the node.
pub record TunSide : Type 0 where
  pub is_tap : Bool
  pub tun_mtu : ℕ
  pub discovery : DiscoveryConfig
  -- The source and the destination of an IPv4 packet.
  pub parse : List ℕ → Option (ℕ × ℕ)

abbrev pub destination : Option (ℕ × ℕ) → Option ℕ
destination none = none
destination (some (src, dest)) = some dest

abbrev pub type_or_ipv4 : Option DataPacketType → DataPacketType
type_or_ipv4 none = ipv4
type_or_ipv4 (some t) = t

-- An IPv4 packet longer than the MTU that must not be fragmented.
abbrev pub is_too_long : ℕ → List ℕ → Bool
is_too_long mtu packet =
    (ltb mtu (length packet) && (leb 20 (length packet) && (get_or packet 0 0 / 16 == 4)))
    && test_bit (from_be (slice 6 8 packet)) 14

module _ (env : Env) (side : TunSide) where
  open env use {floats, packets, writes}

  -- An error of the send is ignored.
  abbrev pub answer_icmp : Node env → Option (Option (List ℕ)) → Ending × Node env
  answer_icmp s none = (Node.crashed, s)
  answer_icmp s (some none) = (completed, s)
  answer_icmp s (some (some icmp)) =
      if writes icmp
      then (completed, record s { written = s.written ++ (icmp ∷ []) })
      else (completed, s)

  -- An error of one send is counted, and the others go on.
  abbrev pub counted : Ending × Node env → Ending × Node env
  counted (completed, s) = (completed, s)
  counted (errored, s) = (completed, count_drop env none s)
  counted (Node.crashed, s) = (Node.crashed, s)

  abbrev pub send_target :
      DataPacketType
      → List ℕ
      → PacketTarget
      → Node env
      → Option (DataPeer floats Cipher)
      → Ending × Node env
  send_target packet_type payload target s none = (completed, s)
  send_target packet_type payload target s (some peer) =
      counted (send_to_peer env target.peer peer packet_type payload none target.flood s)

  abbrev pub send_targets :
      DataPacketType → List ℕ → List PacketTarget → Ending × Node env → Ending × Node env
  send_targets packet_type payload [] result = result
  send_targets packet_type payload (target ∷ targets) (completed, s) =
      send_targets packet_type payload targets
        (send_target packet_type payload target s (lookup target.peer s.plane.peers))
  send_targets packet_type payload (target ∷ targets) result = result

  abbrev pub flooded : DataPacketType → Node env → Node env
  flooded packet_type s = record s {
    incoming = record s.incoming { metrics = mark_discovery_packet packet_type s.incoming.metrics };
  }

  abbrev pub to_targets :
      Bool
      → DataPacketType
      → List ℕ
      → Node env
      → List PacketTarget × DataPlane floats Cipher
      → Ending × Node env
  to_targets allow_broadcast packet_type payload s (targets, plane) =
      let t = record s { plane = plane } in
      let floods = any (λ (target : PacketTarget). target.flood) targets in
      if floods && not allow_broadcast
      then (completed, t)
      else send_targets packet_type payload targets
          (completed, if floods then flooded packet_type t else t)

  abbrev pub outgoing :
      ℕ → Bool → FrameMode → DataPacketType → List ℕ → Node env → Ending × Node env
  outgoing now allow_broadcast mode packet_type payload s =
      if not (policy_allows packets s.traffic_policy mode outbound payload)
      then (completed, count_drop env none s)
      else to_targets allow_broadcast packet_type payload s (
          select_targets floats Cipher (λ p. destination (side.parse p)) now mode packet_type
            payload s.plane)

  abbrev pub clamped : ℕ → Bool → Node env → Clamping → Ending × Node env
  clamped now allow_broadcast s (clamping changed payload) =
      outgoing now allow_broadcast l3
        (type_or_ipv4 (classify_packet_with_config side.parse payload side.discovery)) payload s
  clamped now allow_broadcast s _ = (Node.crashed, s)

  -- One round of the loop, with the packet that was read.
  pub tun_packet : ℕ → Bool → List ℕ → Node env → Ending × Node env
  tun_packet now allow_broadcast payload s =
      if side.is_tap
      then outgoing now allow_broadcast l2 ethernet payload s
      else if is_too_long side.tun_mtu payload
      then answer_icmp s (build_icmp_frag_needed payload (side.tun_mtu % 2 ^ 16))
      else clamped now allow_broadcast s (clamp_mss payload side.tun_mtu)
