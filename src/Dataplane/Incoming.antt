-- ===== src/Dataplane/Incoming.antt =====
-- crates/r2n-dataplane/src/lib.rs, validate_incoming_header: whether a received header is taken.
-- The drops go to the node's metrics.
pub mod Checks
pub mod Replay
mod Tests
use r2n.Common.{
  ℕ, ◌≡◌, Bool, true, false, not, ◌&&◌, ◌||◌, Option, none, some, List, [], ◌∷◌, ◌==◌,
  if◌then◌else◌,
}
use r2n.Proto.{DataHeader, protocol_version}
use r2n.Dataplane.Frames.{header_is_flood}
use r2n.Observability.{MetricsRegistry, mark_packet_drop}
use r2n.Dataplane.Flood.{SeenFloodPackets, insert_if_new}

pub record Incoming : Type 0 where
  pub local_node_id : ℕ
  pub room_id : Option ℕ
  pub seen_flood : SeenFloodPackets
  pub metrics : MetricsRegistry

abbrev pub drop_packet : DataHeader → Incoming → Bool × Incoming
drop_packet header s =
    (false, record s { metrics = mark_packet_drop (some header.src_node) s.metrics })

abbrev pub flood_result : DataHeader → Incoming → Bool × SeenFloodPackets → Bool × Incoming
flood_result header s (true, seen) = (true, record s { seen_flood = seen })
flood_result header s (false, seen) = drop_packet header (record s { seen_flood = seen })

abbrev pub in_room : ℕ → DataHeader → Incoming → Option ℕ → Bool × Incoming
in_room now header s none = (false, s)
in_room now header s (some room_id) =
    if not (header.version == protocol_version) || not (header.room_id == room_id)
    then drop_packet header s
    else if (header.src_node == s.local_node_id) || (header.origin_node == s.local_node_id)
    then drop_packet header s
    else if not (header_is_flood header) && not (header.dst_node == s.local_node_id)
    then drop_packet header s
    else if not (header_is_flood header)
    then (true, s)
    else if (header.ttl == 0) || (header.packet_id == 0)
    then drop_packet header s
    else flood_result header s
        (insert_if_new now (header.origin_node, header.packet_id) s.seen_flood)

pub validate_incoming_header : ℕ → DataHeader → Incoming → Bool × Incoming
validate_incoming_header now header s = in_room now header s s.room_id
