-- ===== src/Dataplane/Incoming/Tests.antt =====
-- The theorems on received headers at concrete frames.
use r2n.Common.{ℕ, ◌≡◌, ◌↔◌, refl, true, false, some, List, [], ◌∷◌, arith, length}
use r2n.Proto.{DataHeader, ethernet, ipv4, broadcast}
use r2n.Observability.{new as new_metrics, mark_packet_drop}
use r2n.Dataplane.Flood.{new, insert_if_new, prune, trim, expire}
use r2n.Dataplane.Incoming.{Incoming, validate_incoming_header}
use r2n.Dataplane.Incoming.Checks.{Accepts, validate_incoming_header-iff-Accepts}
use r2n.Dataplane.Incoming.Replay.{validate_all, validate_incoming_header_twice}

abbrev header : DataHeader
header = record {
  version = 2;
  flags = 0;
  packet_type = ethernet;
  reserved = 0;
  ttl = 1;
  room_id = 9;
  src_node = 20;
  dst_node = 0;
  origin_node = 20;
  session_id = 5;
  nonce = 1;
  packet_id = 77;
  payload_len = 100;
}

abbrev node : Incoming
node = record { local_node_id = 10; room_id = some 9; seen_flood = new; metrics = new_metrics }

abbrev frames : List (ℕ × DataHeader)
frames =
    (2_000_000_000, record header { packet_id = 78 })
    ∷ (3_000_000_000, record header { packet_type = ipv4; dst_node = 10 })
    ∷ []

-- A header of another room is counted as a drop of its sender.
other_room :
    validate_incoming_header 0 (record header { room_id = 8 }) node
    ≡ (false, record node { metrics = mark_packet_drop (some 20) new_metrics })
unfolding validate_incoming_header
other_room = refl

validate_incoming_header-iff-Accepts_example :
    ((validate_incoming_header 1_000_000_000 header node).0 ≡ true)
    ↔ Accepts 1_000_000_000 header node
validate_incoming_header-iff-Accepts_example =
    validate_incoming_header-iff-Accepts 1_000_000_000 header node

few : length frames ≡ 2
few = refl

-- The same packet comes back as a broadcast with another sender.
validate_incoming_header_twice_example :
    (validate_incoming_header 31_000_000_000
      (record header { packet_type = broadcast; src_node = 30 })
      (validate_all (validate_incoming_header 1_000_000_000 header node).1 frames)).0
    ≡ false
unfolding validate_incoming_header insert_if_new prune trim expire new
validate_incoming_header_twice_example =
    validate_incoming_header_twice 1_000_000_000 31_000_000_000 header
      (record header { packet_type = broadcast; src_node = 30 }) node frames
      (record { distinct = tt; same = λ k. refl }) refl refl refl refl refl (omega (arith, few))
      (omega arith, (omega arith, tt)) (omega arith)
