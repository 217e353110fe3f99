-- ===== src/Qos.antt =====
-- crates/r2n-qos/src/lib.rs: traffic classes and the scheduler's four queues, front first. The
-- header parser of the etherparse crate is a parameter.
pub mod Classes
pub mod Order
mod Tests
use r2n.Common.{
  ℕ, ◌+◌, ◌≤◌, ◌<◌, ◌≡◌, Bool, true, false, ◌&&◌, ◌||◌, Option, none, some, List, [], ◌∷◌, ◌++◌,
  length, get_or, ltb, leb, ◌==◌, if◌then◌else◌,
}
use r2n.Common.Bits.{test_bit}
use r2n.Proto.{
  DataPacketType, ipv4, ipv6, broadcast, multicast, discovery, keepalive, ping, pong, ethernet,
}

pub data TrafficClass : Type 0 where
  control realtime interactive bulk : TrafficClass

-- What `IpHeader::from_slice` gives: the protocol of an IPv4 header or the next header of an IPv6
-- one, and the bytes behind the header; `none` where it fails.
abbrev pub IpParser : Type 0
IpParser = List ℕ → Option (ℕ × List ℕ)

unfoldable pub is_syn : List ℕ → Bool
is_syn remainder = leb 14 (length remainder) && test_bit (get_or remainder 13 0) 1

abbrev pub classify_parsed : List ℕ → Option (ℕ × List ℕ) → TrafficClass
classify_parsed payload none = realtime
classify_parsed payload (some (protocol, remainder)) =
    if protocol == 1 || protocol == 58
    then control
    else if protocol == 17 && leb (length payload) 512
    then realtime
    else if protocol == 6
    then (if is_syn remainder then interactive else bulk)
    else interactive

pub classify_ip_packet : IpParser → List ℕ → TrafficClass
classify_ip_packet parse payload = classify_parsed payload (parse payload)

pub classify_packet : IpParser → DataPacketType → List ℕ → TrafficClass
classify_packet parse keepalive payload = control
classify_packet parse ping payload = control
classify_packet parse pong payload = control
classify_packet parse broadcast payload = realtime
classify_packet parse multicast payload = realtime
classify_packet parse discovery payload = realtime
classify_packet parse ethernet payload = realtime
classify_packet parse ipv4 payload = classify_ip_packet parse payload
classify_packet parse ipv6 payload = classify_ip_packet parse payload

pub record QosScheduler {ℓ} (T : Type ℓ) : Type ℓ where
  pub control_queue : List T
  pub realtime_queue : List T
  pub interactive_queue : List T
  pub bulk_queue : List T
  pub bulk_capacity : ℕ

module _ {ℓ} {T : Type ℓ} where
  unfoldable pub new : ℕ → QosScheduler T
  new bulk_capacity = record {
    control_queue = [];
    realtime_queue = [];
    interactive_queue = [];
    bulk_queue = [];
    bulk_capacity = bulk_capacity;
  }

  abbrev pub pop_front : List T → List T
  pop_front [] = []
  pop_front (x ∷ xs) = xs

  pub push : TrafficClass → T → QosScheduler T → QosScheduler T
  push control item q = record q { control_queue = q.control_queue ++ (item ∷ []) }
  push realtime item q = record q { realtime_queue = q.realtime_queue ++ (item ∷ []) }
  push interactive item q = record q { interactive_queue = q.interactive_queue ++ (item ∷ []) }
  push bulk item q =
      let kept =
        (if leb q.bulk_capacity (length q.bulk_queue)
          then pop_front q.bulk_queue
          else q.bulk_queue) in
      record q { bulk_queue = kept ++ (item ∷ []) }

  pop_lists : List T → List T → List T → List T → ℕ → Option (T × QosScheduler T)
  pop_lists (x ∷ c) r i b n = some (
    x,
    record {
      control_queue = c;
      realtime_queue = r;
      interactive_queue = i;
      bulk_queue = b;
      bulk_capacity = n;
    },
  )
  pop_lists [] (x ∷ r) i b n = some (
    x,
    record {
      control_queue = [];
      realtime_queue = r;
      interactive_queue = i;
      bulk_queue = b;
      bulk_capacity = n;
    },
  )
  pop_lists [] [] (x ∷ i) b n = some (
    x,
    record {
      control_queue = [];
      realtime_queue = [];
      interactive_queue = i;
      bulk_queue = b;
      bulk_capacity = n;
    },
  )
  pop_lists [] [] [] (x ∷ b) n = some (
    x,
    record {
      control_queue = [];
      realtime_queue = [];
      interactive_queue = [];
      bulk_queue = b;
      bulk_capacity = n;
    },
  )
  pop_lists [] [] [] [] n = none

  pub pop : QosScheduler T → Option (T × QosScheduler T)
  unfolding pop_lists
  pop q =
      pop_lists q.control_queue q.realtime_queue q.interactive_queue q.bulk_queue q.bulk_capacity
