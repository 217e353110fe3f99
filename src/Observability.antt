-- ===== src/Observability.antt =====
-- crates/r2n-observability/src/lib.rs: MetricsRegistry, the counters of a node and of its peers, and
-- the pings that wait for an answer. Instants are nanoseconds; counters are u64.
pub mod Pings
pub mod Settled
mod Tests
use Prim.Native.String.{String}
use r2n.Common.{
  ℕ, suc, ◌+◌, ◌-◌, ◌/◌, ◌%◌, ◌^◌, ◌≤◌, ◌<◌, ◌≡◌, Bool, true, false, not, Option, none, some, List,
  [], ◌∷◌, ◌++◌, length, ltb, map, if◌then◌else◌,
}
use r2n.Common.Maps.{Map, lookup, insert, remove}
use r2n.Proto.{DataPacketType, broadcast, multicast, ethernet}

pub data PathKind : Type 0 where
  direct relay : PathKind

-- A ping that was sent: to where, when, and whether on the active path.
pub record Ping : Type 0 where
  pub addr : ℕ
  pub sent_at : ℕ
  pub is_active : Bool

pub record PeerCounters : Type 0 where
  pub path : PathKind
  pub last_rtt_ms : Option ℕ
  pub relay_hits : ℕ
  pub direct_hits : ℕ
  pub handshake_successes : ℕ
  pub handshake_failures : ℕ
  pub packet_drops : ℕ
  pub pending_pings : Map Ping
  pub ping_window : List Bool

pub record PortMappingMetrics : Type 0 where
  pub acquired : Bool
  pub protocol : Option String
  pub external_addr : Option String
  pub lease_expires_at : Option ℕ

pub record MetricsRegistry : Type 0 where
  pub handshake_successes : ℕ
  pub handshake_failures : ℕ
  pub relay_packets : ℕ
  pub direct_packets : ℕ
  pub packet_drops : ℕ
  pub broadcast_packets : ℕ
  pub multicast_packets : ℕ
  pub l2_flood_packets : ℕ
  pub port_mapping : PortMappingMetrics
  pub peers : Map PeerCounters

abbrev pub new : MetricsRegistry
new = record {
  handshake_successes = 0;
  handshake_failures = 0;
  relay_packets = 0;
  direct_packets = 0;
  packet_drops = 0;
  broadcast_packets = 0;
  multicast_packets = 0;
  l2_flood_packets = 0;
  port_mapping = record {
    acquired = false;
    protocol = none;
    external_addr = none;
    lease_expires_at = none;
  };
  peers = [];
}

abbrev pub new_counters : PeerCounters
new_counters = record {
  path = relay;
  last_rtt_ms = none;
  relay_hits = 0;
  direct_hits = 0;
  handshake_successes = 0;
  handshake_failures = 0;
  packet_drops = 0;
  pending_pings = [];
  ping_window = [];
}

-- `fetch_add(1)` of an AtomicU64.
abbrev pub bump : ℕ → ℕ
bump n = (n + 1) % 2 ^ 64

abbrev pub or_new : Option PeerCounters → PeerCounters
or_new none = new_counters
or_new (some c) = c

-- What `ensure_peer` returns.
abbrev pub counters_of : ℕ → MetricsRegistry → PeerCounters
counters_of peer m = or_new (lookup peer m.peers)

-- `ensure_peer` and a write to what it returns.
abbrev pub set_counters : ℕ → PeerCounters → MetricsRegistry → MetricsRegistry
set_counters peer c m = record m { peers = insert peer c m.peers }

pub mark_handshake : ℕ → Bool → MetricsRegistry → MetricsRegistry
mark_handshake peer true m =
    let c = counters_of peer m in
    set_counters peer (record c { handshake_successes = bump c.handshake_successes })
      (record m { handshake_successes = bump m.handshake_successes })
mark_handshake peer false m =
    let c = counters_of peer m in
    set_counters peer (record c { handshake_failures = bump c.handshake_failures })
      (record m { handshake_failures = bump m.handshake_failures })

pub mark_path_hit : ℕ → PathKind → MetricsRegistry → MetricsRegistry
mark_path_hit peer direct m =
    let c = counters_of peer m in
    set_counters peer (record c { path = direct; direct_hits = bump c.direct_hits })
      (record m { direct_packets = bump m.direct_packets })
mark_path_hit peer relay m =
    let c = counters_of peer m in
    set_counters peer (record c { path = relay; relay_hits = bump c.relay_hits })
      (record m { relay_packets = bump m.relay_packets })

pub mark_packet_drop : Option ℕ → MetricsRegistry → MetricsRegistry
mark_packet_drop none m = record m { packet_drops = bump m.packet_drops }
mark_packet_drop (some peer) m =
    let c = counters_of peer m in
    set_counters peer (record c { packet_drops = bump c.packet_drops })
      (record m { packet_drops = bump m.packet_drops })

pub mark_discovery_packet : DataPacketType → MetricsRegistry → MetricsRegistry
mark_discovery_packet broadcast m = record m { broadcast_packets = bump m.broadcast_packets }
mark_discovery_packet multicast m = record m { multicast_packets = bump m.multicast_packets }
mark_discovery_packet ethernet m = record m { l2_flood_packets = bump m.l2_flood_packets }
mark_discovery_packet _ m = m

pub update_rtt : ℕ → Option ℕ → MetricsRegistry → MetricsRegistry
update_rtt peer rtt_ms m =
    set_counters peer (record (counters_of peer m) { last_rtt_ms = rtt_ms }) m

pub set_port_mapping_status :
    Bool → Option String → Option String → Option ℕ → MetricsRegistry → MetricsRegistry
set_port_mapping_status acquired protocol external_addr lease_expires_at m = record m {
  port_mapping = record {
    acquired = acquired;
    protocol = protocol;
    external_addr = external_addr;
    lease_expires_at = lease_expires_at;
  };
}

pub record_ping_sent : ℕ → ℕ → ℕ → ℕ → Bool → MetricsRegistry → MetricsRegistry
record_ping_sent now peer seq addr is_active m =
    let c = counters_of peer m in
    let ping : Ping = record { addr = addr; sent_at = now; is_active = is_active } in
    set_counters peer (record c { pending_pings = insert seq ping c.pending_pings }) m

abbrev pub front_gone : List Bool → List Bool
front_gone [] = []
front_gone (w ∷ ws) = ws

-- `window.push_back(..)`, and `pop_front` where it then has more than 20 entries.
pub push_window : Bool → List Bool → List Bool
push_window answered window =
    let longer = window ++ (answered ∷ []) in
    if ltb 20 (length longer) then front_gone longer else longer

abbrev pub push_if : Bool → Bool → List Bool → List Bool
push_if is_active answered window = if is_active then push_window answered window else window

abbrev pub pong : ℕ → ℕ → ℕ → MetricsRegistry → Option Ping → Option (ℕ × ℕ) × MetricsRegistry
pong now peer seq m none = (none, set_counters peer (counters_of peer m) m)
pong now peer seq m (some ping) =
    let c = counters_of peer m in
    let rtt_ms = (now - ping.sent_at) / 1_000_000 % 2 ^ 32 in
    (
      some (ping.addr, rtt_ms),
      set_counters peer
          (record c {
            pending_pings = remove seq c.pending_pings;
            last_rtt_ms = some rtt_ms;
            ping_window = push_if ping.is_active true c.ping_window;
          })
          m,
    )

pub record_pong_received : ℕ → ℕ → ℕ → MetricsRegistry → Option (ℕ × ℕ) × MetricsRegistry
record_pong_received now peer seq m =
    pong now peer seq m (lookup seq (counters_of peer m).pending_pings)

-- The pings of a peer that were sent longer ago than `timeout`.
pub timed_out : ℕ → ℕ → Map Ping → Map Ping
timed_out now timeout [] = []
timed_out now timeout ((seq, ping) ∷ pings) =
    let rest = timed_out now timeout pings in
    if ltb timeout (now - ping.sent_at) then (seq, ping) ∷ rest else rest

-- The second loop over them.
pub forget : Map Ping → PeerCounters → PeerCounters
forget [] c = c
forget ((seq, ping) ∷ pings) c = forget pings (record c {
  pending_pings = remove seq c.pending_pings;
  ping_window = push_if ping.is_active false c.ping_window;
})

abbrev pub time_out_peer : ℕ → ℕ → PeerCounters → PeerCounters
time_out_peer now timeout c = forget (timed_out now timeout c.pending_pings) c

pub time_out_all : ℕ → ℕ → Map PeerCounters → List (ℕ × ℕ) × Map PeerCounters
time_out_all now timeout [] = ([], [])
time_out_all now timeout ((peer, c) ∷ peers) =
    let (lost, rest) = time_out_all now timeout peers in
    (
      map (λ e. (peer, e.1.addr)) (timed_out now timeout c.pending_pings) ++ lost,
      (peer, time_out_peer now timeout c) ∷ rest,
    )

pub check_ping_timeouts : ℕ → ℕ → MetricsRegistry → List (ℕ × ℕ) × MetricsRegistry
check_ping_timeouts now timeout m =
    let (lost, peers) = time_out_all now timeout m.peers in (lost, record m { peers = peers })
