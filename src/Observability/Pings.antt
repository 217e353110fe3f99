-- ===== src/Observability/Pings.antt =====
-- A ping is settled once, and the window of outcomes has at most 20 entries.
use r2n.Common.{
  ℕ, ◌≤◌, ◌≡◌, refl, Bool, true, false, Option, none, some, List, [], ◌∷◌, ◌++◌, arith, All, length,
  length-append, ltb, if_cases,
}
use r2n.Common.Maps.{Map, lookup, All-insert, All-lookup}
use r2n.Observability.{
  Ping, PeerCounters, MetricsRegistry, new, counters_of, or_new, set_counters, mark_handshake,
  mark_path_hit, mark_packet_drop, mark_discovery_packet, update_rtt, record_ping_sent, front_gone,
  push_window, push_if, pong, record_pong_received, forget, time_out_all, check_ping_timeouts,
  PathKind, direct, relay,
}
use r2n.Proto.{
  DataPacketType, ipv4, ipv6, broadcast, multicast, discovery, keepalive, ping, pong as pong_type,
  ethernet,
}

length-push_window :
    (answered : Bool) (window : List Bool)
    → length window ≤ 20
    → length (push_window answered window) ≤ 20
unfolding push_window
length-push_window answered window h =
    if_cases (λ (w : List Bool). length w ≤ 20) (ltb 20 (length (window ++ (answered ∷ []))))
      (λ _. short window h) (λ few. ground (arith, few))
  where
    short : (w : List Bool) → length w ≤ 20 → length (front_gone (w ++ (answered ∷ []))) ≤ 20
    short [] k = omega arith
    short (x ∷ w) k = omega (arith, length-append w (answered ∷ []))

length-push_if :
    (is_active answered : Bool) (window : List Bool)
    → length window ≤ 20
    → length (push_if is_active answered window) ≤ 20
length-push_if true answered window h = length-push_window answered window h
length-push_if false answered window h = h

forget-window :
    (pings : Map Ping) (c : PeerCounters)
    → length c.ping_window ≤ 20
    → length (forget pings c).ping_window ≤ 20
unfolding forget
forget-window [] c h = h
forget-window ((seq, p) ∷ pings) c h =
    forget-window pings _ (length-push_if p.is_active false c.ping_window h)

-- The window of every peer has at most 20 entries.
abbrev pub Windowed : Map PeerCounters → Type 0
Windowed = All (λ e. length e.1.ping_window ≤ 20)

Windowed-counters :
    (peer : ℕ) (m : MetricsRegistry)
    → Windowed m.peers
    → length (counters_of peer m).ping_window ≤ 20
Windowed-counters peer m h = go (lookup peer m.peers) refl
  where
    go : (o : Option PeerCounters) → lookup peer m.peers ≡ o → length (or_new o).ping_window ≤ 20
    go none e = omega arith
    go (some c) e = All-lookup (λ e. length e.1.ping_window ≤ 20) peer c m.peers h e

Windowed-set :
    (peer : ℕ) (c : PeerCounters) (m : MetricsRegistry)
    → length c.ping_window ≤ 20
    → Windowed m.peers
    → Windowed (set_counters peer c m).peers
Windowed-set peer c m h v = All-insert (λ e. length e.1.ping_window ≤ 20) peer c m.peers v h

time_out_all-Windowed :
    (now timeout : ℕ) (peers : Map PeerCounters)
    → Windowed peers
    → Windowed (time_out_all now timeout peers).1
unfolding time_out_all
time_out_all-Windowed now timeout [] h = tt
time_out_all-Windowed now timeout ((peer, c) ∷ peers) h =
    (forget-window _ c h.0, time_out_all-Windowed now timeout peers h.1)

-- What the node tells the registry, with the time where it matters.
pub data Event : Type 0 where
  handshake : ℕ → Bool → Event
  hit : ℕ → PathKind → Event
  drops : Option ℕ → Event
  discovers : DataPacketType → Event
  measures : ℕ → Option ℕ → Event
  pings : ℕ → ℕ → ℕ → ℕ → Bool → Event
  pongs : ℕ → ℕ → ℕ → Event
  times_out : ℕ → ℕ → Event

abbrev pub event : MetricsRegistry → Event → MetricsRegistry
event m (handshake peer success) = mark_handshake peer success m
event m (hit peer path) = mark_path_hit peer path m
event m (drops peer) = mark_packet_drop peer m
event m (discovers packet_type) = mark_discovery_packet packet_type m
event m (measures peer rtt_ms) = update_rtt peer rtt_ms m
event m (pings now peer seq addr is_active) = record_ping_sent now peer seq addr is_active m
event m (pongs now peer seq) = (record_pong_received now peer seq m).1
event m (times_out now timeout) = (check_ping_timeouts now timeout m).1

unfoldable pub run : MetricsRegistry → List Event → MetricsRegistry
run m [] = m
run m (e ∷ es) = run (event m e) es

pub discovery-peers :
    (packet_type : DataPacketType) (m : MetricsRegistry)
    → (mark_discovery_packet packet_type m).peers ≡ m.peers
unfolding mark_discovery_packet
discovery-peers broadcast m = refl
discovery-peers ipv4 m = refl
discovery-peers ipv6 m = refl
discovery-peers multicast m = refl
discovery-peers discovery m = refl
discovery-peers keepalive m = refl
discovery-peers ping m = refl
discovery-peers pong_type m = refl
discovery-peers ethernet m = refl

event-Windowed : (m : MetricsRegistry) (e : Event) → Windowed m.peers → Windowed (event m e).peers
unfolding mark_handshake mark_path_hit mark_packet_drop update_rtt record_ping_sent
    record_pong_received check_ping_timeouts
event-Windowed m (handshake peer true) v = Windowed-set peer _ m (Windowed-counters peer m v) v
event-Windowed m (handshake peer false) v = Windowed-set peer _ m (Windowed-counters peer m v) v
event-Windowed m (hit peer direct) v = Windowed-set peer _ m (Windowed-counters peer m v) v
event-Windowed m (hit peer relay) v = Windowed-set peer _ m (Windowed-counters peer m v) v
event-Windowed m (drops none) v = v
event-Windowed m (drops (some peer)) v = Windowed-set peer _ m (Windowed-counters peer m v) v
event-Windowed m (discovers packet_type) v = rw (discovery-peers packet_type m) v
event-Windowed m (measures peer rtt_ms) v = Windowed-set peer _ m (Windowed-counters peer m v) v
event-Windowed m (pings now peer seq addr is_active) v =
    Windowed-set peer _ m (Windowed-counters peer m v) v
event-Windowed m (pongs now peer seq) v = go (lookup seq (counters_of peer m).pending_pings)
  where
    go : (o : Option Ping) → Windowed (pong now peer seq m o).1.peers
    go none = Windowed-set peer _ m (Windowed-counters peer m v) v
    go (some p) =
        Windowed-set peer _ m (length-push_if p.is_active true _ (Windowed-counters peer m v)) v
event-Windowed m (times_out now timeout) v = time_out_all-Windowed now timeout m.peers v

pub run-Windowed :
    (m : MetricsRegistry) (es : List Event) → Windowed m.peers → Windowed (run m es).peers
unfolding run
run-Windowed m [] v = v
run-Windowed m (e ∷ es) v = run-Windowed (event m e) es (event-Windowed m e v)

-- After anything that a new registry is told, the window of each peer's outcomes has at most 20
-- entries.
pub run-new_windows :
    (es : List Event) (peer : ℕ) (c : PeerCounters)
    → lookup peer (run new es).peers ≡ some c
    → length c.ping_window ≤ 20
run-new_windows es peer c e =
    All-lookup (λ e. length e.1.ping_window ≤ 20) peer c (run new es).peers (run-Windowed new es tt)
      e
