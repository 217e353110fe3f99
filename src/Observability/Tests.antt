-- ===== src/Observability/Tests.antt =====
-- The theorems on pings at concrete events.
use r2n.Common.{◌≡◌, ◌≤◌, refl, true, false, none, some, List, [], ◌∷◌, arith, length}
use r2n.Common.Maps.{lookup, insert, remove}
use r2n.Proto.{ethernet}
use r2n.Observability.{
  PeerCounters, new, new_counters, direct, record_pong_received, record_ping_sent, push_window,
  mark_handshake, mark_discovery_packet, update_rtt, set_port_mapping_status,
}
use r2n.Observability.Pings.{Event, pings, pongs, times_out, hit, run, run-new_windows}
use r2n.Observability.Settled.{run_settled}

abbrev events : List Event
events = pings 0 7 1 50 true ∷ pongs 30_000_000 7 1 ∷ pings 0 7 2 50 true ∷ []

abbrev answered : PeerCounters
answered = record new_counters {
  last_rtt_ms = some 30;
  pending_pings = (2, record { addr = 50; sent_at = 0; is_active = true }) ∷ [];
  ping_window = true ∷ [];
}

run-new_windows_example : length answered.ping_window ≤ 20
unfolding run record_pong_received record_ping_sent push_window lookup insert remove
run-new_windows_example = run-new_windows events 7 answered refl

-- The second ping times out; its late answer counts for nothing.
run_settled_example :
    (record_pong_received 9_000_000_000 7 2
      (run (run new events) (times_out 3_000_000_000 2_000_000_000 ∷ hit 7 direct ∷ []))).0
    ≡ none
unfolding run record_pong_received record_ping_sent push_window lookup insert remove
run_settled_example =
    run_settled 7 2 9_000_000_000 (run new events) (times_out 3_000_000_000 2_000_000_000)
      (hit 7 direct ∷ []) (record { addr = 50; sent_at = 0; is_active = true }, refl, omega arith)
      (tt, tt)

-- Counters that no ping touches.
counted :
    (mark_handshake 7 false (
      mark_discovery_packet ethernet
        (set_port_mapping_status true none none none new))).l2_flood_packets
    ≡ 1
unfolding mark_handshake mark_discovery_packet set_port_mapping_status
counted = refl

rtt_written :
    (lookup 7 (update_rtt 7 (some 4) new).peers)
    ≡ some (record new_counters { last_rtt_ms = some 4 })
unfolding update_rtt lookup insert
rtt_written = refl
