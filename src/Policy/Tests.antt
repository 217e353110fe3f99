-- ===== src/Policy/Tests.antt =====
-- A parser for packets of a few bytes, and the theorems at concrete inputs.
use r2n.Common.{ℕ, ◌≡◌, ◌↔◌, refl, true, false, Option, none, some, List, [], ◌∷◌, leb, ok, err}
use r2n.Policy.{
  allow, deny, inbound, outbound, both, tcp, TransportSlice, tcp_slice, PolicyError, Packets,
  TrafficRule, TrafficPolicy, PacketMeta, packet_meta, decision, matches, first_action,
  decision_for_meta, allows, default_policy, contains, direction_matches,
}
use r2n.Policy.Matching.{Fits, matches-iff-Fits}
use r2n.Policy.Deciding.{Decides, decision_cases, decision-active}

-- A source, a destination and two ports, for TCP; a network holds the addresses from 10 on.
abbrev four_bytes : List ℕ → Option (Option (ℕ × ℕ) × Option TransportSlice)
four_bytes (a ∷ b ∷ p ∷ q ∷ []) = some (some (a, b), some (tcp_slice p q))
four_bytes _ = none

abbrev pub small_packets : Packets
small_packets = record {
  IpAddr = ℕ;
  IpNet = ℕ;
  net_contains = λ n a. leb n a;
  from_ip = four_bytes;
}

abbrev web : TrafficRule small_packets
web = record {
  id = "web";
  enabled = true;
  action = deny;
  direction = both;
  src_cidr = none;
  dst_cidr = some 10;
  protocol = tcp;
  src_ports = [];
  dst_ports = record { start = 80; end = 90 } ∷ [];
  description = none;
}

abbrev policy : TrafficPolicy small_packets
policy = record {
  enabled = true;
  default_action = allow;
  rules = (record web { enabled = false }) ∷ web ∷ [];
}

abbrev packet : List ℕ
packet = 3 ∷ 12 ∷ 5000 ∷ 84 ∷ []

abbrev meta : PacketMeta small_packets
meta = record { src = 3; dst = 12; protocol = tcp; src_port = some 5000; dst_port = some 84 }

policy_denies : decision small_packets policy outbound packet ≡ deny
unfolding decision decision_for_meta first_action matches packet_meta contains direction_matches
policy_denies = refl

default_allows : allows small_packets (default_policy small_packets) inbound packet ≡ true
unfolding allows decision packet_meta decision_for_meta first_action
default_allows = refl

matches-iff-Fits_example :
    (matches small_packets web outbound meta ≡ true) ↔ Fits small_packets web outbound meta
matches-iff-Fits_example = matches-iff-Fits small_packets web outbound meta

decision_cases_example :
    (policy.enabled ≡ false → decision small_packets policy outbound packet ≡ allow)
    × (policy.enabled ≡ true
        → (e : PolicyError) → packet_meta small_packets packet ≡ err e
        → decision small_packets policy outbound packet ≡ allow)
    × (policy.enabled ≡ true
        → (m : PacketMeta small_packets) → packet_meta small_packets packet ≡ ok m
        → Decides small_packets policy.rules allow outbound m
            (decision small_packets policy outbound packet))
decision_cases_example = decision_cases small_packets policy outbound packet

decision-active_example :
    decision small_packets (record policy { rules = web ∷ [] }) outbound packet
    ≡ decision small_packets policy outbound packet
decision-active_example = decision-active small_packets policy outbound packet
