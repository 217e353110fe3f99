-- ===== src/Discovery/Tests.antt =====
-- Packets of the source's tests, and the theorem at one of them.
use r2n.Common.{
  ℕ, ◌/◌, ◌^◌, ◌<◌, ◌≡◌, ◌⊎◌, refl, Option, ◌==◌, if◌then◌else◌, true, false, ◌||◌, none, some,
  List, [], ◌∷◌, ◌++◌, replicate,
}
use r2n.Common.Words.{from_be}
use r2n.Proto.{multicast}
use r2n.Discovery.{
  DiscoveryConfig, default_config, classify_packet_with_config, is_limited_broadcast,
  is_subnet_broadcast, udp_destination_port,
}
use r2n.Discovery.Groups.{Sound, classify_packet_with_config-Sound}

-- A UDP packet to a port; the addresses come from the parser.
abbrev udp_packet : ℕ → ℕ → List ℕ
udp_packet hi lo = (0x45 ∷ replicate 8 0) ++ (17 ∷ replicate 12 0 ++ (hi ∷ lo ∷ []))

abbrev home : ℕ
home = 0x0a4d0005

abbrev mdns_only : DiscoveryConfig
mdns_only = record default_config { allows_multicast = false }

mdns_known :
    classify_packet_with_config (λ p. some (home, 0xe00000fb)) (udp_packet 20 233) mdns_only
    ≡ some multicast
unfolding classify_packet_with_config udp_destination_port from_be
mdns_known = refl

other_group :
    classify_packet_with_config (λ p. some (home, 0xe0000001)) (udp_packet 20 233) mdns_only ≡ none
unfolding classify_packet_with_config udp_destination_port from_be
other_group = refl

-- A parser that reads fixed addresses of a packet that begins as an IPv4 one.
abbrev parse_short : List ℕ → Option (ℕ × ℕ)
parse_short [] = none
parse_short (b ∷ bytes) = if b == 0x45 then some (home, 0xe00000fb) else none

classify_packet_with_config-Sound_example :
    (parse_short (udp_packet 20 233) ≡ none
      → classify_packet_with_config parse_short (udp_packet 20 233) default_config ≡ none)
    × ((src dest : ℕ)
        → parse_short (udp_packet 20 233) ≡ some (src, dest)
        → Sound src dest
            (classify_packet_with_config parse_short (udp_packet 20 233) default_config)
          × (true ≡ true
              → true ≡ true
              → true ≡ true
              → classify_packet_with_config parse_short (udp_packet 20 233) default_config ≡ none
              → ((is_limited_broadcast dest || is_subnet_broadcast src dest) ≡ false)
                × ((dest / 2 ^ 24 < 224) ⊎ (239 < dest / 2 ^ 24))))
classify_packet_with_config-Sound_example =
    classify_packet_with_config-Sound parse_short (udp_packet 20 233) default_config
