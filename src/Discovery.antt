-- ===== src/Discovery.antt =====
-- crates/r2n-discovery/src/lib.rs: which packets go to the whole room. An IPv4 address is a number.
-- The parser of the IP header (etherparse) is the parameter `parse`: the source and the destination
-- of an IPv4 packet. The rate limiter is left out.
pub mod Groups
mod Tests
use r2n.Common.{
  ℕ, ◌+◌, ◌-◌, ◌*◌, ◌/◌, ◌%◌, ◌^◌, ◌≡◌, Bool, true, false, not, ◌&&◌, ◌||◌, Option, none, some,
  List, [], ◌∷◌, ◌++◌, length, get_or, ltb, leb, ◌==◌, if◌then◌else◌,
}
use Prim.Native.String.{String}
use r2n.Common.Words.{from_be}
use r2n.Proto.{DataPacketType, broadcast, multicast, slice}

pub record DiscoveryConfig : Type 0 where
  pub allows_broadcast : Bool
  pub subnet_broadcast : Bool
  pub allows_multicast : Bool
  pub mdns : Bool
  pub ssdp : Bool
  pub netbios : Bool
  pub rate_limit_pps : ℕ

abbrev pub default_config : DiscoveryConfig
default_config = record {
  allows_broadcast = true;
  subnet_broadcast = true;
  allows_multicast = true;
  mdns = true;
  ssdp = true;
  netbios = false;
  rate_limit_pps = 100;
}

abbrev pub route_cidrs : DiscoveryConfig → List String
route_cidrs config =
    (if config.allows_multicast || (config.mdns || config.ssdp) then "224.0.0.0/4" ∷ [] else [])
    ++ (if config.allows_broadcast || config.netbios then "255.255.255.255/32" ∷ [] else [])

pub udp_destination_port : List ℕ → Option ℕ
udp_destination_port packet =
    let header_len = get_or packet 0 0 % 16 * 4 in
    if ltb (length packet) 20 || not (get_or packet 0 0 / 16 == 4)
    then none
    else if ltb header_len 20
        || (ltb (length packet) (header_len + 4) || not (get_or packet 9 0 == 17))
    then none
    else some (from_be (slice (header_len + 2) (header_len + 4) packet))

abbrev pub is_port : ℕ → Option ℕ → Bool
is_port port none = false
is_port port (some p) = p == port

abbrev pub is_limited_broadcast : ℕ → Bool
is_limited_broadcast dest = dest == 2 ^ 32 - 1

-- The last byte is 255 and the first three are the source's, or the last two and the first two.
abbrev pub is_subnet_broadcast : ℕ → ℕ → Bool
is_subnet_broadcast src dest =
    ((dest % 2 ^ 8 == 255) && (dest / 2 ^ 8 == src / 2 ^ 8))
    || ((dest % 2 ^ 16 == 65535) && (dest / 2 ^ 16 == src / 2 ^ 16))

abbrev pub classify_ipv4 : DiscoveryConfig → Option ℕ → ℕ → ℕ → Option DataPacketType
classify_ipv4 config udp_dst_port src dest =
    if config.mdns && ((dest == 0xe00000fb) && is_port 5353 udp_dst_port)
    then some multicast
    else if config.ssdp && ((dest == 0xeffffffa) && is_port 1900 udp_dst_port)
    then some multicast
    else if config.netbios
        && ((is_limited_broadcast dest || is_subnet_broadcast src dest)
            && (is_port 137 udp_dst_port || is_port 138 udp_dst_port))
    then some broadcast
    else if config.allows_broadcast && is_limited_broadcast dest
    then some broadcast
    else if config.subnet_broadcast && is_subnet_broadcast src dest
    then some broadcast
    else if config.allows_multicast && (leb 224 (dest / 2 ^ 24) && leb (dest / 2 ^ 24) 239)
    then some multicast
    else none

abbrev pub classify_parsed : DiscoveryConfig → List ℕ → Option (ℕ × ℕ) → Option DataPacketType
classify_parsed config packet none = none
classify_parsed config packet (some (src, dest)) =
    classify_ipv4 config (udp_destination_port packet) src dest

pub classify_packet_with_config :
    (List ℕ → Option (ℕ × ℕ)) → List ℕ → DiscoveryConfig → Option DataPacketType
classify_packet_with_config parse packet config = classify_parsed config packet (parse packet)
