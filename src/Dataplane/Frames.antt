-- ===== src/Dataplane/Frames.antt =====
-- crates/r2n-dataplane/src/lib.rs: the functions that read a frame. A MAC address is the number
-- that its six bytes spell.
use r2n.Common.{
  ℕ, ◌/◌, ◌%◌, ◌^◌, Bool, true, false, ◌||◌, Option, none, some, List, drop, length, ltb, ◌==◌,
  if◌then◌else◌,
}
use r2n.Common.Words.{from_be}
use r2n.Proto.{
  DataHeader, DataPacketType, ipv4, ipv6, broadcast, multicast, discovery, ethernet, slice,
}
use r2n.Policy.{Packets, TrafficPolicy, TrafficDirection, allows}
use r2n.Qos
use r2n.Slab

pub data FrameMode : Type 0 where
  l3 l2 : FrameMode

abbrev pub flood_type : DataPacketType → ℕ → Bool
flood_type broadcast ttl = true
flood_type multicast ttl = true
flood_type ethernet ttl = ltb 0 ttl
flood_type _ ttl = false

abbrev pub header_is_flood : DataHeader → Bool
header_is_flood header = flood_type header.packet_type header.ttl

-- The destination and the source.
unfoldable pub ethernet_macs : List ℕ → Option (ℕ × ℕ)
ethernet_macs frame =
    if ltb (length frame) 14
    then none
    else some (from_be (slice 0 6 frame), from_be (slice 6 12 frame))

abbrev pub ethernet_ip_payload : List ℕ → Option (List ℕ)
ethernet_ip_payload frame =
    if ltb (length frame) 14
    then none
    else let ether_type = from_be (slice 12 14 frame) in
      if (ether_type == 0x0800) || (ether_type == 0x86dd) then some (drop 14 frame) else none

abbrev pub is_broadcast_mac : ℕ → Bool
is_broadcast_mac mac = mac == 0xffffffffffff

-- `(mac[0] & 1) == 1`.
abbrev pub is_multicast_mac : ℕ → Bool
is_multicast_mac mac = ((mac / 2 ^ 40) % 2) == 1

module _ (packets : Packets) where
  abbrev allows_ip : TrafficPolicy packets → TrafficDirection → Option (List ℕ) → Bool
  allows_ip policy direction none = true
  allows_ip policy direction (some ip) = allows packets policy direction ip

  abbrev pub policy_allows : TrafficPolicy packets → FrameMode → TrafficDirection → List ℕ → Bool
  policy_allows policy l3 direction packet = allows packets policy direction packet
  policy_allows policy l2 direction packet = allows_ip policy direction (ethernet_ip_payload packet)

  abbrev pub policy_allows_packet_type :
      TrafficPolicy packets → DataPacketType → TrafficDirection → List ℕ → Bool
  policy_allows_packet_type policy ipv4 direction packet = allows packets policy direction packet
  policy_allows_packet_type policy ipv6 direction packet = allows packets policy direction packet
  policy_allows_packet_type policy broadcast direction packet =
      allows packets policy direction packet
  policy_allows_packet_type policy multicast direction packet =
      allows packets policy direction packet
  policy_allows_packet_type policy discovery direction packet =
      allows packets policy direction packet
  policy_allows_packet_type policy ethernet direction packet =
      allows_ip policy direction (ethernet_ip_payload packet)
  policy_allows_packet_type policy _ direction packet = true

abbrev pub map_class : Qos.TrafficClass → Slab.TrafficClass
map_class Qos.control = Slab.control
map_class Qos.realtime = Slab.realtime
map_class Qos.interactive = Slab.interactive
map_class Qos.bulk = Slab.bulk
