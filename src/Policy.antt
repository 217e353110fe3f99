-- ===== src/Policy.antt =====
-- crates/r2n-policy/src/lib.rs: the traffic policy, a list of rules of which the first that matches
-- a packet decides. The packet parser (etherparse) and the test of an address against a network
-- (ipnet) are the parameter `Packets`.
pub mod Matching
pub mod Deciding
pub mod Tests
use Prim.Native.String.{String}
use r2n.Common.{
  ℕ, ◌≡◌, Bool, true, false, not, ◌&&◌, ◌||◌, Option, none, some, List, [], ◌∷◌, Result, ok, err,
  any, leb, if◌then◌else◌,
}

pub data TrafficAction : Type 0 where
  allow deny : TrafficAction

pub data TrafficDirection : Type 0 where
  inbound outbound both : TrafficDirection

pub data TrafficProtocol : Type 0 where
  any_protocol tcp udp icmp : TrafficProtocol

abbrev pub direction_eq : TrafficDirection → TrafficDirection → Bool
direction_eq inbound inbound = true
direction_eq outbound outbound = true
direction_eq both both = true
direction_eq _ _ = false

abbrev pub protocol_eq : TrafficProtocol → TrafficProtocol → Bool
protocol_eq any_protocol any_protocol = true
protocol_eq tcp tcp = true
protocol_eq udp udp = true
protocol_eq icmp icmp = true
protocol_eq _ _ = false

abbrev pub action_eq : TrafficAction → TrafficAction → Bool
action_eq allow allow = true
action_eq deny deny = true
action_eq _ _ = false

-- `TrafficDirection::matches`.
pub direction_matches : TrafficDirection → TrafficDirection → Bool
direction_matches rule actual = direction_eq rule both || direction_eq rule actual

pub record PortRange : Type 0 where
  pub start : ℕ
  pub end : ℕ

pub contains : PortRange → ℕ → Bool
contains r port = leb r.start port && leb port r.end

abbrev pub port_missing : List PortRange → Option ℕ → Bool
port_missing [] port = false
port_missing (r ∷ rs) none = true
port_missing (r ∷ rs) (some port) = not (any (λ range. contains range port) (r ∷ rs))

-- What etherparse makes of the transport header. `other` is any transport that the code does not
-- name.
pub data TransportSlice : Type 0 where
  tcp_slice udp_slice : ℕ → ℕ → TransportSlice
  icmpv4_slice icmpv6_slice other : TransportSlice

pub record Packets : Type 1 where
  pub IpAddr : Type 0
  pub IpNet : Type 0
  pub net_contains : IpNet → IpAddr → Bool
  -- `SlicedPacket::from_ip`: an error, or the addresses of an IPv4 or IPv6 header, if there is one,
  -- and the transport header, if there is one.
  pub from_ip : List ℕ → Option (Option (IpAddr × IpAddr) × Option TransportSlice)

abbrev pub transport_meta : Option TransportSlice → TrafficProtocol × Option ℕ × Option ℕ
transport_meta (some (tcp_slice src dst)) = (tcp, some src, some dst)
transport_meta (some (udp_slice src dst)) = (udp, some src, some dst)
transport_meta (some icmpv4_slice) = (icmp, none, none)
transport_meta (some icmpv6_slice) = (icmp, none, none)
transport_meta (some other) = (any_protocol, none, none)
transport_meta none = (any_protocol, none, none)

pub data PolicyError : Type 0 where
  unsupported_packet : PolicyError

module _ (packets : Packets) where
  open packets use {IpAddr, IpNet, net_contains}

  pub record TrafficRule : Type 0 where
    pub id : String
    pub enabled : Bool
    pub action : TrafficAction
    pub direction : TrafficDirection
    pub src_cidr : Option IpNet
    pub dst_cidr : Option IpNet
    pub protocol : TrafficProtocol
    pub src_ports : List PortRange
    pub dst_ports : List PortRange
    pub description : Option String

  pub record TrafficPolicy : Type 0 where
    pub enabled : Bool
    pub default_action : TrafficAction
    pub rules : List TrafficRule

  abbrev pub default_policy : TrafficPolicy
  default_policy = record { enabled = true; default_action = allow; rules = [] }

  pub record PacketMeta : Type 0 where
    pub src : IpAddr
    pub dst : IpAddr
    pub protocol : TrafficProtocol
    pub src_port : Option ℕ
    pub dst_port : Option ℕ

  abbrev pub meta_of :
      Option (Option (IpAddr × IpAddr) × Option TransportSlice) → Result PolicyError PacketMeta
  meta_of none = err unsupported_packet
  meta_of (some (none, transport)) = err unsupported_packet
  meta_of (some (some (src, dst), transport)) =
      let (protocol, src_port, dst_port) = transport_meta transport in
      ok (record {
        src = src;
        dst = dst;
        protocol = protocol;
        src_port = src_port;
        dst_port = dst_port;
      })

  unfoldable pub packet_meta : List ℕ → Result PolicyError PacketMeta
  packet_meta packet = meta_of (packets.from_ip packet)

  abbrev pub outside : Option IpNet → IpAddr → Bool
  outside none a = false
  outside (some cidr) a = not (net_contains cidr a)

  pub matches : TrafficRule → TrafficDirection → PacketMeta → Bool
  matches rule direction meta =
      if not rule.enabled || not (direction_matches rule.direction direction)
      then false
      else if not (protocol_eq rule.protocol any_protocol)
          && not (protocol_eq rule.protocol meta.protocol)
      then false
      else if outside rule.src_cidr meta.src
      then false
      else if outside rule.dst_cidr meta.dst
      then false
      else if port_missing rule.src_ports meta.src_port
      then false
      else if port_missing rule.dst_ports meta.dst_port
      then false
      else true

  -- `rules.iter().find(..).map(|rule| rule.action).unwrap_or(default)`.
  unfoldable pub first_action :
      List TrafficRule → TrafficAction → TrafficDirection → PacketMeta → TrafficAction
  first_action [] default_action direction meta = default_action
  first_action (rule ∷ rules) default_action direction meta =
      if matches rule direction meta
      then rule.action
      else first_action rules default_action direction meta

  unfoldable pub decision_for_meta : TrafficPolicy → TrafficDirection → PacketMeta → TrafficAction
  decision_for_meta policy direction meta =
      if not policy.enabled
      then allow
      else first_action policy.rules policy.default_action direction meta

  abbrev pub decide :
      TrafficPolicy → TrafficDirection → Result PolicyError PacketMeta → TrafficAction
  decide policy direction (err e) = policy.default_action
  decide policy direction (ok meta) = decision_for_meta policy direction meta

  unfoldable pub decision : TrafficPolicy → TrafficDirection → List ℕ → TrafficAction
  decision policy direction packet =
      if not policy.enabled then allow else decide policy direction (packet_meta packet)

  unfoldable pub allows : TrafficPolicy → TrafficDirection → List ℕ → Bool
  allows policy direction packet = action_eq (decision policy direction packet) allow
