-- ===== src/Policy/Matching.antt =====
-- When a rule matches a packet.
use r2n.Common.{
  ℕ, ◌≤◌, ◌≡◌, ◌↔◌, ◌⊎◌, inl, inr, refl, Bool, true, false, not, ◌&&◌, Option, none, some, List, [],
  ◌∷◌, arith, any, if◌then◌else◌,
}
use r2n.Policy.{
  TrafficDirection, inbound, outbound, both, TrafficProtocol, any_protocol, tcp, udp, icmp,
  protocol_eq, direction_matches, PortRange, contains, Packets, TrafficRule, PacketMeta, outside,
  port_missing, matches,
}

-- Some range of the list holds the port.
abbrev pub InSome : List PortRange → ℕ → Type 0
InSome [] port = ⊥
InSome (r ∷ rs) port = ((r.start ≤ port) × (port ≤ r.end)) ⊎ InSome rs port

-- A rule's port list admits a packet's port: the list is empty, or the packet has a port that lies
-- in one of its ranges.
abbrev pub PortFits : List PortRange → Option ℕ → Type 0
PortFits ranges port = (ranges ≡ []) ⊎ ((p : ℕ) × (port ≡ some p) × InSome ranges p)

any-InSome :
    (ranges : List PortRange) (p : ℕ) → (any (λ r. contains r p) ranges ≡ true) ↔ InSome ranges p
unfolding contains
any-InSome [] p = (λ h. cc, λ h. absurd h)
any-InSome (r ∷ rs) p =
    let (to, from) = any-InSome rs p in (λ h. ground (arith, to), λ h. ground (arith, from))

port_missing-PortFits :
    (ranges : List PortRange) (port : Option ℕ)
    → (port_missing ranges port ≡ false) ↔ PortFits ranges port
port_missing-PortFits [] port = (λ h. inl refl, λ h. refl)
port_missing-PortFits (r ∷ rs) none = (λ h. cc, λ h. ground arith)
port_missing-PortFits (r ∷ rs) (some p) =
    let (to, from) = any-InSome (r ∷ rs) p in
    (λ h. inr (p, refl, to (ground arith)), λ h. ground (arith, from, unfits h))
  where
    unfits : PortFits (r ∷ rs) (some p) → InSome (r ∷ rs) p
    unfits (inl e) = cc
    unfits (inr (q, e, i)) = let same : p ≡ q = cc in rw same i

direction_matches_iff :
    (d actual : TrafficDirection)
    → (direction_matches d actual ≡ true) ↔ ((d ≡ both) ⊎ (d ≡ actual))
unfolding direction_matches
direction_matches_iff inbound actual = (λ h. ground arith, λ h. ground arith)
direction_matches_iff outbound actual = (λ h. ground arith, λ h. ground arith)
direction_matches_iff both actual = (λ h. inl refl, λ h. refl)

protocol_fits :
    (p actual : TrafficProtocol)
    → ((not (protocol_eq p any_protocol) && not (protocol_eq p actual)) ≡ false)
      ↔ ((p ≡ any_protocol) ⊎ (p ≡ actual))
protocol_fits any_protocol actual = (λ h. inl refl, λ h. refl)
protocol_fits tcp actual = (λ h. ground arith, λ h. ground arith)
protocol_fits udp actual = (λ h. ground arith, λ h. ground arith)
protocol_fits icmp actual = (λ h. ground arith, λ h. ground arith)

module _ (packets : Packets) where
  open packets use {IpAddr, IpNet, net_contains}

  abbrev pub CidrFits : Option IpNet → IpAddr → Type 0
  CidrFits cidr a = (n : IpNet) → cidr ≡ some n → net_contains n a ≡ true

  outside-CidrFits :
      (cidr : Option IpNet) (a : IpAddr) → (outside packets cidr a ≡ false) ↔ CidrFits cidr a
  outside-CidrFits none a = (λ h n e. cc, λ h. refl)
  outside-CidrFits (some n) a = (λ h m e. ground arith, λ h. ground (arith, h n refl))

  -- What a rule asks of a packet.
  pub record Fits (rule : TrafficRule packets) (direction : TrafficDirection)
      (meta : PacketMeta packets) : Type 0 where
    pub is_enabled : rule.enabled ≡ true
    pub direction_fits : (rule.direction ≡ both) ⊎ (rule.direction ≡ direction)
    pub protocol_fits : (rule.protocol ≡ any_protocol) ⊎ (rule.protocol ≡ meta.protocol)
    pub src_fits : CidrFits rule.src_cidr meta.src
    pub dst_fits : CidrFits rule.dst_cidr meta.dst
    pub src_port_fits : PortFits rule.src_ports meta.src_port
    pub dst_port_fits : PortFits rule.dst_ports meta.dst_port

  chain_true :
      (a b c d e f : Bool)
      → (if a
          then false
          else if b
          then false
          else if c
          then false
          else if d
          then false
          else if e
          then false
          else if f
          then false
          else true)
        ≡ true
      → (a ≡ false) × (b ≡ false) × (c ≡ false) × (d ≡ false) × (e ≡ false) × (f ≡ false)
  chain_true a b c d e f h = ground arith

  -- The tests of `matches` pass exactly for the packets that fit: the rule is enabled; it is for
  -- both directions or this one; for any protocol or this one; each network that it names holds
  -- the address; and each list of ports that is not empty has a range with the packet's port.
  pub matches-iff-Fits :
      (rule : TrafficRule packets) (direction : TrafficDirection) (meta : PacketMeta packets)
      → (matches packets rule direction meta ≡ true) ↔ Fits rule direction meta
  unfolding matches
  matches-iff-Fits rule direction meta = (
    λ h.
        let (a, b, c, d, e, f) = chain_true _ _ _ _ _ _ h in
        record {
          is_enabled = ground arith;
          direction_fits = (direction_matches_iff rule.direction direction).0 (ground arith);
          protocol_fits = (protocol_fits rule.protocol meta.protocol).0 b;
          src_fits = (outside-CidrFits rule.src_cidr meta.src).0 c;
          dst_fits = (outside-CidrFits rule.dst_cidr meta.dst).0 d;
          src_port_fits = (port_missing-PortFits rule.src_ports meta.src_port).0 e;
          dst_port_fits = (port_missing-PortFits rule.dst_ports meta.dst_port).0 f;
        },
    λ v. rw (
      v.is_enabled,
      (direction_matches_iff rule.direction direction).1 v.direction_fits,
      (protocol_fits rule.protocol meta.protocol).1 v.protocol_fits,
      (outside-CidrFits rule.src_cidr meta.src).1 v.src_fits,
      (outside-CidrFits rule.dst_cidr meta.dst).1 v.dst_fits,
      (port_missing-PortFits rule.src_ports meta.src_port).1 v.src_port_fits,
      (port_missing-PortFits rule.dst_ports meta.dst_port).1 v.dst_port_fits,
    ),
  )
