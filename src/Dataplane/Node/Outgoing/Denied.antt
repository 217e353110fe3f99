-- ===== src/Dataplane/Node/Outgoing/Denied.antt =====
-- What the outbound policy denies is not sent.
use r2n.Common.{
  ℕ, ◌≡◌, ◌%◌, ◌^◌, refl, Bool, true, false, Option, none, some, List, if_cases, Bool-cases, inl,
  inr,
}
use r2n.Proto.{ethernet}
use r2n.Policy.{outbound}
use r2n.Discovery.{classify_packet_with_config}
use r2n.Dataplane.Frames.{FrameMode, l2, l3, policy_allows}
use r2n.Dataplane.Defense.{
  Clamping, out_of_rounds, crashed, clamping, clamp_mss, build_icmp_frag_needed,
}
use r2n.Proto.{DataPacketType}
use r2n.Dataplane.Node.{Env, Ending, Node}
use r2n.Dataplane.Node.Outgoing.{
  TunSide, type_or_ipv4, is_too_long, answer_icmp, outgoing, clamped, tun_packet,
}

module _ (env : Env) (side : TunSide) where
  open env use {packets, writes}

  outgoing-denied :
      (now : ℕ) (allow_broadcast : Bool) (mode : FrameMode) (packet_type : DataPacketType)
      (payload : List ℕ) (s : Node env)
      → policy_allows packets s.traffic_policy mode outbound payload ≡ false
      → (outgoing env side now allow_broadcast mode packet_type payload s).1.sent ≡ s.sent
  outgoing-denied now allow_broadcast mode packet_type payload s denied = rw denied refl

  answer_icmp-sent :
      (s : Node env) (answer : Option (Option (List ℕ)))
      → (answer_icmp env side s answer).1.sent ≡ s.sent
  answer_icmp-sent s none = refl
  answer_icmp-sent s (some none) = refl
  answer_icmp-sent s (some (some icmp)) = elim (Bool-cases (writes icmp)) [
    | inl e ↦ rw e refl
    | inr e ↦ rw e refl
  ]

  clamped-denied :
      (now : ℕ) (allow_broadcast : Bool) (s : Node env) (result : Clamping)
      → ((d : Bool) (out : List ℕ)
          → result ≡ clamping d out
          → policy_allows packets s.traffic_policy l3 outbound out ≡ false)
      → (clamped env side now allow_broadcast s result).1.sent ≡ s.sent
  clamped-denied now allow_broadcast s (clamping d out) denied =
      outgoing-denied now allow_broadcast l3
        (type_or_ipv4 (classify_packet_with_config side.parse out side.discovery)) out s
        (denied d out refl)
  clamped-denied now allow_broadcast s crashed denied = refl
  clamped-denied now allow_broadcast s out_of_rounds denied = refl

  -- A packet that the outbound policy denies in the form in which it would be sent is not sent: on a
  -- tap device no frame is sent for a frame that is denied as an Ethernet one, and on a tunnel none
  -- for a packet that is denied as an IP one, its MSS clamped, also where the packet is too long and
  -- is answered.
  pub tun_packet-denied :
      (now : ℕ) (allow_broadcast : Bool) (payload : List ℕ) (s : Node env)
      → (side.is_tap ≡ true → policy_allows packets s.traffic_policy l2 outbound payload ≡ false)
      → (side.is_tap ≡ false
          → (d : Bool) (out : List ℕ) → clamp_mss payload side.tun_mtu ≡ clamping d out
          → policy_allows packets s.traffic_policy l3 outbound out ≡ false)
      → (tun_packet env side now allow_broadcast payload s).1.sent ≡ s.sent
  unfolding tun_packet
  tun_packet-denied now allow_broadcast payload s tap tun =
      let Kept : Ending × Node env → Type 0 = λ r. r.1.sent ≡ s.sent in
      if_cases Kept side.is_tap
        (λ (e : side.is_tap ≡ true).
          outgoing-denied now allow_broadcast l2 ethernet payload s (tap e))
        (λ (e : side.is_tap ≡ false).
          if_cases Kept (is_too_long side.tun_mtu payload)
            (λ (long : is_too_long side.tun_mtu payload ≡ true).
              answer_icmp-sent s (build_icmp_frag_needed payload (side.tun_mtu % 2 ^ 16)))
            (λ (short : is_too_long side.tun_mtu payload ≡ false).
              clamped-denied now allow_broadcast s (clamp_mss payload side.tun_mtu) (tun e)))
