-- ===== src/Qos/Classes.antt =====
-- Which packets the scheduler may drop.
use r2n.Common.{ℕ, ◌≡◌, refl, ◌↔◌, false, Option, none, some, List, arith, ◌⊎◌, inl, inr}
use r2n.Proto.{
  DataPacketType, ipv4, ipv6, broadcast, multicast, discovery, keepalive, ping, pong, ethernet,
}
use r2n.Qos.{bulk, IpParser, is_syn, classify_parsed, classify_ip_packet, classify_packet}

abbrev pub IsIp : DataPacketType → Type 0
IsIp t = (t ≡ ipv4) ⊎ (t ≡ ipv6)

abbrev pub IsPlainTcp : Option (ℕ × List ℕ) → Type 0
IsPlainTcp o = (remainder : List ℕ) × (o ≡ some (6, remainder)) × (is_syn remainder ≡ false)

bulk-IsPlainTcp :
    (payload : List ℕ) (o : Option (ℕ × List ℕ)) → classify_parsed payload o ≡ bulk → IsPlainTcp o
bulk-IsPlainTcp payload none h = cc
bulk-IsPlainTcp payload (some (p, r)) h = (r, ground arith, ground arith)

IsPlainTcp-bulk :
    (payload : List ℕ) (o : Option (ℕ × List ℕ)) → IsPlainTcp o → classify_parsed payload o ≡ bulk
IsPlainTcp-bulk payload o (r, e, h) = rw (e, h)

-- Only the bulk class drops packets: a packet falls into it exactly when it is an IP packet whose
-- header parses with protocol 6 (TCP), and the segment does not start a connection.
pub classify_packet-eq-bulk :
    (parse : IpParser) (t : DataPacketType) (payload : List ℕ)
    → (classify_packet parse t payload ≡ bulk) ↔ (IsIp t × IsPlainTcp (parse payload))
unfolding classify_packet classify_ip_packet
classify_packet-eq-bulk parse ipv4 payload =
    (λ h. (inl refl, bulk-IsPlainTcp payload (parse payload) h), λ h. IsPlainTcp-bulk payload _ h.1)
classify_packet-eq-bulk parse ipv6 payload =
    (λ h. (inr refl, bulk-IsPlainTcp payload (parse payload) h), λ h. IsPlainTcp-bulk payload _ h.1)
classify_packet-eq-bulk parse broadcast payload = (λ h. cc, λ h. ground arith)
classify_packet-eq-bulk parse multicast payload = (λ h. cc, λ h. ground arith)
classify_packet-eq-bulk parse discovery payload = (λ h. cc, λ h. ground arith)
classify_packet-eq-bulk parse ethernet payload = (λ h. cc, λ h. ground arith)
classify_packet-eq-bulk parse keepalive payload = (λ h. cc, λ h. ground arith)
classify_packet-eq-bulk parse ping payload = (λ h. cc, λ h. ground arith)
classify_packet-eq-bulk parse pong payload = (λ h. cc, λ h. ground arith)
