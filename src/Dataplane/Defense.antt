-- ===== src/Dataplane/Defense.antt =====
-- crates/r2n-dataplane/src/defense.rs: how a packet's MSS is clamped, the ICMP answer to a packet
-- that is too long, and the Internet checksum. A u32 wraps, as in a release build.
pub mod Checksum
pub mod Icmp
pub mod Clamp
pub mod Mss
mod Tests
use r2n.Common.{
  ℕ, zero, suc, ◌+◌, ◌-◌, ◌*◌, ◌/◌, ◌%◌, ◌^◌, ◌≡◌, Bool, true, false, not, ◌&&◌, ◌||◌, Option, none,
  some, List, [], ◌∷◌, ◌++◌, length, take, drop, get_or, replicate, ltb, ◌==◌, if◌then◌else◌,
}
use r2n.Common.Bits.{test_bit}
use r2n.Common.Words.{be_bytes, from_be}
use r2n.Proto.{slice, write}

abbrev pub add32 : ℕ → ℕ → ℕ
add32 a b = (a + b) % 2 ^ 32

-- The loop over the big-endian words, with the sum so far; a last odd byte stands before a zero.
pub word_sum : ℕ → List ℕ → ℕ
word_sum sum (a ∷ b ∷ bytes) = word_sum (add32 sum (256 * a + b)) bytes
word_sum sum (a ∷ []) = add32 sum (256 * a)
word_sum sum [] = sum

-- `while (sum >> 16) != 0`, for as many rounds at most.
pub fold_carries : ℕ → ℕ → ℕ
fold_carries zero sum = sum
fold_carries (suc n) sum =
    let rest = fold_carries n ((sum % 2 ^ 16 + sum / 2 ^ 16) % 2 ^ 32) in
    if sum / 2 ^ 16 == 0 then sum else rest

-- `!(sum as u16)` of the folded sum.
pub complement : ℕ → ℕ
complement sum = 65535 - fold_carries 4 sum % 2 ^ 16

pub ip_checksum : List ℕ → ℕ
ip_checksum bytes = complement (word_sum 0 bytes)

-- The sum of the header's addresses, the protocol and the segment's length.
abbrev pub pseudo_sum : List ℕ → ℕ → ℕ
pseudo_sum ipv4_hdr len =
    add32 (add32 (word_sum (word_sum 0 (slice 12 16 ipv4_hdr)) (slice 16 20 ipv4_hdr)) 6)
      (len % 2 ^ 32)

abbrev pub checksum_over : List ℕ → List ℕ → ℕ
checksum_over ipv4_hdr segment =
    complement (word_sum (pseudo_sum ipv4_hdr (length segment)) segment)

-- `none` is the panic of an index out of bounds.
pub recompute_tcp_checksum : List ℕ → List ℕ → Option (List ℕ)
recompute_tcp_checksum ipv4_hdr segment =
    if ltb (length segment) 18 || ltb (length ipv4_hdr) 20
    then none
    else let cleared = write 16 (0 ∷ 0 ∷ []) segment in
      some (write 16 (be_bytes 2 (checksum_over ipv4_hdr cleared)) cleared)

-- Where the TCP segment starts, its length, its header's length, and the MSS that is let through.
pub record Segment : Type 0 where
  pub tcp_start : ℕ
  pub tcp_len : ℕ
  pub data_offset : ℕ
  pub max_mss : ℕ

-- What one round of the loop over the options does.
pub data Visit : Type 0 where
  breaks panics : Visit
  continues : ℕ → Bool → List ℕ → Visit

-- How the loop ends.
pub data Clamping : Type 0 where
  out_of_rounds crashed : Clamping
  clamping : Bool → List ℕ → Clamping

-- The four bytes of an MSS option at `i`.
abbrev pub mss_option : Segment → ℕ → Bool → List ℕ → Visit
mss_option seg i clamped packet =
    let at = seg.tcp_start + i + 2 in
    if ltb (at + 1) (length packet)
    then (if ltb seg.max_mss (from_be (slice at (at + 2) packet))
        then continues (i + 4) true (write at (be_bytes 2 seg.max_mss) packet)
        else continues (i + 4) clamped packet)
    else panics

pub visit : Segment → ℕ → Bool → List ℕ → Visit
visit seg i clamped packet =
    let kind = get_or packet (seg.tcp_start + i) 0 in
    let opt_len = get_or packet (seg.tcp_start + i + 1) 0 in
    if not (ltb i seg.data_offset && ltb (i + 1) seg.tcp_len)
    then breaks
    else if kind == 0
    then breaks
    else if kind == 1
    then continues (i + 1) clamped packet
    else if ltb opt_len 2 || ltb seg.data_offset (i + opt_len)
    then breaks
    else if (kind == 2) && (opt_len == 4)
    then mss_option seg i clamped packet
    else continues (i + opt_len) clamped packet

-- The loop from the option at `i` on, for as many rounds at most.
pub options : ℕ → Segment → ℕ → Bool → List ℕ → Clamping
options zero seg i clamped packet = out_of_rounds
options (suc n) seg i clamped packet = elim (visit seg i clamped packet) [
  | breaks ↦ clamping clamped packet
  | panics ↦ crashed
  | continues j now_clamped changed ↦ options n seg j now_clamped changed
]

abbrev pub joined : List ℕ → Option (List ℕ) → Clamping
joined ipv4_hdr none = crashed
joined ipv4_hdr (some segment) = clamping true (ipv4_hdr ++ segment)

abbrev pub after_options : ℕ → Clamping → Clamping
after_options ihl (clamping true packet) =
    joined (take ihl packet) (recompute_tcp_checksum (take ihl packet) (drop ihl packet))
after_options ihl c = c

-- The segment behind a header of `ihl` bytes.
abbrev pub segment_at : ℕ → ℕ → List ℕ → Segment
segment_at ihl safe_payload_mtu packet = record {
  tcp_start = ihl;
  tcp_len = length packet - ihl;
  data_offset = get_or packet (ihl + 12) 0 / 16 * 4;
  max_mss = (safe_payload_mtu - (ihl + 20)) % 2 ^ 16;
}

abbrev pub clamp_segment : ℕ → Segment → List ℕ → Clamping
clamp_segment ihl seg packet =
    if ltb 20 seg.data_offset && test_bit (get_or packet (ihl + 13) 0) 1
    then after_options ihl (options seg.data_offset seg 20 false packet)
    else clamping false packet

-- Whether the packet was changed, and the packet.
pub clamp_mss : List ℕ → ℕ → Clamping
clamp_mss packet safe_payload_mtu =
    let ihl = get_or packet 0 0 % 16 * 4 in
    if ltb (length packet) 40
    then clamping false packet
    else if not (get_or packet 0 0 / 16 == 4)
    then clamping false packet
    else if ltb (length packet) (ihl + 20)
    then clamping false packet
    else if not (get_or packet 9 0 == 6)
    then clamping false packet
    else clamp_segment ihl (segment_at ihl safe_payload_mtu packet) packet

-- The ICMP answer from an original of `icmp_data_len` bytes or more.
abbrev pub icmp_packet : List ℕ → ℕ → ℕ → List ℕ
icmp_packet original next_hop_mtu icmp_data_len =
    let total_len = 20 + 8 + icmp_data_len in
    let src_ip = slice 12 16 original in
    let dst_ip = slice 16 20 original in
    let ip_hdr = write 16 src_ip (
      write 12 dst_ip (
        write 9 (1 ∷ []) (
          write 8 (64 ∷ []) (
            write 6 (be_bytes 2 0) (
              write 2 (be_bytes 2 (total_len % 2 ^ 16))
                (write 1 (0 ∷ []) (write 0 (0x45 ∷ []) (replicate 20 0)))))))) in
    let icmp_hdr =
      write 6 (be_bytes 2 next_hop_mtu) (write 1 (4 ∷ []) (write 0 (3 ∷ []) (replicate 8 0))) in
    let icmp = icmp_hdr ++ take icmp_data_len original in
    write 10 (be_bytes 2 (ip_checksum ip_hdr)) ip_hdr
    ++ write 2 (be_bytes 2 (ip_checksum icmp)) icmp

-- The outer `none` is the panic of an index out of bounds.
pub build_icmp_frag_needed : List ℕ → ℕ → Option (Option (List ℕ))
build_icmp_frag_needed original next_hop_mtu =
    let icmp_data_len = get_or original 0 0 % 16 * 4 + 8 in
    if ltb (length original) 1
    then none
    else if ltb (length original) icmp_data_len
    then some none
    else if ltb (length original) 20
    then none
    else some (some (icmp_packet original next_hop_mtu icmp_data_len))
