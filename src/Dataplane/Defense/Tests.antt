-- ===== src/Dataplane/Defense/Tests.antt =====
-- Packets of the source's tests, one that makes the clamping panic, and the theorems at them.
use r2n.Common.{
  ℕ, ◌≡◌, ◌⊎◌, refl, false, some, List, [], ◌∷◌, ◌++◌, arith, length, take, drop, replicate, All,
}
use r2n.Common.Bits.{test_bit}
use r2n.Common.Words.{IsByte, from_be, be_bytes}
use r2n.Proto.{slice}
use r2n.Dataplane.Defense.{
  clamping, crashed, clamp_mss, build_icmp_frag_needed, ip_checksum, visit, options,
  recompute_tcp_checksum, word_sum, fold_carries, complement,
}
use r2n.Dataplane.Defense.Icmp.{build_icmp_frag_needed-answer}
use r2n.Dataplane.Defense.Mss.{Clamped, Short, clamp_mss-Clamped}

-- A SYN with an MSS of 1460.
abbrev ip_header : List ℕ
ip_header = 0x45 ∷ 0 ∷ 0 ∷ 44 ∷ 0 ∷ 0 ∷ 0 ∷ 0 ∷ 0 ∷ 6 ∷ 0 ∷ 0 ∷ 10 ∷ 0 ∷ 0 ∷ 1 ∷ 10 ∷ 0 ∷ 0 ∷ 2 ∷ []

abbrev syn : List ℕ
syn = ip_header ++ (replicate 12 0 ++ (0x60 ∷ 2 ∷ replicate 6 0 ++ (2 ∷ 4 ∷ 5 ∷ 0xb4 ∷ [])))

-- The option is said to lie behind the segment's end.
abbrev truncated : List ℕ
truncated = ip_header ++ (replicate 12 0 ++ (0x60 ∷ 2 ∷ replicate 6 0 ++ (2 ∷ 4 ∷ [])))

bytes_of_syn : All IsByte syn
bytes_of_syn = omega arith

clamped_to_1240 :
    take 4 (drop 40 (elim (clamp_mss syn 1280) [ clamping d out ↦ out | _ ↦ [] ]))
    ≡ 2 ∷ 4 ∷ 4 ∷ 0xd8 ∷ []
unfolding clamp_mss options visit recompute_tcp_checksum word_sum fold_carries complement be_bytes
    from_be test_bit
clamped_to_1240 = refl

left_alone : clamp_mss syn 1500 ≡ clamping false syn
unfolding clamp_mss options visit test_bit from_be
left_alone = refl

truncated_crashes : clamp_mss truncated 1280 ≡ crashed
unfolding clamp_mss options visit test_bit
truncated_crashes = refl

clamp_mss-Clamped_example :
    Clamped 20 syn (clamp_mss syn 1280) ⊎ ((clamp_mss syn 1280 ≡ crashed) × Short 20 24 syn)
clamp_mss-Clamped_example = clamp_mss-Clamped syn 1280 bytes_of_syn (omega arith)

build_icmp_frag_needed-answer_example :
    (hdr : List ℕ) × (icmp : List ℕ) × (build_icmp_frag_needed syn 1280 ≡ some (some (hdr ++ icmp)))
    × (length hdr ≡ 20)
    × (take 2 hdr ≡ 0x45 ∷ 0 ∷ [])
    × (slice 2 4 hdr ≡ be_bytes 2 (length (hdr ++ icmp)))
    × (slice 4 10 hdr ≡ 0 ∷ 0 ∷ 0 ∷ 0 ∷ 64 ∷ 1 ∷ [])
    × (slice 12 16 hdr ≡ 10 ∷ 0 ∷ 0 ∷ 2 ∷ [])
    × (slice 16 20 hdr ≡ 10 ∷ 0 ∷ 0 ∷ 1 ∷ [])
    × (take 2 icmp ≡ 3 ∷ 4 ∷ [])
    × (slice 4 8 icmp ≡ 0 ∷ 0 ∷ be_bytes 2 1280)
    × (drop 8 icmp ≡ take 28 syn)
    × (ip_checksum hdr ≡ 0)
    × (ip_checksum icmp ≡ 0)
build_icmp_frag_needed-answer_example =
    build_icmp_frag_needed-answer syn 1280 bytes_of_syn (omega arith) (omega arith)
