-- ===== src/Dataplane/Defense/Icmp.antt =====
-- The ICMP answer to a packet that is too long.
use r2n.Common.{
  ℕ, ◌+◌, ◌*◌, ◌/◌, ◌%◌, ◌^◌, ◌≤◌, ◌<◌, ◌≡◌, refl, ◌∙◌, ap, subst, some, List, [], ◌∷◌, ◌++◌, arith,
  length, All, take, drop, get_or, length-take, length-append, length-drop, le→ltb,
}
use r2n.Common.Words.{IsByte, be_bytes}
use r2n.Proto.{slice}
use r2n.Proto.RoundTrip.{All-slice}
use r2n.Dataplane.Defense.{ip_checksum, icmp_packet, build_icmp_frag_needed}
use r2n.Dataplane.Defense.Checksum.{checksum-filled}

abbrev pub Four : List ℕ → Type 0
Four xs = (a : ℕ) × (b : ℕ) × (c : ℕ) × (d : ℕ) × (xs ≡ a ∷ b ∷ c ∷ d ∷ [])

four : (xs : List ℕ) → length xs ≡ 4 → Four xs
four (a ∷ b ∷ c ∷ d ∷ []) e = (a, b, c, d, refl)
four [] e = grind arith
four (a ∷ []) e = grind arith
four (a ∷ b ∷ []) e = grind arith
four (a ∷ b ∷ c ∷ []) e = grind arith
four (a ∷ b ∷ c ∷ d ∷ f ∷ xs) e = grind arith

-- The header before the checksum, and the message behind it.
abbrev header_front : ℕ → List ℕ
header_front t = 0x45 ∷ 0 ∷ (t / 256 % 256) ∷ (t % 256) ∷ 0 ∷ 0 ∷ 0 ∷ 0 ∷ 64 ∷ 1 ∷ []

abbrev message_back : ℕ → List ℕ → List ℕ
message_back mtu quoted = 0 ∷ 0 ∷ (mtu / 256 % 256) ∷ (mtu % 256) ∷ quoted

icmp_packet_parts :
    (original src dst : List ℕ) (mtu n : ℕ)
    → Four src
    → Four dst
    → slice 12 16 original ≡ src
    → slice 16 20 original ≡ dst
    → let t = (20 + 8 + n) % 2 ^ 16 in
      let quoted = take n original in
      icmp_packet original mtu n
      ≡ (header_front t
          ++ (be_bytes 2 (ip_checksum (header_front t ++ (0 ∷ 0 ∷ (dst ++ src)))) ++ (dst ++ src)))
        ++ ((3 ∷ 4 ∷ [])
            ++ (be_bytes 2 (ip_checksum ((3 ∷ 4 ∷ []) ++ (0 ∷ 0 ∷ message_back mtu quoted)))
                ++ message_back mtu quoted))
unfolding be_bytes
icmp_packet_parts original src dst mtu n (a, b, c, d, es) (e, f, g, h, ed) at12 at16 =
    rw (at12, at16, es, ed) refl

addresses :
    (t c : ℕ) (src dst : List ℕ)
    → Four src
    → Four dst
    → let hdr = header_front t ++ (be_bytes 2 c ++ (dst ++ src)) in
      (length hdr ≡ 20) × (slice 12 16 hdr ≡ dst) × (slice 16 20 hdr ≡ src)
unfolding be_bytes
addresses t c src dst (a, b, d, e, es) (f, g, h, i, ed) = rw (es, ed) (refl, refl, refl)

header_fields :
    (t c : ℕ) (src dst : List ℕ)
    → let hdr = header_front t ++ (be_bytes 2 c ++ (dst ++ src)) in
      (take 2 hdr ≡ 0x45 ∷ 0 ∷ [])
      × (slice 2 4 hdr ≡ be_bytes 2 t)
      × (slice 4 10 hdr ≡ 0 ∷ 0 ∷ 0 ∷ 0 ∷ 64 ∷ 1 ∷ [])
unfolding be_bytes
header_fields t c src dst = (refl, refl, refl)

header_bytes :
    (t : ℕ) (src dst : List ℕ)
    → Four src
    → Four dst
    → All IsByte src
    → All IsByte dst
    → All IsByte (header_front t ++ (0 ∷ 0 ∷ (dst ++ src)))
      × (length (header_front t ++ (0 ∷ 0 ∷ (dst ++ src))) < 2 ^ 16)
header_bytes t src dst (a, b, d, e, es) (f, g, h, i, ed) all_src all_dst =
    let x : All IsByte (a ∷ b ∷ d ∷ e ∷ []) = subst (All IsByte) es all_src in
    let y : All IsByte (f ∷ g ∷ h ∷ i ∷ []) = subst (All IsByte) ed all_dst in
    rw (es, ed)
      (
        (
          omega arith,
          (
            omega arith,
            (
              omega arith,
              (
                omega arith,
                (
                  omega arith,
                  (
                    omega arith,
                    (
                      omega arith,
                      (
                        omega arith,
                        (
                          omega arith,
                          (
                            omega arith,
                            (omega arith, (omega arith, (y.0, (y.1.0, (y.1.1.0, (y.1.1.1.0, x)))))),
                          ),
                        ),
                      ),
                    ),
                  ),
                ),
              ),
            ),
          ),
        ),
        omega arith,
      )

-- The answer to a packet of 20 bytes or more, which holds the header that it says it has and eight
-- bytes behind it, is an IPv4 header of 20 bytes and an ICMP message. The header says the length of
-- both, a TTL of 64 and the protocol ICMP, and its addresses are the packet's, swapped; the message
-- says that fragmentation is needed and the MTU, and quotes those bytes; the checksums of both
-- verify.
pub build_icmp_frag_needed-answer :
    (original : List ℕ) (next_hop_mtu : ℕ)
    → All IsByte original
    → 20 ≤ length original
    → get_or original 0 0 % 16 * 4 + 8 ≤ length original
    → (hdr : List ℕ) × (icmp : List ℕ) × (build_icmp_frag_needed original next_hop_mtu
        ≡ some (some (hdr ++ icmp)))
      × (length hdr ≡ 20)
      × (take 2 hdr ≡ 0x45 ∷ 0 ∷ [])
      × (slice 2 4 hdr ≡ be_bytes 2 (length (hdr ++ icmp)))
      × (slice 4 10 hdr ≡ 0 ∷ 0 ∷ 0 ∷ 0 ∷ 64 ∷ 1 ∷ [])
      × (slice 12 16 hdr ≡ slice 16 20 original)
      × (slice 16 20 hdr ≡ slice 12 16 original)
      × (take 2 icmp ≡ 3 ∷ 4 ∷ [])
      × (slice 4 8 icmp ≡ 0 ∷ 0 ∷ be_bytes 2 next_hop_mtu)
      × (drop 8 icmp ≡ take (get_or original 0 0 % 16 * 4 + 8) original)
      × (ip_checksum hdr ≡ 0)
      × (ip_checksum icmp ≡ 0)
unfolding build_icmp_frag_needed ip_checksum be_bytes
build_icmp_frag_needed-answer original mtu bytes long quotes =
    let n = get_or original 0 0 % 16 * 4 + 8 in
    let t = (20 + 8 + n) % 2 ^ 16 in
    let src = slice 12 16 original in
    let dst = slice 16 20 original in
    let fs : Four src =
      four src (omega (arith, length-take 4 (drop 12 original), length-drop 12 original)) in
    let fd : Four dst =
      four dst (omega (arith, length-take 4 (drop 16 original), length-drop 16 original)) in
    let (all_header, short) =
      header_bytes t src dst fs fd (All-slice 12 4 original bytes)
        (All-slice 16 4 original bytes) in
    let quoted = take n original in
    let back = message_back mtu quoted in
    let (whole, to, from) =
      addresses t (ip_checksum (header_front t ++ (0 ∷ 0 ∷ (dst ++ src)))) src dst fs fd in
    let (version, said, to_icmp) =
      header_fields t (ip_checksum (header_front t ++ (0 ∷ 0 ∷ (dst ++ src)))) src dst in
    let hdr =
      header_front t
      ++ (be_bytes 2 (ip_checksum (header_front t ++ (0 ∷ 0 ∷ (dst ++ src)))) ++ (dst ++ src)) in
    let icmp =
      (3 ∷ 4 ∷ []) ++ (be_bytes 2 (ip_checksum ((3 ∷ 4 ∷ []) ++ (0 ∷ 0 ∷ back))) ++ back) in
    (
      hdr,
      icmp,
      rw
          (
            le→ltb (length original) 1 (omega arith),
            le→ltb (length original) n quotes,
            le→ltb (length original) 20 long,
          )
          (ap (λ (p : List ℕ). some (some p))
            (icmp_packet_parts original src dst mtu n fs fd refl refl)),
      whole,
      version,
      said ∙ ap (be_bytes 2) (omega (arith, whole, length-append hdr icmp, length-take n original)),
      to_icmp,
      to,
      from,
      refl,
      refl,
      refl,
      checksum-filled 5 0 (header_front t) (dst ++ src) refl all_header (omega arith) short,
      checksum-filled 1 0 (3 ∷ 4 ∷ []) back refl
          (
            omega arith,
            (
              omega arith,
              (
                omega arith,
                (
                  omega arith,
                  (
                    omega arith,
                    (omega arith, (omega arith, (omega arith, All-slice 0 n original bytes))),
                  ),
                ),
              ),
            ),
          )
          (omega arith) (omega (arith, length-take n original)),
    )
