-- ===== src/Dataplane/Defense/Mss.antt =====
-- How the clamping of a packet's MSS ends.
use r2n.Common.{
  ℕ, ◌+◌, ◌-◌, ◌*◌, ◌/◌, ◌%◌, ◌^◌, ◌≤◌, ◌<◌, ◌≡◌, ◌⊎◌, inl, inr, refl, sym, ap, ◌∙◌, Bool, true,
  false, not, ◌&&◌, none, some, List, [], ◌∷◌, ◌++◌, arith, length, All, take, drop, get_or,
  if_cases, ltb, ◌==◌, length-append, length-take, length-drop, take-append, drop-append, drop-drop,
  Bool-cases, ltb→lt, ltb→le, le→ltb, lt→ltb,
}
use r2n.Common.Bits.{test_bit}
use r2n.Common.Words.{IsByte, be_bytes}
use r2n.Proto.{slice, write}
use r2n.Proto.RoundTrip.{All-slice}
use r2n.Dataplane.Defense.{
  Segment, Clamping, out_of_rounds, crashed, clamping, options, word_sum, pseudo_sum, complement,
  checksum_over, recompute_tcp_checksum, after_options, joined, segment_at, clamp_segment,
  clamp_mss,
}
use r2n.Dataplane.Defense.Checksum.{checksum-filled, word_sum-exact, total-bound}
use r2n.Dataplane.Defense.Clamp.{
  Changes, Ended, options-Ended, All-drop, length-write_word, All-write_word,
}

word_sum-small :
    (sum n : ℕ) (packet : List ℕ)
    → All IsByte packet
    → sum < 2 ^ 20
    → word_sum sum (take 4 (drop n packet)) ≤ sum + 2 ^ 18
word_sum-small sum n packet bytes small =
    let part = take 4 (drop n packet) in
    let all = All-slice n 4 packet bytes in
    omega (
      arith,
      word_sum-exact sum part all (omega (arith, small))
          (omega (arith, length-take 4 (drop n packet))),
      total-bound part all,
      length-take 4 (drop n packet),
    )

pseudo_sum-small :
    (hdr : List ℕ) (len : ℕ) → All IsByte hdr → len < 2 ^ 16 → pseudo_sum hdr len < 2 ^ 24
pseudo_sum-small hdr len bytes small =
    let a = word_sum-small 0 12 hdr bytes (omega arith) in
    let b = word_sum-small (word_sum 0 (slice 12 16 hdr)) 16 hdr bytes (omega (arith, a)) in
    omega (arith, a, b)

-- The checksum that is written verifies, and nothing else is changed.
recompute_tcp_checksum-verifies :
    (hdr seg : List ℕ)
    → All IsByte hdr
    → All IsByte seg
    → 20 ≤ length hdr
    → 20 ≤ length seg
    → length seg < 2 ^ 16
    → (out : List ℕ) × (recompute_tcp_checksum hdr seg ≡ some out)
      × (length out ≡ length seg)
      × (checksum_over hdr out ≡ 0)
unfolding recompute_tcp_checksum be_bytes
recompute_tcp_checksum-verifies hdr seg bytes_hdr bytes_seg long_hdr long_seg short =
    let cleared = write 16 (0 ∷ 0 ∷ []) seg in
    let c = checksum_over hdr cleared in
    let same : length cleared ≡ length seg = length-write_word 16 0 seg (omega (arith, long_seg)) in
    let again : length (write 16 (be_bytes 2 c) cleared) ≡ length seg =
      length-write_word 16 c cleared (omega (arith, long_seg, same)) ∙ same in
    let front : length (take 16 seg) ≡ 2 * 8 = omega (arith, length-take 16 seg, long_seg) in
    let kept : take 16 cleared ≡ take 16 seg =
      take-append 16 (take 16 seg) (0 ∷ 0 ∷ drop 18 seg) front in
    let rest : drop 18 cleared ≡ drop 18 seg =
      sym (drop-drop 16 2 cleared)
      ∙ ap (drop 2) (drop-append 16 (take 16 seg) (0 ∷ 0 ∷ drop 18 seg) front) in
    let parts : write 16 (be_bytes 2 c) cleared ≡ take 16 seg ++ (be_bytes 2 c ++ drop 18 seg) =
      ap (λ (xs : List ℕ). xs ++ (be_bytes 2 c ++ drop 18 cleared)) kept
      ∙ ap (λ (ys : List ℕ). take 16 seg ++ (be_bytes 2 c ++ ys)) rest in
    (
      write 16 (be_bytes 2 c) cleared,
      rw (le→ltb (length seg) 18 (omega (arith, long_seg)), le→ltb (length hdr) 20 long_hdr) refl,
      again,
      ap (λ (n : ℕ). complement (word_sum (pseudo_sum hdr n) (write 16 (be_bytes 2 c) cleared)))
            (again ∙ sym same)
          ∙ ap (λ (w : List ℕ). complement (word_sum (pseudo_sum hdr (length cleared)) w)) parts
          ∙ checksum-filled 8 (pseudo_sum hdr (length cleared)) (take 16 seg) (drop 18 seg) front
              (All-write_word 16 0 seg bytes_seg)
              (pseudo_sum-small hdr (length cleared) bytes_hdr (omega (arith, same, short)))
              (omega (arith, same, short)),
    )

-- How a packet comes out: as it was, or with a checksum that verifies behind `ihl` bytes.
abbrev pub Clamped : ℕ → List ℕ → Clamping → Type 0
Clamped ihl packet result =
    (d : Bool) × (out : List ℕ) × (result ≡ clamping d out)
    × (length out ≡ length packet)
    × (d ≡ false → out ≡ packet)
    × (d ≡ true → checksum_over (take ihl out) (drop ihl out) ≡ 0)

abbrev pub Short : ℕ → ℕ → List ℕ → Type 0
Short ihl offset packet = (ihl < 20) ⊎ (length packet < ihl + offset)

unchanged : (ihl : ℕ) (packet : List ℕ) → Clamped ihl packet (clamping false packet)
unchanged ihl packet = (false, packet, refl, refl, λ e. refl, λ e. cc)

recompute_tcp_checksum-none :
    (hdr seg : List ℕ) → length hdr < 20 → 20 ≤ length seg → recompute_tcp_checksum hdr seg ≡ none
unfolding recompute_tcp_checksum
recompute_tcp_checksum-none hdr seg short long =
    rw (le→ltb (length seg) 18 (omega (arith, long)), lt→ltb (length hdr) 20 short) refl

joined-Clamped :
    (ihl offset : ℕ) (packet out : List ℕ)
    → All IsByte out
    → length packet < 2 ^ 16
    → ihl + 20 ≤ length packet
    → length out ≡ length packet
    → let result = joined (take ihl out) (recompute_tcp_checksum (take ihl out) (drop ihl out)) in
      Clamped ihl packet result ⊎ ((result ≡ crashed) × Short ihl offset packet)
joined-Clamped ihl offset packet out bytes small long len =
    let hdr = take ihl out in
    let seg = drop ihl out in
    let hdr_len : length hdr ≡ ihl = omega (arith, length-take ihl out, len, long) in
    let seg_len : length seg ≡ length packet - ihl = omega (arith, length-drop ihl out, len) in
    elim (Bool-cases (ltb ihl 20)) [
      | inl few ↦
          let few_lt = ltb→lt ihl 20 few in
          inr (
            ap (joined hdr) (
                recompute_tcp_checksum-none hdr seg (omega (arith, hdr_len, few_lt))
                  (omega (arith, seg_len, long))),
            inl few_lt,
          )
      | inr enough ↦
          let (fixed, e, same, zero_sum) =
            recompute_tcp_checksum-verifies hdr seg (All-slice 0 ihl out bytes)
              (All-drop ihl out bytes) (omega (arith, hdr_len, ltb→le ihl 20 enough))
              (omega (arith, seg_len, long)) (omega (arith, seg_len, small)) in
          inl (
            true,
            hdr ++ fixed,
            ap (joined hdr) e,
            omega (arith, length-append hdr fixed, hdr_len, same, seg_len, long),
            λ no. cc,
            λ yes.
                rw (take-append ihl hdr fixed hdr_len, drop-append ihl hdr fixed hdr_len) zero_sum,
          )
    ]

after_options-Clamped :
    (ihl : ℕ) (seg : Segment) (packet : List ℕ) (result : Clamping)
    → All IsByte packet
    → length packet < 2 ^ 16
    → ihl + 20 ≤ length packet
    → seg.tcp_start ≡ ihl
    → Ended seg false packet result
    → Clamped ihl packet (after_options ihl result)
      ⊎ ((after_options ihl result ≡ crashed) × Short ihl seg.data_offset packet)
unfolding Ended Changes
after_options-Clamped ihl seg packet crashed bytes small long start short =
    inr (refl, inr (omega (arith, short, start)))
after_options-Clamped ihl seg packet (clamping false out) bytes small long start
      (len, kept, inl (d, same)) =
    inl (false, out, refl, len, λ e. same, λ e. cc)
after_options-Clamped ihl seg packet (clamping false out) bytes small long start
      (len, kept, inr d) =
    cc
after_options-Clamped ihl seg packet (clamping true out) bytes small long start
      (len, kept, changes) =
    joined-Clamped ihl seg.data_offset packet out (kept bytes) small long len
after_options-Clamped ihl seg packet out_of_rounds bytes small long start h = elim h [ ]

clamp_segment-Clamped :
    (ihl : ℕ) (seg : Segment) (packet : List ℕ)
    → All IsByte packet
    → length packet < 2 ^ 16
    → ihl + 20 ≤ length packet
    → seg.tcp_start ≡ ihl
    → Clamped ihl packet (clamp_segment ihl seg packet)
      ⊎ ((clamp_segment ihl seg packet ≡ crashed) × Short ihl seg.data_offset packet)
clamp_segment-Clamped ihl seg packet bytes small long start =
    let test = ltb 20 seg.data_offset && test_bit (get_or packet (ihl + 13) 0) 1 in
    elim (Bool-cases test) [
      | inl b ↦
          let offset : 20 < seg.data_offset = ground arith in
          rw b (
            after_options-Clamped ihl seg packet (options seg.data_offset seg 20 false packet) bytes
              small long start
              (options-Ended seg.data_offset seg 20 false packet (omega (arith, offset))
                (omega arith)))
      | inr b ↦ rw b (inl (unchanged ihl packet))
    ]

-- The clamping of any IP packet ends. Unless the header is said to have less than 20 bytes, or the
-- packet does not hold the TCP header that it says it has, in which case the index may be out of
-- bounds, the packet keeps its length, and is as it was or its TCP checksum verifies.
pub clamp_mss-Clamped :
    (packet : List ℕ) (safe_payload_mtu : ℕ)
    → All IsByte packet
    → length packet < 2 ^ 16
    → let ihl = get_or packet 0 0 % 16 * 4 in
      let offset = get_or packet (ihl + 12) 0 / 16 * 4 in
      Clamped ihl packet (clamp_mss packet safe_payload_mtu)
      ⊎ ((clamp_mss packet safe_payload_mtu ≡ crashed) × Short ihl offset packet)
unfolding clamp_mss
clamp_mss-Clamped packet mtu bytes small =
    let ihl = get_or packet 0 0 % 16 * 4 in
    let M : Clamping → Type 0 = λ c.
      Clamped ihl packet c
      ⊎ ((c ≡ crashed) × Short ihl (get_or packet (ihl + 12) 0 / 16 * 4) packet) in
    let same : M (clamping false packet) = inl (unchanged ihl packet) in
    if_cases M (ltb (length packet) 40) (λ (a : ltb (length packet) 40 ≡ true). same)
      (λ (a : ltb (length packet) 40 ≡ false).
        if_cases M (not (get_or packet 0 0 / 16 == 4))
          (λ (b : not (get_or packet 0 0 / 16 == 4) ≡ true). same)
          (λ (b : not (get_or packet 0 0 / 16 == 4) ≡ false).
            if_cases M (ltb (length packet) (ihl + 20))
              (λ (c : ltb (length packet) (ihl + 20) ≡ true). same)
              (λ (c : ltb (length packet) (ihl + 20) ≡ false).
                if_cases M (not (get_or packet 9 0 == 6))
                  (λ (d : not (get_or packet 9 0 == 6) ≡ true). same)
                  (λ (d : not (get_or packet 9 0 == 6) ≡ false).
                    clamp_segment-Clamped ihl (segment_at ihl mtu packet) packet bytes small
                      (ltb→le (length packet) (ihl + 20) c) refl))))
