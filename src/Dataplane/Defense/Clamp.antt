-- ===== src/Dataplane/Defense/Clamp.antt =====
-- The loop over the options of a SYN, and the packet that comes out of it.
use r2n.Common.{
  ℕ, zero, suc, ◌+◌, ◌≤◌, ◌<◌, ◌≡◌, ◌⊎◌, inl, inr, refl, ◌∙◌, Bool, true, false, not, ◌&&◌, ◌||◌,
  List, [], ◌∷◌, ◌++◌, arith, length, All, take, drop, get_or, if_cases, ltb, ◌==◌, length-append,
  length-take, length-drop, ltb→lt, ltb→le,
}
use r2n.Common.Words.{IsByte, be_bytes, from_be}
use r2n.Proto.{slice, write}
use r2n.Proto.RoundTrip.{All-slice}
use r2n.Dataplane.Defense.{
  Segment, Visit, breaks, panics, continues, Clamping, out_of_rounds, crashed, clamping, mss_option,
  visit, options,
}

-- What a round may do to a packet.
unfoldable pub Changes : Bool → List ℕ → Bool → List ℕ → Type 0
Changes clamped packet now_clamped changed =
    ((now_clamped ≡ clamped) × (changed ≡ packet)) ⊎ (now_clamped ≡ true)

abbrev pub Kept : Bool → List ℕ → Bool → List ℕ → Type 0
Kept clamped packet now_clamped changed =
    (length changed ≡ length packet)
    × (All IsByte packet → All IsByte changed)
    × Changes clamped packet now_clamped changed

Visited : Segment → ℕ → Bool → List ℕ → Visit → Type 0
Visited seg i clamped packet breaks = length packet ≡ length packet
Visited seg i clamped packet panics =
    (i + 4 ≤ seg.data_offset) × (length packet < seg.tcp_start + i + 4)
Visited seg i clamped packet (continues j now_clamped changed) =
    (i < j) × (j ≤ seg.data_offset) × Kept clamped packet now_clamped changed

pub length-write_word :
    (off v : ℕ) (packet : List ℕ)
    → off + 2 ≤ length packet
    → length (write off (be_bytes 2 v) packet) ≡ length packet
unfolding be_bytes
length-write_word off v packet h = omega (
  arith,
  length-append (take off packet) (be_bytes 2 v ++ drop (off + 2) packet),
  length-take off packet,
  length-drop (off + 2) packet,
)

All-append : (xs ys : List ℕ) → All IsByte xs → All IsByte ys → All IsByte (xs ++ ys)
All-append [] ys h k = k
All-append (x ∷ xs) ys h k = (h.0, All-append xs ys h.1 k)

pub All-drop : (n : ℕ) (xs : List ℕ) → All IsByte xs → All IsByte (drop n xs)
All-drop zero xs h = h
All-drop (suc n) [] h = tt
All-drop (suc n) (x ∷ xs) h = All-drop n xs h.1

pub All-write_word :
    (off v : ℕ) (packet : List ℕ) → All IsByte packet → All IsByte (write off (be_bytes 2 v) packet)
unfolding be_bytes
All-write_word off v packet h =
    All-append (take off packet) (be_bytes 2 v ++ drop (off + 2) packet) (All-slice 0 off packet h)
      (omega arith, (omega arith, All-drop (off + 2) packet h))

mss_option-Visited :
    (seg : Segment) (i : ℕ) (clamped : Bool) (packet : List ℕ)
    → i + 4 ≤ seg.data_offset
    → Visited seg i clamped packet (mss_option seg i clamped packet)
unfolding Visited Changes
mss_option-Visited seg i clamped packet inside =
    let at = seg.tcp_start + i + 2 in
    if_cases (Visited seg i clamped packet) (ltb (at + 1) (length packet))
      (λ (e : ltb (at + 1) (length packet) ≡ true).
        if_cases (Visited seg i clamped packet)
          (ltb seg.max_mss (from_be (slice at (at + 2) packet)))
          (λ (b : ltb seg.max_mss (from_be (slice at (at + 2) packet)) ≡ true). (
            omega arith,
            omega arith,
            (
              length-write_word at seg.max_mss packet
                  (omega (arith, ltb→lt (at + 1) (length packet) e)),
              All-write_word at seg.max_mss packet,
              inr refl,
            ),
          ))
          (λ (b : ltb seg.max_mss (from_be (slice at (at + 2) packet)) ≡ false).
            (omega arith, omega arith, (refl, λ h. h, inl (refl, refl)))))
      (λ (e : ltb (at + 1) (length packet) ≡ false).
        (inside, omega (arith, ltb→le (at + 1) (length packet) e)))

visit-Visited :
    (seg : Segment) (i : ℕ) (clamped : Bool) (packet : List ℕ)
    → Visited seg i clamped packet (visit seg i clamped packet)
unfolding visit Visited Changes
visit-Visited seg i clamped packet =
    let kind = get_or packet (seg.tcp_start + i) 0 in
    let opt_len = get_or packet (seg.tcp_start + i + 1) 0 in
    let V = Visited seg i clamped packet in
    if_cases V (not (ltb i seg.data_offset && ltb (i + 1) seg.tcp_len))
      (λ (b : not (ltb i seg.data_offset && ltb (i + 1) seg.tcp_len) ≡ true). refl)
      (λ (b : not (ltb i seg.data_offset && ltb (i + 1) seg.tcp_len) ≡ false).
        let below : i < seg.data_offset = ground arith in
        if_cases V (kind == 0) (λ (c : (kind == 0) ≡ true). refl)
          (λ (c : (kind == 0) ≡ false).
            if_cases V (kind == 1)
              (λ (d : (kind == 1) ≡ true).
                (omega arith, omega (arith, below), (refl, λ h. h, inl (refl, refl))))
              (λ (d : (kind == 1) ≡ false).
                if_cases V (ltb opt_len 2 || ltb seg.data_offset (i + opt_len))
                  (λ (e : (ltb opt_len 2 || ltb seg.data_offset (i + opt_len)) ≡ true). refl)
                  (λ (e : (ltb opt_len 2 || ltb seg.data_offset (i + opt_len)) ≡ false).
                    if_cases V ((kind == 2) && (opt_len == 4))
                      (λ (f : ((kind == 2) && (opt_len == 4)) ≡ true).
                        mss_option-Visited seg i clamped packet (ground arith))
                      (λ (f : ((kind == 2) && (opt_len == 4)) ≡ false).
                        (ground arith, ground arith, (refl, λ h. h, inl (refl, refl))))))))

Changes-trans :
    (c d e : Bool) (p q r : List ℕ) → Changes c p d q → Changes d q e r → Changes c p e r
unfolding Changes
Changes-trans c d e p q r (inl (dc, qp)) (inl (ed, rq)) = inl (ed ∙ dc, rq ∙ qp)
Changes-trans c d e p q r (inr t) (inl (ed, rq)) = inr (ed ∙ t)
Changes-trans c d e p q r h (inr t) = inr t

-- How the loop ends that has rounds enough.
unfoldable pub Ended : Segment → Bool → List ℕ → Clamping → Type 0
Ended seg clamped packet out_of_rounds = ⊥
Ended seg clamped packet crashed = length packet < seg.tcp_start + seg.data_offset
Ended seg clamped packet (clamping d out) = Kept clamped packet d out

Ended-Kept :
    (seg : Segment) (c d : Bool) (p q : List ℕ) (result : Clamping)
    → Kept c p d q
    → Ended seg d q result
    → Ended seg c p result
unfolding Ended
Ended-Kept seg c d p q crashed (len, bytes, changes) h = omega (arith, len, h)
Ended-Kept seg c d p q (clamping e r) (len, bytes, changes) (len2, bytes2, changes2) =
    (len2 ∙ len, λ h. bytes2 (bytes h), Changes-trans c d e p q r changes changes2)
Ended-Kept seg c d p q out_of_rounds k h = elim h [ ]

pub options-Ended :
    (n : ℕ) (seg : Segment) (i : ℕ) (clamped : Bool) (packet : List ℕ)
    → i ≤ seg.data_offset
    → seg.data_offset < n + i
    → Ended seg clamped packet (options n seg i clamped packet)
unfolding options Ended Changes Visited
options-Ended zero seg i clamped packet inside enough = omega (arith, inside, enough)
options-Ended (suc n) seg i clamped packet inside enough =
    go (λ j d q. options-Ended n seg j d q) (visit seg i clamped packet)
      (visit-Visited seg i clamped packet)
  where
    go :
        ((j : ℕ) (d : Bool) (q : List ℕ)
          → j ≤ seg.data_offset
          → seg.data_offset < n + j
          → Ended seg d q (options n seg j d q))
        → (v : Visit) → Visited seg i clamped packet v
        → Ended seg clamped packet (elim v [
          | breaks ↦ clamping clamped packet
          | panics ↦ crashed
          | continues j d q ↦ options n seg j d q
        ])
    go further breaks h = (refl, λ b. b, inl (refl, refl))
    go further panics (four, short) = omega (arith, four, short)
    go further (continues j d q) (later, below, kept) =
        Ended-Kept seg clamped d packet q (options n seg j d q) kept
          (further j d q below (omega (arith, later, enough)))
