-- ===== src/Dataplane/Defense/Checksum.antt =====
-- The Internet checksum: a checksum that is written over two zeros makes the bytes verify.
use r2n.Common.{
  ℕ, zero, suc, ◌+◌, ◌*◌, ◌/◌, ◌%◌, ◌^◌, ◌≤◌, ◌<◌, ◌≡◌, refl, ap, ◌∙◌, true, false, List, [], ◌∷◌,
  ◌++◌, arith, length, All, ◌==◌, if_cases, length-append,
}
use r2n.Common.Words.{IsByte, be_bytes}
use r2n.Dataplane.Defense.{add32, word_sum, fold_carries, complement}

-- The sum of the words, without a bound.
pub total : List ℕ → ℕ
total (a ∷ b ∷ bytes) = 256 * a + b + total bytes
total (a ∷ []) = 256 * a
total [] = 0

word_sum-total :
    (sum : ℕ) (bytes : List ℕ) → sum < 2 ^ 32 → word_sum sum bytes ≡ (sum + total bytes) % 2 ^ 32
unfolding word_sum total
word_sum-total sum (a ∷ b ∷ bytes) h =
    word_sum-total (add32 sum (256 * a + b)) bytes (omega arith) ∙ (omega arith)
word_sum-total sum (a ∷ []) h = refl
word_sum-total sum [] h = omega arith

pub total-bound : (bytes : List ℕ) → All IsByte bytes → 2 * total bytes ≤ 65535 * (length bytes + 1)
unfolding total
total-bound (a ∷ b ∷ bytes) (ha, (hb, hs)) = omega (arith, total-bound bytes hs)
total-bound (a ∷ []) (ha, hs) = omega arith
total-bound [] h = omega arith

-- Bytes that are no more than an IP packet holds do not wrap the sum.
pub word_sum-exact :
    (sum : ℕ) (bytes : List ℕ)
    → All IsByte bytes
    → sum < 2 ^ 24
    → length bytes < 2 ^ 16
    → word_sum sum bytes ≡ sum + total bytes
word_sum-exact sum bytes all small short =
    word_sum-total sum bytes (omega arith) ∙ omega (arith, total-bound bytes all)

-- Words up to a place of even distance, and those behind it.
pub total-append :
    (k : ℕ) (xs ys : List ℕ) → length xs ≡ 2 * k → total (xs ++ ys) ≡ total xs + total ys
unfolding total
total-append zero [] ys e = omega arith
total-append zero (x ∷ xs) ys e = grind arith
total-append (suc k) (a ∷ b ∷ xs) ys e = omega (arith, total-append k xs ys (omega arith))
total-append (suc k) (a ∷ []) ys e = grind arith
total-append (suc k) [] ys e = grind arith

fold_carries-mod :
    (n sum : ℕ)
    → sum < 2 ^ 32
    → (q : ℕ) × (sum ≡ fold_carries n sum + 65535 * q) × (0 < sum → 0 < fold_carries n sum)
unfolding fold_carries
fold_carries-mod zero sum h = (0, omega arith, λ p. p)
fold_carries-mod (suc n) sum h =
    let next = (sum % 2 ^ 16 + sum / 2 ^ 16) % 2 ^ 32 in
    let (q, e, up) = fold_carries-mod n next (omega arith) in
    if_cases (λ v. (q : ℕ) × (sum ≡ v + 65535 * q) × (0 < sum → 0 < v)) (sum / 2 ^ 16 == 0)
      (λ (b : (sum / 2 ^ 16 == 0) ≡ true). (0, omega arith, λ p. p))
      (λ (b : (sum / 2 ^ 16 == 0) ≡ false).
        (q + sum / 2 ^ 16, omega (arith, e), λ p. up (omega (arith, p))))

-- Four rounds are enough: the loop's condition no longer holds.
pub fold_carries-bound : (sum : ℕ) → sum < 2 ^ 32 → fold_carries 4 sum < 2 ^ 16
unfolding fold_carries
fold_carries-bound sum h = ground arith

complement-congruent :
    (sum : ℕ)
    → sum < 2 ^ 32
    → (q : ℕ) × (sum + complement sum ≡ 65535 * (q + 1)) × (complement sum < 2 ^ 16)
unfolding complement
complement-congruent sum h =
    let (q, e, up) = fold_carries-mod 4 sum h in
    let small = fold_carries-bound sum h in (q, omega (arith, e, small), omega arith)

complement-zero : (sum q : ℕ) → sum < 2 ^ 32 → sum ≡ 65535 * (q + 1) → complement sum ≡ 0
unfolding complement
complement-zero sum q h e =
    let (r, f, up) = fold_carries-mod 4 sum h in
    let small = fold_carries-bound sum h in omega (arith, e, f, small, up (omega (arith, e)))

-- The complement of a sum, added to the sum, verifies.
pub complement-complement : (sum : ℕ) → sum + 65535 < 2 ^ 32 → complement (sum + complement sum) ≡ 0
complement-complement sum h =
    let (q, e, small) = complement-congruent sum (omega arith) in
    complement-zero (sum + complement sum) q (omega (arith, small)) e

pub complement-bound : (sum : ℕ) → complement sum < 2 ^ 16
unfolding complement
complement-bound sum = omega arith

All-middle :
    (front back : List ℕ) (a b c d : ℕ)
    → All IsByte (front ++ (a ∷ b ∷ back))
    → IsByte c
    → IsByte d
    → All IsByte (front ++ (c ∷ d ∷ back))
All-middle [] back a b c d (ha, (hb, h)) hc hd = (hc, (hd, h))
All-middle (x ∷ front) back a b c d (hx, h) hc hd = (hx, All-middle front back a b c d h hc hd)

length-middle :
    (front back : List ℕ) (a b : ℕ)
    → length (front ++ (a ∷ b ∷ back)) ≡ length front + length back + 2
length-middle front back a b = omega (arith, length-append front (a ∷ b ∷ back))

-- The sum of the words around a pair of bytes.
word_sum-middle :
    (k sum a b : ℕ) (front back : List ℕ)
    → length front ≡ 2 * k
    → All IsByte (front ++ (a ∷ b ∷ back))
    → sum < 2 ^ 24
    → length (front ++ (a ∷ b ∷ back)) < 2 ^ 16
    → word_sum sum (front ++ (a ∷ b ∷ back)) ≡ sum + total front + (256 * a + b) + total back
unfolding total
word_sum-middle k sum a b front back even bytes small short =
    word_sum-exact sum (front ++ (a ∷ b ∷ back)) bytes small short
    ∙ omega (arith, total-append k front (a ∷ b ∷ back) even)

pub be_bytes_two : (c : ℕ) → be_bytes 2 c ≡ (c / 256 % 256) ∷ (c % 256) ∷ []
unfolding be_bytes
be_bytes_two c = refl

-- A checksum over two zeros, written in their place.
pub checksum-filled :
    (k sum : ℕ) (front back : List ℕ)
    → length front ≡ 2 * k
    → All IsByte (front ++ (0 ∷ 0 ∷ back))
    → sum < 2 ^ 24
    → length (front ++ (0 ∷ 0 ∷ back)) < 2 ^ 16
    → let c = complement (word_sum sum (front ++ (0 ∷ 0 ∷ back))) in
      complement (word_sum sum (front ++ (be_bytes 2 c ++ back))) ≡ 0
checksum-filled k sum front back even bytes small short =
    let s = word_sum sum (front ++ (0 ∷ 0 ∷ back)) in
    let c = complement s in
    let fits = complement-bound s in
    let exact = word_sum-middle k sum 0 0 front back even bytes small short in
    let room = total-bound (front ++ (0 ∷ 0 ∷ back)) bytes in
    let parts = word_sum-exact sum (front ++ (0 ∷ 0 ∷ back)) bytes small short in
    let filled =
      word_sum-middle k sum (c / 256 % 256) (c % 256) front back even
        (All-middle front back 0 0 (c / 256 % 256) (c % 256) bytes (omega arith) (omega arith))
        small
        (omega (
          arith,
          short,
          length-middle front back 0 0,
          length-middle front back (c / 256 % 256) (c % 256),
        )) in
    ap (λ (w : List ℕ). complement (word_sum sum (front ++ (w ++ back)))) (be_bytes_two c)
    ∙ ap complement (filled ∙ omega (arith, exact, fits))
    ∙ complement-complement s (omega (arith, parts, room, short))
