-- ===== src/Common/Bits.antt =====
-- Single bits of a word, and shifts of a 64-bit word.
use Prim.Native.Nat.{ℕ, zero, suc, ◌+◌, ◌*◌, ◌/◌, ◌%◌, ◌^◌, ◌<◌}
use mathlib.Core.Path.{◌≡◌, ap, ◌∙◌}
use mathlib.Core.Bool.{Bool, true}
use native.Mathlib.Omega.{arith}
use native.Mathlib.Nat.{pow-suc}
use r2n.Common.Tests.{◌==◌}
use r2n.Common.Powers.{two_pow_pos}

-- Is `b & (1 << d)` nonzero?
unfoldable pub test_bit : ℕ → ℕ → Bool
test_bit b zero = b % 2 == 1
test_bit b (suc d) = test_bit (b / 2) d

-- `b | (1 << d)`.
unfoldable pub set_bit : ℕ → ℕ → ℕ
set_bit b zero = b / 2 * 2 + 1
set_bit b (suc d) = set_bit (b / 2) d * 2 + b % 2

-- `x << s` on a `u64`, for a shift below 64.
abbrev pub shl64 : ℕ → ℕ → ℕ
shl64 x s = x * 2 ^ s % 2 ^ 64

pub test_bit-set_bit_self : (b d : ℕ) → test_bit (set_bit b d) d ≡ true
unfolding test_bit set_bit
test_bit-set_bit_self b zero = ground arith
test_bit-set_bit_self b (suc d) =
    let e : (set_bit (b / 2) d * 2 + b % 2) / 2 ≡ set_bit (b / 2) d = omega arith in
    rw e (test_bit-set_bit_self (b / 2) d)

pub test_bit-set_bit_keep : (b d e : ℕ) → test_bit b e ≡ true → test_bit (set_bit b d) e ≡ true
unfolding test_bit set_bit
test_bit-set_bit_keep b zero zero h = ground arith
test_bit-set_bit_keep b zero (suc e) h = let p : (b / 2 * 2 + 1) / 2 ≡ b / 2 = omega arith in rw p h
test_bit-set_bit_keep b (suc d) zero h =
    let p : (set_bit (b / 2) d * 2 + b % 2) % 2 ≡ b % 2 = omega arith in rw p h
test_bit-set_bit_keep b (suc d) (suc e) h =
    let p : (set_bit (b / 2) d * 2 + b % 2) / 2 ≡ set_bit (b / 2) d = omega arith in
    rw p (test_bit-set_bit_keep (b / 2) d e h)

half-mod : (P y : ℕ) → 0 < P → y % (2 * P) / 2 ≡ y / 2 % P
half-mod P y h = grind arith

low-mod : (P y : ℕ) → 0 < P → y % (2 * P) % 2 ≡ y % 2
low-mod P y h = grind arith

pow_double : (k : ℕ) → 2 ^ suc k ≡ 2 * 2 ^ k
pow_double k = omega (arith, pow-suc 2 k)

pub test_bit-mod : (k d y : ℕ) → d < k → test_bit (y % 2 ^ k) d ≡ test_bit y d
unfolding test_bit
test_bit-mod zero d y h = absurd (omega arith)
test_bit-mod (suc k) zero y h = rw (pow_double k, low-mod (2 ^ k) y (two_pow_pos k))
test_bit-mod (suc k) (suc d) y h =
    rw (pow_double k, half-mod (2 ^ k) y (two_pow_pos k)) (test_bit-mod k d (y / 2) (omega arith))

test_bit-shl : (s x d e : ℕ) → e ≡ d + s → test_bit (x * 2 ^ s) e ≡ test_bit x d
unfolding test_bit
test_bit-shl zero x d e h =
    let one : x * 2 ^ 0 ≡ x = omega arith in let same : e ≡ d = omega arith in rw (one, same)
test_bit-shl (suc s) x d zero h = absurd (omega arith)
test_bit-shl (suc s) x d (suc e) h =
    let half : x * 2 ^ suc s / 2 ≡ x * 2 ^ s =
      omega (arith, ap (λ (t : ℕ). x * t) (pow_double s)) in
    rw half (test_bit-shl s x d e (omega arith))

-- A shift moves bit `d` to place `d + s`, as long as that lies in the word.
pub test_bit-shl64 : (x s d e : ℕ) → e ≡ d + s → e < 64 → test_bit (shl64 x s) e ≡ test_bit x d
test_bit-shl64 x s d e h fits = test_bit-mod 64 e (x * 2 ^ s) fits ∙ test_bit-shl s x d e h
