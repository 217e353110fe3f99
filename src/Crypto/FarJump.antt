-- ===== src/Crypto/FarJump.antt =====
-- A nonce that lies 64 or more above the last one.
use r2n.Common.{ℕ, zero, suc, ◌+◌, ◌-◌, ◌/◌, ◌*◌, ◌^◌, ◌≤◌, ◌<◌, ◌≡◌, not, none, some, arith}
use r2n.Common.Bits.{test_bit, set_bit, shl64, test_bit-mod}
use r2n.Crypto.{ReplayWindow, debug, release, check_replay_window, advance_replay_window}

test_bit-set_bit_zero : (b d : ℕ) → 0 < d → test_bit (set_bit b 0) d ≡ test_bit b d
unfolding test_bit set_bit
test_bit-set_bit_zero b zero h = absurd (omega arith)
test_bit-set_bit_zero b (suc d) h = let p : (b / 2 * 2 + 1) / 2 ≡ b / 2 = omega arith in rw p

-- A debug build panics. A release build shifts by `64 % 64`, so the old bitmap now speaks of nonces
-- near the new one: a nonce above all that were ever accepted is refused wherever the old bitmap
-- has a bit set.
pub advance_far :
    (win : ReplayWindow) (nonce : ℕ)
    → win.bitmap < 2 ^ 64
    → win.last_nonce + 64 ≤ nonce
    → (advance_replay_window debug win nonce ≡ none)
      × ((w : ReplayWindow) × (advance_replay_window release win nonce ≡ some w)
          × ((d : ℕ)
              → 0 < d
              → d < 64
              → (win.last_nonce < nonce - d)
                × (check_replay_window w (nonce - d) ≡ not (test_bit win.bitmap d))))
unfolding advance_replay_window check_replay_window
advance_far win nonce fits far = (
  ground arith,
  (
    record { last_nonce = nonce; bitmap = set_bit (shl64 win.bitmap 0) 0 },
    ground arith,
    λ d lo hi. (
      omega arith,
      ground (arith, test_bit-set_bit_zero (shl64 win.bitmap 0) d, test_bit-mod 64 d win.bitmap hi),
    ),
  ),
)
