-- ===== src/Crypto/Tests.antt =====
-- Runs of the replay window, and its theorems at concrete inputs.
use r2n.Common.{
  ℕ, ◌-◌, ◌<◌, ◌≡◌, refl, not, none, some, List, [], ◌∷◌, arith, replicate, take, drop,
}
use r2n.Common.Bits.{test_bit, set_bit}
use r2n.Crypto.{
  Aead, ReplayWindow, debug, release, new_window, done, check_replay_window, advance_replay_window,
  encrypt_in_place, decrypt_in_place, decrypt,
}
use r2n.Crypto.Replay.{
  Call, in_place, copying, receive, receive_all, new_receiver, Distinct, receive_all-Distinct,
}
use r2n.Crypto.FarJump.{advance_far}
use r2n.Crypto.RoundTrip.{IsCorrect, decrypt_in_place-encrypt_in_place}

-- A cipher that hides nothing.
abbrev pub open_aead : Aead
open_aead = record { encrypt = λ n a p. some (p, replicate 16 0); decrypt = λ n a c t. some c }

abbrev frame : ℕ → Call
frame nonce = in_place nonce [] (replicate 20 7)

abbrev arrivals : List Call
arrivals = frame 5 ∷ frame 3 ∷ frame 5 ∷ frame 3 ∷ copying 4 (replicate 16 0) ∷ frame 100 ∷ []

arrivals_accepted :
    (receive_all open_aead release new_receiver arrivals).accepted ≡ 100 ∷ 4 ∷ 3 ∷ 5 ∷ []
unfolding receive_all decrypt_in_place decrypt check_replay_window advance_replay_window test_bit
    set_bit receive
arrivals_accepted = refl

receive_all-Distinct_example :
    Distinct (receive_all open_aead release new_receiver arrivals).accepted
receive_all-Distinct_example = receive_all-Distinct open_aead release arrivals

abbrev late_window : ReplayWindow
late_window = record { last_nonce = 5; bitmap = 0b10101 }

advance_far_example :
    (advance_replay_window debug late_window 100 ≡ none)
    × ((w : ReplayWindow) × (advance_replay_window release late_window 100 ≡ some w)
        × ((d : ℕ)
            → 0 < d
            → d < 64
            → (5 < 100 - d) × (check_replay_window w (100 - d) ≡ not (test_bit 0b10101 d))))
advance_far_example = advance_far late_window 100 (omega arith) (omega arith)

pub open_aead-IsCorrect : IsCorrect open_aead
open_aead-IsCorrect = record {
  text_length = λ n a p c t e. ground arith;
  tag_length = λ n a p c t e. ground arith;
  decrypts = λ n a p c t e. ground arith;
}

decrypt_in_place-encrypt_in_place_example :
    (out : List ℕ) × (encrypt_in_place open_aead debug 7 [] (replicate 20 1) 3 ≡ done (19, out))
    × (drop 19 out ≡ 1 ∷ [])
    × (decrypt_in_place open_aead debug new_window 7 [] (take 19 out)
        ≡ done (record { last_nonce = 7; bitmap = 1 }, 1 ∷ 1 ∷ 1 ∷ []))
unfolding check_replay_window advance_replay_window set_bit
decrypt_in_place-encrypt_in_place_example =
    decrypt_in_place-encrypt_in_place open_aead debug new_window 7 3 [] (replicate 20 1)
      (1 ∷ 1 ∷ 1 ∷ []) (replicate 16 0) (record { last_nonce = 7; bitmap = 1 }) open_aead-IsCorrect
      (omega arith) refl refl refl
