-- ===== src/Crypto.antt =====
-- crates/r2n-crypto/src/lib.rs: the cipher of a peer and its replay window. ChaCha20-Poly1305 is
-- the parameter `Aead`. The window's mutex serialises each of its two methods.
pub mod Replay
pub mod FarJump
pub mod RoundTrip
pub mod Tests
use r2n.Common.{
  ℕ, ◌+◌, ◌-◌, ◌*◌, ◌/◌, ◌%◌, ◌^◌, ◌≤◌, ◌<◌, ◌≡◌, Bool, true, false, not, min, Option, none, some,
  List, [], ◌∷◌, ◌++◌, length, take, drop, replicate, ltb, leb, if◌then◌else◌,
}
use r2n.Common.Words.{be_bytes}
use r2n.Common.Bits.{test_bit, set_bit, shl64}

-- The cipher under a fixed key, by nonce (12 bytes), associated data and text. `encrypt` returns
-- the ciphertext and its tag.
pub record Aead : Type 0 where
  pub encrypt : List ℕ → List ℕ → List ℕ → Option (List ℕ × List ℕ)
  pub decrypt : List ℕ → List ℕ → List ℕ → List ℕ → Option (List ℕ)

pub record ReplayWindow : Type 0 where
  pub last_nonce : ℕ
  pub bitmap : ℕ

abbrev pub new_window : ReplayWindow
new_window = record { last_nonce = 0; bitmap = 0 }

-- A call returns a value or the error `Aead`, or it panics.
pub data Outcome (A : Type 0) : Type 0 where
  done : A → Outcome A
  failed : Outcome A
  panicked : Outcome A

-- Whether overflowing shifts panic (debug), or take the amount modulo 64 (release).
pub data Profile : Type 0 where
  debug release : Profile

abbrev pub shift_amount : Profile → ℕ → Option ℕ
shift_amount debug s = if ltb s 64 then some s else none
shift_amount release s = some (s % 64)

unfoldable pub check_replay_window : ReplayWindow → ℕ → Bool
check_replay_window win nonce =
    if leb nonce win.last_nonce
    then (let diff = win.last_nonce - nonce in
        if leb 64 diff then false else not (test_bit win.bitmap diff))
    else true

abbrev pub move_window : ReplayWindow → ℕ → Option ℕ → Option ReplayWindow
move_window win nonce none = none
move_window win nonce (some s) =
    some (record { last_nonce = nonce; bitmap = set_bit (shl64 win.bitmap s) 0 })

abbrev pub mark_window : ReplayWindow → Option ℕ → Option ReplayWindow
mark_window win none = none
mark_window win (some s) = some (record win { bitmap = set_bit win.bitmap s })

-- `none` is a panic.
unfoldable pub advance_replay_window : Profile → ReplayWindow → ℕ → Option ReplayWindow
advance_replay_window profile win nonce =
    if ltb win.last_nonce nonce
    then move_window win nonce (shift_amount profile (min (nonce - win.last_nonce) 64))
    else mark_window win (shift_amount profile (win.last_nonce - nonce))

-- `n[4..12].copy_from_slice(&nonce.to_be_bytes())` over twelve zeros.
abbrev pub nonce_bytes : ℕ → List ℕ
nonce_bytes nonce = replicate 4 0 ++ be_bytes 8 nonce

abbrev pub finish : Option ReplayWindow → List ℕ → Outcome (ReplayWindow × List ℕ)
finish none bytes = panicked
finish (some win) bytes = done (win, bytes)

module _ (aead : Aead) (profile : Profile) where
  -- The buffer behind `payload_len` takes the tag; the rest of the buffer is kept.
  unfoldable pub encrypt_in_place : ℕ → List ℕ → List ℕ → ℕ → Outcome (ℕ × List ℕ)
  encrypt_in_place nonce aad buffer payload_len =
      if leb payload_len (length buffer)
      then elim (aead.encrypt (nonce_bytes nonce) aad (take payload_len buffer)) [
        | none ↦ failed
        | some (text, tag) ↦
            if leb (payload_len + 16) (length buffer)
            then done (payload_len + 16, text ++ (tag ++ drop (payload_len + 16) buffer))
            else panicked
      ]
      else panicked

  pub decrypt : ReplayWindow → ℕ → List ℕ → Outcome (ReplayWindow × List ℕ)
  decrypt win nonce ciphertext =
      if check_replay_window win nonce
      then (if ltb (length ciphertext) 16
          then failed
          else elim (aead.decrypt (nonce_bytes nonce) [] (take (length ciphertext - 16) ciphertext)
              (drop (length ciphertext - 16) ciphertext)) [
                | none ↦ failed
                | some text ↦ finish (advance_replay_window profile win nonce) text
              ])
      else failed

  -- The result holds the buffer's first `payload_len` bytes; the tag behind them stays.
  unfoldable pub decrypt_in_place :
      ReplayWindow → ℕ → List ℕ → List ℕ → Outcome (ReplayWindow × List ℕ)
  decrypt_in_place win nonce aad buffer =
      if check_replay_window win nonce
      then (if ltb (length buffer) 16
          then failed
          else elim (aead.decrypt (nonce_bytes nonce) aad (take (length buffer - 16) buffer)
              (drop (length buffer - 16) buffer)) [
                | none ↦ failed
                | some text ↦ finish (advance_replay_window profile win nonce) text
              ])
      else failed
