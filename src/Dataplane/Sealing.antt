-- ===== src/Dataplane/Sealing.antt =====
-- crates/r2n-dataplane/src/lib.rs, send_to_peer: how a frame is built in its slot.
pub mod Opening
use r2n.Common.{
  ℕ, ◌+◌, ◌-◌, ◌%◌, ◌^◌, ◌≡◌, Bool, true, false, Option, none, some, List, [], ◌∷◌, ◌++◌, Result,
  ok, err, length, take, drop, replicate, leb, if◌then◌else◌,
}
use r2n.Proto.{DataHeader, DataHeaderError, data_header_size, encode_into, write}
use r2n.Crypto.{Aead, ReplayWindow, Outcome, done, failed, panicked, Profile, encrypt_in_place}

-- r2n-crypto's Cipher: the AEAD under its key, and the window of the nonces received.
pub record Cipher : Type 0 where
  pub aead : Aead
  pub window : ReplayWindow

-- `payload_len as u16`.
abbrev pub with_len : ℕ → DataHeader → DataHeader
with_len n h = record h { payload_len = n % 2 ^ 16 }

abbrev pub zero_header : List ℕ
zero_header = replicate data_header_size 0

-- The header is written over the first bytes of the slot.
abbrev pub headed : ℕ → List ℕ → Result DataHeaderError (List ℕ) → Outcome ℕ × List ℕ
headed n slot (err e) = (panicked, slot)
headed n slot (ok bytes) = (done n, bytes ++ drop data_header_size slot)

abbrev pub write_header : DataHeader → ℕ → List ℕ → Outcome ℕ × List ℕ
write_header h n slot = headed n slot (encode_into (with_len n h) (take data_header_size slot))

abbrev pub after_encryption : DataHeader → List ℕ → Outcome (ℕ × List ℕ) → Outcome ℕ × List ℕ
after_encryption h slot (done (n, text)) = write_header h n (take data_header_size slot ++ text)
after_encryption h slot failed = (failed, slot)
after_encryption h slot panicked = (panicked, slot)

module _ (profile : Profile) where
  abbrev pub encrypt_slot :
      Aead → DataHeader → ℕ → List ℕ → Result DataHeaderError (List ℕ) → Outcome ℕ × List ℕ
  encrypt_slot aead h len slot (err e) = (panicked, slot)
  encrypt_slot aead h len slot (ok header_buf) =
      after_encryption h slot
        (encrypt_in_place aead profile h.nonce header_buf (drop data_header_size slot) len)

  abbrev pub seal_placed : Option Cipher → DataHeader → ℕ → List ℕ → Outcome ℕ × List ℕ
  seal_placed none h len slot = write_header h len slot
  seal_placed (some c) h len slot =
      encrypt_slot c.aead h len slot (encode_into (with_len (len + 16) h) zero_header)

  -- What is done to the slot: the payload's length in the frame, or an error or a panic, and the
  -- slot's bytes. `h` is the header but for the payload's length.
  pub seal : Option Cipher → DataHeader → List ℕ → List ℕ → Outcome ℕ × List ℕ
  seal cipher h payload slot =
      if leb (data_header_size + length payload) (length slot)
      then seal_placed cipher h (length payload) (write data_header_size payload slot)
      else (panicked, slot)
