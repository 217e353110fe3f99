-- ===== src/Crypto/RoundTrip.antt =====
-- What one peer encrypts in place the other decrypts in place.
use r2n.Common.{
  ℕ, ◌+◌, ◌-◌, ◌≤◌, ◌≡◌, refl, true, some, List, ◌++◌, arith, length, take, drop, length-append,
  take-append, drop-append, le→ltb, le→leb, length-take,
}
use mathlib.Core.List.{append_assoc}
use r2n.Crypto.{
  ReplayWindow, Profile, Aead, done, nonce_bytes, check_replay_window, advance_replay_window,
  encrypt_in_place, decrypt_in_place,
}

-- What an AEAD of ChaCha20-Poly1305's shape promises: texts keep their length, a tag has 16 bytes,
-- and what was encrypted is decrypted.
pub record IsCorrect (aead : Aead) : Type 0 where
  pub text_length : (n a p c t : List ℕ) → aead.encrypt n a p ≡ some (c, t) → length c ≡ length p
  pub tag_length : (n a p c t : List ℕ) → aead.encrypt n a p ≡ some (c, t) → length t ≡ 16
  pub decrypts :
      (n a p c t : List ℕ) → aead.encrypt n a p ≡ some (c, t) → aead.decrypt n a c t ≡ some p

-- With room for the tag, a buffer whose text the cipher encrypts comes back, at a receiver whose
-- window lets the nonce pass and can be advanced to it, as the text with the advanced window. The
-- bytes behind the tag are kept. (A debug build panics where the window cannot be advanced.)
pub decrypt_in_place-encrypt_in_place :
    (aead : Aead) (profile : Profile) (win : ReplayWindow) (nonce len : ℕ)
    (aad buffer text tag : List ℕ) (moved : ReplayWindow)
    → IsCorrect aead
    → len + 16 ≤ length buffer
    → aead.encrypt (nonce_bytes nonce) aad (take len buffer) ≡ some (text, tag)
    → check_replay_window win nonce ≡ true
    → advance_replay_window profile win nonce ≡ some moved
    → (out : List ℕ) × (encrypt_in_place aead profile nonce aad buffer len ≡ done (len + 16, out))
      × (drop (len + 16) out ≡ drop (len + 16) buffer)
      × (decrypt_in_place aead profile win nonce aad (take (len + 16) out)
          ≡ done (moved, take len buffer))
unfolding encrypt_in_place decrypt_in_place
decrypt_in_place-encrypt_in_place aead profile win nonce len aad buffer text tag moved law room e
      fresh advances =
    (
      text ++ (tag ++ drop (len + 16) buffer),
      rw (le→leb len (length buffer) (omega arith), e, le→leb (len + 16) (length buffer) room) refl,
      rw (← append_assoc text tag) (drop-append (len + 16) (text ++ tag) _ total),
      rw
          (
            ← append_assoc text tag,
            take-append (len + 16) (text ++ tag) (drop (len + 16) buffer) total,
            fresh,
            le→ltb (length (text ++ tag)) 16 (omega (arith, total)),
            cut,
            take-append len text tag text_len,
            drop-append len text tag text_len,
            law.decrypts _ _ _ _ _ e,
            advances,
          )
          refl,
    )
  where
    text_len : length text ≡ len
    text_len = omega (arith, law.text_length _ _ _ _ _ e, length-take len buffer)

    total : length (text ++ tag) ≡ len + 16
    total = omega (arith, text_len, length-append text tag, law.tag_length _ _ _ _ _ e)

    cut : length (text ++ tag) - 16 ≡ len
    cut = omega (arith, total)
