-- ===== src/Dataplane/Sealing/Opening.antt =====
-- A sealed frame is received and opened as the payload that was sealed.
use r2n.Common.{
  ℕ, zero, suc, ◌+◌, ◌-◌, ◌≤◌, ◌≡◌, refl, ap, ◌∙◌, true, none, some, List, [], ◌∷◌, ◌++◌, ok, arith,
  length, take, drop, length-append, length-take, length-drop, take-append, drop-append, le→leb,
  le→ltb,
}
use mathlib.Core.List.{append-nil}
use r2n.Proto.{DataHeader, data_header_size, encode_into, write}
use r2n.Proto.RoundTrip.{header_bytes, encode_into_lem}
use r2n.Crypto.{
  Aead, ReplayWindow, done, Profile, nonce_bytes, encrypt_in_place, decrypt_in_place,
  check_replay_window, advance_replay_window, finish,
}
use r2n.Crypto.RoundTrip.{IsCorrect}
use r2n.Dataplane.Sealing.{
  Cipher, with_len, zero_header, headed, write_header, after_encryption, seal,
}

-- What a header's bytes are as associated data.
pub encode_zero : (h : DataHeader) → encode_into h zero_header ≡ ok (header_bytes h)
encode_zero h = encode_into_lem h zero_header (omega arith) ∙ ap ok (append-nil (header_bytes h))

drop-take : (k : ℕ) (xs : List ℕ) → drop k (take k xs) ≡ []
drop-take zero xs = refl
drop-take (suc k) [] = refl
drop-take (suc k) (x ∷ xs) = drop-take k xs

write_header_lem :
    (h : DataHeader) (n : ℕ) (slot : List ℕ)
    → data_header_size ≤ length slot
    → write_header h n slot ≡ (done n, header_bytes (with_len n h) ++ drop data_header_size slot)
write_header_lem h n slot fits =
    let front = take data_header_size slot in
    let long : data_header_size ≤ length front = omega (arith, length-take data_header_size slot) in
    ap (headed n slot) (
      encode_into_lem (with_len n h) front long
      ∙ ap ok (
          ap (◌++◌ (header_bytes (with_len n h))) (drop-take data_header_size slot)
          ∙ append-nil (header_bytes (with_len n h))))

-- A payload that fits is placed behind the header's room.
placed_parts :
    (payload slot : List ℕ)
    → data_header_size + length payload ≤ length slot
    → drop data_header_size (write data_header_size payload slot)
      ≡ payload ++ drop (data_header_size + length payload) slot
placed_parts payload slot fits =
    drop-append data_header_size (take data_header_size slot) _
      (omega (arith, length-take data_header_size slot))

placed_length :
    (payload slot : List ℕ)
    → data_header_size + length payload ≤ length slot
    → length (write data_header_size payload slot) ≡ length slot
placed_length payload slot fits =
    let behind = drop (data_header_size + length payload) slot in
    omega (
      arith,
      length-append (take data_header_size slot) (payload ++ behind),
      length-append payload behind,
      length-take data_header_size slot,
      length-drop (data_header_size + length payload) slot,
    )

front_length :
    (payload slot : List ℕ)
    → data_header_size + length payload ≤ length slot
    → length (take data_header_size (write data_header_size payload slot)) ≡ data_header_size
front_length payload slot fits = omega (
  arith,
  placed_length payload slot fits,
  length-take data_header_size (write data_header_size payload slot),
)

encrypt_in_place_lem :
    (aead : Aead) (profile : Profile) (nonce len : ℕ) (aad buffer text tag : List ℕ)
    → len + 16 ≤ length buffer
    → aead.encrypt (nonce_bytes nonce) aad (take len buffer) ≡ some (text, tag)
    → encrypt_in_place aead profile nonce aad buffer len
      ≡ done (len + 16, text ++ (tag ++ drop (len + 16) buffer))
unfolding encrypt_in_place
encrypt_in_place_lem aead profile nonce len aad buffer text tag room e =
    rw (le→leb len (length buffer) (omega arith), e, le→leb (len + 16) (length buffer) room) refl

module _ (profile : Profile) where
  -- With a cipher, the slot begins with the header, the ciphertext and its tag.
  pub seal_encrypted :
      (c : Cipher) (h : DataHeader) (payload slot text tag : List ℕ)
      → IsCorrect c.aead
      → data_header_size + length payload + 16 ≤ length slot
      → c.aead.encrypt
          (nonce_bytes h.nonce)
          (header_bytes (with_len (length payload + 16) h))
          payload
        ≡ some (text, tag)
      → (rest : List ℕ) × (seal profile (some c) h payload slot ≡ (
        done (length payload + 16),
        header_bytes (with_len (length payload + 16) h) ++ (text ++ (tag ++ rest)),
      ))
  unfolding seal
  seal_encrypted c h payload slot text tag law fits e =
      let len = length payload in
      let placed = write data_header_size payload slot in
      let behind = drop (data_header_size + len) slot in
      let parts = placed_parts payload slot (omega arith) in
      let buffer = drop data_header_size placed in
      let room : len + 16 ≤ length buffer = omega (
        arith,
        ap length parts,
        length-append payload behind,
        length-drop (data_header_size + len) slot,
      ) in
      let text_first : take len buffer ≡ payload =
        ap (take len) parts ∙ take-append len payload behind refl in
      let rest = drop (len + 16) buffer in
      let body = text ++ (tag ++ rest) in
      let front = front_length payload slot (omega arith) in
      (
        rest,
        rw
            (
              le→leb (data_header_size + len) (length slot) (omega arith),
              encode_zero (with_len (len + 16) h),
            )
            (ap (after_encryption h placed) (
                encrypt_in_place_lem c.aead profile h.nonce len
                  (header_bytes (with_len (len + 16) h)) buffer text tag room
                  (ap (c.aead.encrypt (nonce_bytes h.nonce) (header_bytes (with_len (len + 16) h)))
                      text_first
                    ∙ e))
              ∙ write_header_lem h (len + 16) (take data_header_size placed ++ body)
                  (omega (arith, front, length-append (take data_header_size placed) body))
              ∙ ap (λ (b : List ℕ). (done (len + 16), header_bytes (with_len (len + 16) h) ++ b))
                  (drop-append data_header_size (take data_header_size placed) body front)),
      )

  -- Without one, with the header and the payload.
  pub seal_plain :
      (h : DataHeader) (payload slot : List ℕ)
      → data_header_size + length payload ≤ length slot
      → (rest : List ℕ) × (seal profile none h payload slot ≡ (
        done (length payload),
        header_bytes (with_len (length payload) h) ++ (payload ++ rest),
      ))
  unfolding seal
  seal_plain h payload slot fits =
      let len = length payload in
      let placed = write data_header_size payload slot in
      (
        drop (data_header_size + len) slot,
        rw (le→leb (data_header_size + len) (length slot) fits) (
            write_header_lem h len placed (omega (arith, placed_length payload slot fits))
            ∙ ap (λ (b : List ℕ). (done len, header_bytes (with_len len h) ++ b))
                (placed_parts payload slot fits)),
      )

  -- A text and its tag are decrypted where the window lets the nonce pass.
  pub decrypt_sealed :
      (aead : Aead) (win : ReplayWindow) (nonce : ℕ) (aad payload text tag : List ℕ)
      → IsCorrect aead
      → aead.encrypt (nonce_bytes nonce) aad payload ≡ some (text, tag)
      → check_replay_window win nonce ≡ true
      → decrypt_in_place aead profile win nonce aad (text ++ tag)
        ≡ finish (advance_replay_window profile win nonce) payload
  unfolding decrypt_in_place
  decrypt_sealed aead win nonce aad payload text tag law e fresh =
      let tag_len = law.tag_length _ _ _ _ _ e in
      let cut : length (text ++ tag) - 16 ≡ length text =
        omega (arith, tag_len, length-append text tag) in
      rw
        (
          fresh,
          le→ltb (length (text ++ tag)) 16 (omega (arith, tag_len, length-append text tag)),
          cut,
          take-append (length text) text tag refl,
          drop-append (length text) text tag refl,
          law.decrypts _ _ _ _ _ e,
        )
        refl
