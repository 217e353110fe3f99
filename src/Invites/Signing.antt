-- ===== src/Invites/Signing.antt =====
-- A signed invite survives its text.
use r2n.Common.{ℕ, ◌≡◌, refl, ap, ◌∙◌, true, Option, some, List}
use r2n.Invites.{
  InviteData, Codecs, bytes_or_none, unsigned, sign, checked, verify, encode, from_decoded, decode,
}

-- What the crates document: texts and bytes come back, and a signature verifies under its key.
pub record IsFaithful (codecs : Codecs) : Type 0 where
  pub base64 : (bytes : List ℕ) → codecs.decode (codecs.encode bytes) ≡ some bytes
  pub postcard :
      (d : InviteData) (bytes : List ℕ)
      → codecs.to_stdvec d ≡ some bytes
      → codecs.from_bytes bytes ≡ some d
  pub bytes_of_signature : (s : codecs.Signature) → codecs.from_slice (codecs.to_vec s) ≡ some s
  pub signature :
      (key : codecs.SigningKey) (bytes : List ℕ)
      → codecs.verify (codecs.verifying_key key) bytes (codecs.sign key bytes) ≡ true

module _ (codecs : Codecs) where
  -- An invite that is signed verifies under the key of the signature; where its bytes are made
  -- without an error, its text is read back as the same invite, which verifies as well.
  pub decode-encode_signed :
      (key : codecs.SigningKey) (d : InviteData) (bytes : List ℕ)
      → IsFaithful codecs
      → codecs.to_stdvec (sign codecs key d) ≡ some bytes
      → (verify codecs (codecs.verifying_key key) (sign codecs key d) ≡ true)
        × (read : InviteData) × (decode codecs (encode codecs (sign codecs key d)) ≡ some read)
        × (unsigned read ≡ unsigned d)
        × (verify codecs (codecs.verifying_key key) read ≡ true)
  unfolding sign verify encode decode
  decode-encode_signed key d bytes law made =
      let verifies : verify codecs (codecs.verifying_key key) (sign codecs key d) ≡ true =
        let text = bytes_or_none (codecs.to_stdvec (unsigned d)) in
        ap (checked codecs (codecs.verifying_key key) text)
          (law.bytes_of_signature (codecs.sign key text))
        ∙ law.signature key text in
      (
        verifies,
        sign codecs key d,
        ap
              (λ (o : Option (List ℕ)).
                from_decoded codecs (codecs.decode (codecs.encode (bytes_or_none o))))
              made
            ∙ ap (from_decoded codecs) (law.base64 bytes)
            ∙ law.postcard (sign codecs key d) bytes made,
        refl,
        verifies,
      )
