-- ===== src/Invites.antt =====
-- crates/r2n-common/src/lib.rs, InviteData: what is needed to join a room, and how it is signed and
-- made a text. The encodings (postcard, base64) and the signatures (ed25519) are the parameter
-- `Codecs`; the text of an invite is the list of its bytes.
pub mod Signing
pub mod Supernodes
mod Tests
use Prim.Native.String.{String}
use text.Mathlib.Text.{◌==◌}
use r2n.Common.{
  ℕ, ◌≡◌, Bool, true, false, not, ◌&&◌, ◌||◌, Option, none, some, List, [], ◌∷◌, ◌++◌, any,
  if◌then◌else◌,
}

pub record InviteData : Type 0 where
  pub version : ℕ
  pub primary_supernode : String
  pub fallback_supernodes : List String
  pub supernode_addr : String
  pub room_id : ℕ
  pub room_pub_key : ℕ
  pub virtual_cidr : Option String
  pub token : Option String
  pub expires_at : Option ℕ
  pub signature : Option (List ℕ)

-- Bytes of an invite (`none` is an error), text of bytes, and signatures by a key.
pub record Codecs : Type 1 where
  pub SigningKey : Type 0
  pub VerifyingKey : Type 0
  pub Signature : Type 0
  pub verifying_key : SigningKey → VerifyingKey
  pub sign : SigningKey → List ℕ → Signature
  pub to_vec : Signature → List ℕ
  pub from_slice : List ℕ → Option Signature
  pub verify : VerifyingKey → List ℕ → Signature → Bool
  pub to_stdvec : InviteData → Option (List ℕ)
  pub from_bytes : List ℕ → Option InviteData
  pub encode : List ℕ → List ℕ
  pub decode : List ℕ → Option (List ℕ)

abbrev pub is_empty : String → Bool
is_empty s = s == ""

abbrev pub primary_supernode_addr : InviteData → String
primary_supernode_addr d =
    if is_empty d.primary_supernode then d.supernode_addr else d.primary_supernode

pub add_nodes : List String → List String → List String
add_nodes nodes [] = nodes
add_nodes nodes (node ∷ rest) =
    add_nodes
      (if not (is_empty node) && not (any (λ (n : String). n == node) nodes)
        then nodes ++ (node ∷ [])
        else nodes)
      rest

pub all_supernodes : InviteData → List String
all_supernodes d =
    let primary = primary_supernode_addr d in
    add_nodes (if not (is_empty primary) then primary ∷ [] else []) d.fallback_supernodes

-- `unwrap_or_default`.
abbrev pub bytes_or_none : Option (List ℕ) → List ℕ
bytes_or_none none = []
bytes_or_none (some bytes) = bytes

abbrev pub unsigned : InviteData → InviteData
unsigned d = record d { signature = none }

module _ (codecs : Codecs) where
  pub sign : codecs.SigningKey → InviteData → InviteData
  sign key d = record d {
    signature =
        some (codecs.to_vec (codecs.sign key (bytes_or_none (codecs.to_stdvec (unsigned d)))));
  }

  abbrev pub checked : codecs.VerifyingKey → List ℕ → Option codecs.Signature → Bool
  checked key bytes none = false
  checked key bytes (some sig) = codecs.verify key bytes sig

  abbrev pub verify_with : codecs.VerifyingKey → InviteData → Option (List ℕ) → Bool
  verify_with key d none = false
  verify_with key d (some sig_bytes) =
      checked key (bytes_or_none (codecs.to_stdvec (unsigned d))) (codecs.from_slice sig_bytes)

  pub verify : codecs.VerifyingKey → InviteData → Bool
  verify key d = verify_with key d d.signature

  pub encode : InviteData → List ℕ
  encode d = codecs.encode (bytes_or_none (codecs.to_stdvec d))

  abbrev pub from_decoded : Option (List ℕ) → Option InviteData
  from_decoded none = none
  from_decoded (some bytes) = codecs.from_bytes bytes

  unfoldable pub decode : List ℕ → Option InviteData
  decode s = from_decoded (codecs.decode s)
