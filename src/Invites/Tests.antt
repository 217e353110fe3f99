-- ===== src/Invites/Tests.antt =====
-- The invite of a room without names, and the theorem at it.
use Prim.Native.String.{String}
use r2n.Common.{ℕ, zero, suc, ◌≡◌, refl, true, Option, none, some, List, [], ◌∷◌, ◌==◌, ==_refl}
use r2n.Invites.{
  InviteData, Codecs, unsigned, sign, verify, encode, decode, all_supernodes, add_nodes,
}
use r2n.Invites.Supernodes.{times, times-all_supernodes}
use r2n.Invites.Signing.{decode-encode_signed}

-- An invite that has no names.
abbrev nameless : ℕ → ℕ → ℕ → Option (List ℕ) → InviteData
nameless version room_id room_pub_key signature = record {
  version = version;
  primary_supernode = "";
  fallback_supernodes = [];
  supernode_addr = "";
  room_id = room_id;
  room_pub_key = room_pub_key;
  virtual_cidr = none;
  token = none;
  expires_at = none;
  signature = signature;
}

abbrev with_signature : Option (List ℕ) → List ℕ
with_signature none = 0 ∷ []
with_signature (some s) = 1 ∷ s

-- Other invites are not encoded.
abbrev if_nameless :
    String
    → List String
    → String
    → Option String
    → Option String
    → Option ℕ
    → List ℕ
    → Option (List ℕ)
if_nameless String.[] [] String.[] none none none bytes = some bytes
if_nameless _ _ _ _ _ _ bytes = none

abbrev parts : InviteData → List ℕ
parts d = d.version ∷ d.room_id ∷ d.room_pub_key ∷ with_signature d.signature

abbrev to_bytes : InviteData → Option (List ℕ)
to_bytes d =
    if_nameless d.primary_supernode d.fallback_supernodes d.supernode_addr d.virtual_cidr d.token
      d.expires_at (parts d)

abbrev signature_of : ℕ → List ℕ → Option (List ℕ)
signature_of zero s = none
signature_of (suc tag) s = some s

abbrev of_bytes : List ℕ → Option InviteData
of_bytes (v ∷ r ∷ k ∷ tag ∷ s) = some (nameless v r k (signature_of tag s))
of_bytes _ = none

abbrev one : List ℕ → Option ℕ
one (x ∷ []) = some x
one _ = none

abbrev codecs : Codecs
codecs = record {
  SigningKey = ℕ;
  VerifyingKey = ℕ;
  Signature = ℕ;
  verifying_key = λ key. key;
  sign = λ key bytes. key;
  to_vec = λ s. s ∷ [];
  from_slice = one;
  verify = λ key bytes s. s == key;
  to_stdvec = to_bytes;
  from_bytes = of_bytes;
  encode = λ bytes. bytes;
  decode = λ text. some text;
}

of_bytes-parts :
    (v r k : ℕ) (signature : Option (List ℕ))
    → of_bytes (parts (nameless v r k signature)) ≡ some (nameless v r k signature)
of_bytes-parts v r k none = refl
of_bytes-parts v r k (some s) = refl

all_parts :
    (v r k : ℕ) (sig : Option (List ℕ)) (a : String) (b : List String) (c : String)
    (f g : Option String) (h : Option ℕ) (bytes : List ℕ)
    → let d : InviteData = record {
      version = v;
      primary_supernode = a;
      fallback_supernodes = b;
      supernode_addr = c;
      room_id = r;
      room_pub_key = k;
      virtual_cidr = f;
      token = g;
      expires_at = h;
      signature = sig;
    } in
      to_bytes d ≡ some bytes → of_bytes bytes ≡ some d
all_parts v r k sig String.[] [] String.[] none none none bytes e =
    let same : parts (nameless v r k sig) ≡ bytes = cc in rw (← same) (of_bytes-parts v r k sig)
all_parts v r k sig String.[] [] String.[] none none (some h) bytes e = cc
all_parts v r k sig String.[] [] String.[] none (some g) h bytes e = cc
all_parts v r k sig String.[] [] String.[] (some f) g h bytes e = cc
all_parts v r k sig String.[] [] (String.◌∷◌ x c) f g h bytes e = cc
all_parts v r k sig String.[] (x ∷ b) c f g h bytes e = cc
all_parts v r k sig (String.◌∷◌ x a) b c f g h bytes e = cc

of_bytes-to_bytes :
    (d : InviteData) (bytes : List ℕ) → to_bytes d ≡ some bytes → of_bytes bytes ≡ some d
of_bytes-to_bytes d bytes e =
    all_parts d.version d.room_id d.room_pub_key d.signature d.primary_supernode
      d.fallback_supernodes d.supernode_addr d.virtual_cidr d.token d.expires_at bytes e

abbrev room : InviteData
room = nameless 2 9 3 none

decode-encode_signed_example :
    (verify codecs 7 (sign codecs 7 room) ≡ true)
    × (read : InviteData) × (decode codecs (encode codecs (sign codecs 7 room)) ≡ some read)
    × (unsigned read ≡ room)
    × (verify codecs 7 read ≡ true)
unfolding sign
decode-encode_signed_example =
    decode-encode_signed codecs 7 room (2 ∷ 9 ∷ 3 ∷ 1 ∷ 7 ∷ [])
      (record {
        base64 = λ bytes. refl;
        postcard = of_bytes-to_bytes;
        bytes_of_signature = λ s. refl;
        signature = λ key bytes. ==_refl key;
      })
      refl

known_nodes :
    all_supernodes (record room {
      primary_supernode = "a:1";
      fallback_supernodes = "b:1" ∷ "a:1" ∷ "" ∷ "b:1" ∷ [];
    })
    ≡ "a:1" ∷ "b:1" ∷ []
unfolding all_supernodes add_nodes
known_nodes = refl

times-all_supernodes_example :
    times "b:1" (all_supernodes (record room { fallback_supernodes = "b:1" ∷ "b:1" ∷ [] })) ≡ 1
times-all_supernodes_example =
    times-all_supernodes (record room { fallback_supernodes = "b:1" ∷ "b:1" ∷ [] }) "b:1"
