-- ===== src/Proto/Tests.antt =====
-- Runs of the codec, and its theorems at concrete inputs.
use r2n.Common.{ℕ, ◌≡◌, refl, List, [], ◌∷◌, ok, err, arith, length, drop, replicate}
use r2n.Common.Words.{be_bytes, from_be}
use r2n.Proto.{
  DataHeader, ipv4, encode_into, decode, unsupported_version, invalid_packet_type, frame_len,
  payload_range, as_u8, from_u8, write, writes, header_writes,
}
use r2n.Proto.RoundTrip.{decode-encode_into, encode_into-decode}

abbrev sample : DataHeader
sample = record {
  version = 2;
  flags = 0x11;
  packet_type = ipv4;
  reserved = 0;
  ttl = 1;
  room_id = 7;
  src_node = 1;
  dst_node = 2;
  origin_node = 1;
  session_id = 42;
  nonce = 99;
  packet_id = 123;
  payload_len = 512;
}

abbrev blank : List ℕ
blank = replicate 150 9

abbrev encoded : List ℕ
encoded = writes (header_writes sample) blank

decode-encoded : decode encoded ≡ ok sample
unfolding decode from_u8 as_u8 be_bytes from_be
decode-encoded = refl

decode_old_version : decode (write 4 (1 ∷ []) encoded) ≡ err unsupported_version
unfolding decode from_u8 as_u8 be_bytes from_be
decode_old_version = refl

decode_bad_type : decode (write 6 (99 ∷ []) encoded) ≡ err invalid_packet_type
unfolding decode from_u8 as_u8 be_bytes from_be
decode_bad_type = refl

frame_ranges : (payload_range sample ≡ (148, 660)) × (frame_len sample ≡ 660)
unfolding payload_range frame_len
frame_ranges = (refl, refl)

decode-encode_into_example :
    (out : List ℕ) × (encode_into sample blank ≡ ok out)
    × (decode out ≡ ok sample)
    × (drop 148 out ≡ 9 ∷ 9 ∷ [])
    × (length out ≡ 150)
decode-encode_into_example = decode-encode_into sample blank (omega arith) refl (omega arith)

encode_into-decode_example : encode_into sample encoded ≡ ok (write 147 (0 ∷ []) encoded)
unfolding be_bytes as_u8
encode_into-decode_example = encode_into-decode encoded sample (omega arith) decode-encoded
