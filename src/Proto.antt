-- ===== src/Proto.antt =====
-- crates/r2n-proto/src/lib.rs: the packet types and the fixed header of dataplane frames.
-- A buffer is a list of bytes; the ids, which are byte arrays, are the numbers that they spell.
pub mod Layout
pub mod RoundTrip
mod Tests
use r2n.Common.{
  ℕ, ◌+◌, ◌*◌, ◌-◌, ◌^◌, ◌<◌, ◌≡◌, Bool, true, false, ◌&&◌, Option, none, some, List, [], ◌∷◌, ◌++◌,
  Result, ok, err, length, get_or, take, drop, ltb, ◌==◌, if◌then◌else◌,
}
use r2n.Common.Words.{be_bytes, from_be}

abbrev pub protocol_version : ℕ
protocol_version = 2

abbrev pub data_magic : List ℕ
data_magic = b'R' ∷ b'2' ∷ b'N' ∷ b'D' ∷ []

abbrev pub data_header_size : ℕ
data_header_size = 148

pub data DataPacketType : Type 0 where
  ipv4 ipv6 broadcast multicast discovery keepalive ping pong ethernet : DataPacketType

pub as_u8 : DataPacketType → ℕ
as_u8 ipv4 = 0
as_u8 ipv6 = 1
as_u8 broadcast = 2
as_u8 multicast = 3
as_u8 discovery = 4
as_u8 keepalive = 5
as_u8 ping = 6
as_u8 pong = 7
as_u8 ethernet = 8

pub from_u8 : ℕ → Option DataPacketType
from_u8 v =
    if v == 0
    then some ipv4
    else if v == 1
    then some ipv6
    else if v == 2
    then some broadcast
    else if v == 3
    then some multicast
    else if v == 4
    then some discovery
    else if v == 5
    then some keepalive
    else if v == 6
    then some ping
    else if v == 7
    then some pong
    else if v == 8
    then some ethernet
    else none

pub record DataHeader : Type 0 where
  pub version : ℕ
  pub flags : ℕ
  pub packet_type : DataPacketType
  pub reserved : ℕ
  pub ttl : ℕ
  pub room_id : ℕ
  pub src_node : ℕ
  pub dst_node : ℕ
  pub origin_node : ℕ
  pub session_id : ℕ
  pub nonce : ℕ
  pub packet_id : ℕ
  pub payload_len : ℕ

pub data DataHeaderError : Type 0 where
  buffer_too_short invalid_magic invalid_packet_type : DataHeaderError
  unsupported_version invalid_payload_length : DataHeaderError

-- `buf[off..off + bs.len()].copy_from_slice(bs)`.
abbrev pub write : ℕ → List ℕ → List ℕ → List ℕ
write off bs buf = take off buf ++ (bs ++ drop (off + length bs) buf)

abbrev pub writes : List (ℕ × List ℕ) → List ℕ → List ℕ
writes [] buf = buf
writes ((off, bs) ∷ ws) buf = writes ws (write off bs buf)

-- `buf[a..b]`.
abbrev pub slice : ℕ → ℕ → List ℕ → List ℕ
slice a b buf = take (b - a) (drop a buf)

-- The assignments of `encode_into`, in its order.
abbrev pub header_writes : DataHeader → List (ℕ × List ℕ)
header_writes h =
    (0, data_magic)
    ∷ (4, h.version ∷ [])
    ∷ (5, h.flags ∷ [])
    ∷ (6, as_u8 h.packet_type ∷ [])
    ∷ (7, h.ttl ∷ [])
    ∷ (8, be_bytes 16 h.room_id)
    ∷ (24, be_bytes 32 h.src_node)
    ∷ (56, be_bytes 32 h.dst_node)
    ∷ (88, be_bytes 32 h.origin_node)
    ∷ (120, be_bytes 8 h.session_id)
    ∷ (128, be_bytes 8 h.nonce)
    ∷ (136, be_bytes 8 h.packet_id)
    ∷ (144, be_bytes 2 h.payload_len)
    ∷ (146, h.reserved ∷ [])
    ∷ (147, 0 ∷ [])
    ∷ []

pub encode_into : DataHeader → List ℕ → Result DataHeaderError (List ℕ)
encode_into h buf =
    if ltb (length buf) data_header_size
    then err buffer_too_short
    else ok (writes (header_writes h) buf)

abbrev pub list_eq : List ℕ → List ℕ → Bool
list_eq [] [] = true
list_eq (x ∷ xs) (y ∷ ys) = (x == y) && list_eq xs ys
list_eq _ _ = false

abbrev pub read_header : DataPacketType → List ℕ → DataHeader
read_header t buf = record {
  version = get_or buf 4 0;
  flags = get_or buf 5 0;
  packet_type = t;
  reserved = get_or buf 146 0;
  ttl = get_or buf 7 0;
  room_id = from_be (slice 8 24 buf);
  src_node = from_be (slice 24 56 buf);
  dst_node = from_be (slice 56 88 buf);
  origin_node = from_be (slice 88 120 buf);
  session_id = from_be (slice 120 128 buf);
  nonce = from_be (slice 128 136 buf);
  packet_id = from_be (slice 136 144 buf);
  payload_len = from_be (slice 144 146 buf);
}

abbrev pub typed_header : Option DataPacketType → List ℕ → Result DataHeaderError DataHeader
typed_header none buf = err invalid_packet_type
typed_header (some t) buf = ok (read_header t buf)

pub decode : List ℕ → Result DataHeaderError DataHeader
decode buf =
    if ltb (length buf) data_header_size
    then err buffer_too_short
    else if list_eq (slice 0 4 buf) data_magic
    then (if get_or buf 4 0 == protocol_version
        then typed_header (from_u8 (get_or buf 6 0)) buf
        else err unsupported_version)
    else err invalid_magic

unfoldable pub payload_range : DataHeader → ℕ × ℕ
payload_range h = (data_header_size, data_header_size + h.payload_len)

unfoldable pub frame_len : DataHeader → ℕ
frame_len h = data_header_size + h.payload_len

-- The ranges of the fields' types.
pub record IsTyped (h : DataHeader) : Type 0 where
  pub version_u8 : h.version < 256
  pub flags_u8 : h.flags < 256
  pub reserved_u8 : h.reserved < 256
  pub ttl_u8 : h.ttl < 256
  pub room_id_array : h.room_id < 256 ^ 16
  pub src_node_array : h.src_node < 256 ^ 32
  pub dst_node_array : h.dst_node < 256 ^ 32
  pub origin_node_array : h.origin_node < 256 ^ 32
  pub session_id_u64 : h.session_id < 256 ^ 8
  pub nonce_u64 : h.nonce < 256 ^ 8
  pub packet_id_u64 : h.packet_id < 256 ^ 8
  pub payload_len_u16 : h.payload_len < 256 ^ 2
