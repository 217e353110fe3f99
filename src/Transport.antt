-- ===== src/Transport.antt =====
-- crates/r2n-transport/src/lib.rs: how a datagram is told apart and checked. The decoder of control
-- frames (postcard) is a parameter.
pub mod Framing
use r2n.Common.{
  ℕ, ◌+◌, ◌≡◌, Bool, true, false, not, ◌&&◌, Option, none, some, List, [], ◌∷◌, Result, ok, err,
  length, take, drop, leb, ltb, ◌==◌, if◌then◌else◌,
}
use r2n.Proto.{
  DataHeader, DataHeaderError, buffer_too_short, invalid_payload_length, data_header_size, decode,
  payload_range, list_eq, slice,
}
use r2n.Supernode.Frames.{ControlFrame}

abbrev pub control_magic : List ℕ
control_magic = b'R' ∷ b'2' ∷ b'N' ∷ b'C' ∷ []

-- A data packet holds its header and its payload's range.
pub data TransportPacket : Type 0 where
  control_packet : ControlFrame → TransportPacket
  data_packet : DataHeader → ℕ × ℕ → TransportPacket

pub data TransportError : Type 0 where
  serialization : TransportError
  data_header : DataHeaderError → TransportError

abbrev pub control_or : Option ControlFrame → Result TransportError TransportPacket
control_or none = err serialization
control_or (some frame) = ok (control_packet frame)

abbrev pub checked_range :
    ℕ → Result DataHeaderError DataHeader → Result TransportError TransportPacket
checked_range len (err e) = err (data_header e)
checked_range len (ok header) =
    let range = payload_range header in
    if not (range.1 == len)
    then err (data_header invalid_payload_length)
    else ok (data_packet header range)

-- `recv_packet`, of the bytes of one datagram.
pub recv_packet : (List ℕ → Option ControlFrame) → List ℕ → Result TransportError TransportPacket
unfolding payload_range
recv_packet parse_control buf =
    if leb 4 (length buf) && list_eq (slice 0 4 buf) control_magic
    then control_or (parse_control (drop 4 buf))
    else if ltb (length buf) data_header_size
    then err (data_header buffer_too_short)
    else checked_range (length buf) (decode (take data_header_size buf))
