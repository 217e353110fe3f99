-- ===== src/Transport/Framing.antt =====
-- What a peer frames, the transport takes as a data packet.
use r2n.Common.{
  ℕ, ◌+◌, ◌-◌, ◌≡◌, refl, sym, ap, ◌∙◌, Option, List, [], ◌++◌, ok, arith, length, take,
  length-append, take-append, drop-append, le→leb, le→ltb, ==_refl,
}
use mathlib.Core.List.{append-nil}
use r2n.Proto.{
  DataHeader, data_header_size, protocol_version, payload_range, slice, IsTyped, decode,
}
use r2n.Proto.RoundTrip.{header_bytes, slice-header_bytes, length-header_bytes, decode-header_bytes}
use r2n.Supernode.Frames.{ControlFrame}
use r2n.Transport.{data_packet, checked_range, recv_packet}

ranged :
    (h : DataHeader) (n : ℕ)
    → h.payload_len ≡ n
    → checked_range (data_header_size + n) (ok h)
      ≡ ok (data_packet h (data_header_size, data_header_size + n))
unfolding payload_range
ranged h n e =
    let len : data_header_size + h.payload_len ≡ data_header_size + n = omega (arith, e) in
    rw (len, ==_refl (data_header_size + n)) refl

pub recv_packet-header_bytes :
    (parse_control : List ℕ → Option ControlFrame) (h : DataHeader) (body : List ℕ)
    → IsTyped h
    → h.version ≡ protocol_version
    → h.payload_len ≡ length body
    → recv_packet parse_control (header_bytes h ++ body)
      ≡ ok (data_packet h (data_header_size, data_header_size + length body))
unfolding recv_packet payload_range
recv_packet-header_bytes parse_control h body typed version_ok sized =
    let whole : length (header_bytes h ++ body) ≡ data_header_size + length body =
      omega (arith, length-append (header_bytes h) body, length-header_bytes h) in
    let front : take data_header_size (header_bytes h ++ body) ≡ header_bytes h =
      take-append data_header_size (header_bytes h) body (length-header_bytes h) in
    let decoded : decode (header_bytes h) ≡ ok h =
      ap decode (sym (append-nil (header_bytes h))) ∙ decode-header_bytes h [] typed version_ok in
    let fits : checked_range (data_header_size + length body) (ok h)
        ≡ ok (data_packet h (data_header_size, data_header_size + length body)) =
      ranged h (length body) sized in
    rw
      (
        slice-header_bytes h body,
        whole,
        front,
        decoded,
        le→leb 4 (data_header_size + length body) (omega arith),
        le→ltb (data_header_size + length body) data_header_size (omega arith),
      )
      fits

-- The range that the packet gives is the frame's body.
pub slice-header_bytes_body :
    (h : DataHeader) (body : List ℕ)
    → slice data_header_size (data_header_size + length body) (header_bytes h ++ body) ≡ body
slice-header_bytes_body h body =
    let width : data_header_size + length body - data_header_size ≡ length body = omega arith in
    rw (drop-append data_header_size (header_bytes h) body (length-header_bytes h), width)
      (ap (take (length body)) (sym (append-nil body)) ∙ take-append (length body) body [] refl)
