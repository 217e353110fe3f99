-- ===== src/Proto/RoundTrip.antt =====
-- `encode_into` and `decode` undo one another.
use r2n.Common.{
  ℕ, ◌+◌, ◌≤◌, ◌<◌, ◌≡◌, refl, sym, ap, ◌∙◌, List, [], ◌∷◌, ◌++◌, some, ok, err, true, arith,
  length, take, drop, get_or, All, length-append, length-drop, subst, le→ltb, ltb→le, Bool, false,
  Option, if◌then◌else◌, ==_iff, drop-append, length-take, zero, suc,
}
use r2n.Common.Words.{
  be_bytes, from_be, from_be-be_bytes, be_bytes-from_be, length-be_bytes, IsByte,
}
use r2n.Proto.{
  DataHeader, DataPacketType, IsTyped, protocol_version, data_header_size, data_magic, list_eq,
  buffer_too_short, unsupported_version, invalid_magic, typed_header, as_u8, from_u8, header_writes,
  write, slice, encode_into, decode, read_header, typed_header,
}
use r2n.Proto.Layout.{written, writes-written, Holds, writes_same}

pub from_u8-as_u8 : (t : DataPacketType) → from_u8 (as_u8 t) ≡ some t
unfolding from_u8 as_u8
from_u8-as_u8 t = ground arith

pub as_u8-from_u8 : (v : ℕ) (t : DataPacketType) → from_u8 v ≡ some t → as_u8 t ≡ v
unfolding from_u8 as_u8
as_u8-from_u8 v t h = ground arith

pub header_bytes : DataHeader → List ℕ
header_bytes h = written (header_writes h)

pub encode_into_lem :
    (h : DataHeader) (buf : List ℕ)
    → data_header_size ≤ length buf
    → encode_into h buf ≡ ok (header_bytes h ++ drop data_header_size buf)
unfolding encode_into header_bytes be_bytes
encode_into_lem h buf fits =
    rw (le→ltb _ _ fits) (ap ok (writes-written buf (header_writes h) (omega arith)))

pub length-header_bytes : (h : DataHeader) → length (header_bytes h) ≡ data_header_size
unfolding header_bytes be_bytes
length-header_bytes h = refl

-- A frame begins with its magic.
pub slice-header_bytes :
    (h : DataHeader) (body : List ℕ) → slice 0 4 (header_bytes h ++ body) ≡ data_magic
unfolding header_bytes
slice-header_bytes h body = refl

pub decode-header_bytes :
    (h : DataHeader) (rest : List ℕ)
    → IsTyped h
    → h.version ≡ protocol_version
    → decode (header_bytes h ++ rest) ≡ ok h
unfolding decode header_bytes be_bytes
decode-header_bytes h rest ty v2 =
    rw
      (
        le→ltb (length (header_bytes h ++ rest)) 148 long,
        (==_iff h.version 2).1 v2,
        from_u8-as_u8 h.packet_type,
      )
      λ i. ok (record h {
        room_id = from_be-be_bytes 16 h.room_id ty.room_id_array i;
        src_node = from_be-be_bytes 32 h.src_node ty.src_node_array i;
        dst_node = from_be-be_bytes 32 h.dst_node ty.dst_node_array i;
        origin_node = from_be-be_bytes 32 h.origin_node ty.origin_node_array i;
        session_id = from_be-be_bytes 8 h.session_id ty.session_id_u64 i;
        nonce = from_be-be_bytes 8 h.nonce ty.nonce_u64 i;
        packet_id = from_be-be_bytes 8 h.packet_id ty.packet_id_u64 i;
        payload_len = from_be-be_bytes 2 h.payload_len ty.payload_len_u16 i;
      })
  where
    long : 148 ≤ length (header_bytes h ++ rest)
    long = omega (arith, length-append (header_bytes h) rest, length-header_bytes h)

-- A header of the current version, written into any buffer with room for it, is read back as it
-- was; the buffer keeps its length, and what stood behind the first 148 bytes.
pub decode-encode_into :
    (h : DataHeader) (buf : List ℕ)
    → IsTyped h
    → h.version ≡ protocol_version
    → data_header_size ≤ length buf
    → (out : List ℕ) × (encode_into h buf ≡ ok out)
      × (decode out ≡ ok h)
      × (drop data_header_size out ≡ drop data_header_size buf)
      × (length out ≡ length buf)
decode-encode_into h buf ty v2 fits = (
  header_bytes h ++ drop 148 buf,
  encode_into_lem h buf fits,
  decode-header_bytes h (drop 148 buf) ty v2,
  drop-append 148 (header_bytes h) (drop 148 buf) (length-header_bytes h),
  omega (
    arith,
    length-append (header_bytes h) (drop 148 buf),
    length-header_bytes h,
    length-drop 148 buf,
  ),
)

-- The writes of `encode_into` but the last.
field_writes : DataHeader → List (ℕ × List ℕ)
field_writes h = take 14 (header_writes h)

pub All-slice : (n m : ℕ) (xs : List ℕ) → All IsByte xs → All IsByte (take m (drop n xs))
All-slice zero zero xs h = tt
All-slice zero (suc m) [] h = tt
All-slice zero (suc m) (x ∷ xs) h = (h.0, All-slice zero m xs h.1)
All-slice (suc n) zero [] h = tt
All-slice (suc n) (suc m) [] h = tt
All-slice (suc n) m (x ∷ xs) h = All-slice n m xs h.1

-- The bytes of a field, read as an integer and written again.
be_bytes-slice :
    (n off : ℕ) (buf : List ℕ)
    → All IsByte buf
    → off + n ≤ length buf
    → be_bytes n (from_be (take n (drop off buf))) ≡ take n (drop off buf)
be_bytes-slice n off buf b fits =
    let e : length (take n (drop off buf)) ≡ n =
      omega (arith, length-take n (drop off buf), length-drop off buf) in
    subst (λ (k : ℕ). be_bytes k (from_be (take n (drop off buf))) ≡ take n (drop off buf)) e
      (be_bytes-from_be (take n (drop off buf)) (All-slice off n buf b))

get_or-slice :
    (off : ℕ) (buf : List ℕ) → off < length buf → get_or buf off 0 ∷ [] ≡ take 1 (drop off buf)
get_or-slice off [] fits = absurd (omega arith)
get_or-slice zero (x ∷ buf) fits = refl
get_or-slice (suc off) (x ∷ buf) fits = get_or-slice off buf (omega arith)

field_writes-Holds :
    (t : DataPacketType) (buf : List ℕ)
    → All IsByte buf
    → data_header_size ≤ length buf
    → slice 0 4 buf ≡ data_magic
    → as_u8 t ≡ get_or buf 6 0
    → Holds buf (field_writes (read_header t buf))
unfolding field_writes
field_writes-Holds t buf b fits magic kind = (
  sym magic,
  omega arith,
  (
    get_or-slice 4 buf (omega arith),
    omega arith,
    (
      get_or-slice 5 buf (omega arith),
      omega arith,
      (
        ap (λ (v : ℕ). v ∷ []) kind ∙ get_or-slice 6 buf (omega arith),
        omega arith,
        (
          get_or-slice 7 buf (omega arith),
          omega arith,
          (
            at 16 8 (omega arith),
            room 16 8 (omega arith),
            (
              at 32 24 (omega arith),
              room 32 24 (omega arith),
              (
                at 32 56 (omega arith),
                room 32 56 (omega arith),
                (
                  at 32 88 (omega arith),
                  room 32 88 (omega arith),
                  (
                    at 8 120 (omega arith),
                    room 8 120 (omega arith),
                    (
                      at 8 128 (omega arith),
                      room 8 128 (omega arith),
                      (
                        at 8 136 (omega arith),
                        room 8 136 (omega arith),
                        (
                          at 2 144 (omega arith),
                          room 2 144 (omega arith),
                          (get_or-slice 146 buf (omega arith), omega arith, tt),
                        ),
                      ),
                    ),
                  ),
                ),
              ),
            ),
          ),
        ),
      ),
    ),
  ),
)
  where
    bytes : ℕ → ℕ → List ℕ
    bytes n off = be_bytes n (from_be (take n (drop off buf)))

    at :
        (n off : ℕ)
        → off + n ≤ length buf
        → bytes n off ≡ take (length (bytes n off)) (drop off buf)
    at n off h = rw (length-be_bytes n) (be_bytes-slice n off buf b h)

    room : (n off : ℕ) → off + n ≤ length buf → off + length (bytes n off) ≤ length buf
    room n off h = rw (length-be_bytes n) h

list_eq-eq : (xs ys : List ℕ) → list_eq xs ys ≡ true → xs ≡ ys
list_eq-eq [] [] h = refl
list_eq-eq [] (y ∷ ys) h = cc
list_eq-eq (x ∷ xs) [] h = cc
list_eq-eq (x ∷ xs) (y ∷ ys) h = ground (arith, list_eq-eq xs ys)

decode_passes :
    (short magic version : Bool) (kind : Option DataPacketType) (buf : List ℕ) (h : DataHeader)
    → (if short
        then err buffer_too_short
        else if magic
        then (if version then typed_header kind buf else err unsupported_version)
        else err invalid_magic)
      ≡ ok h
    → (t : DataPacketType) × (short ≡ false)
      × (magic ≡ true)
      × (version ≡ true)
      × (kind ≡ some t)
      × (h ≡ read_header t buf)
decode_passes false true true (some t) buf h e = (t, refl, refl, refl, refl, cc)
decode_passes _ _ _ _ buf h e = cc

-- What a successful `decode` has checked, and what it returns.
decode_inv :
    (buf : List ℕ) (h : DataHeader)
    → decode buf ≡ ok h
    → (t : DataPacketType) × (data_header_size ≤ length buf)
      × (slice 0 4 buf ≡ data_magic)
      × (get_or buf 4 0 ≡ protocol_version)
      × (from_u8 (get_or buf 6 0) ≡ some t)
      × (h ≡ read_header t buf)
unfolding decode
decode_inv buf h e =
    let (t, long, magic, version, kind, read) = decode_passes _ _ _ _ buf h e in
    (t, ltb→le _ _ long, list_eq-eq _ _ magic, (==_iff _ 2).0 version, kind, read)

-- A header that `decode` accepts is written back as the very bytes that it was read from, but for
-- the last byte of the header, which `decode` ignores and `encode_into` clears.
pub encode_into-decode :
    (buf : List ℕ) (h : DataHeader)
    → All IsByte buf
    → decode buf ≡ ok h
    → encode_into h buf ≡ ok (write 147 (0 ∷ []) buf)
unfolding encode_into field_writes
encode_into-decode buf h b e =
    let (t, fits, magic, version, kind, read) = decode_inv buf h e in
    rw (read, le→ltb _ _ fits)
      (ap ok (
        writes_same buf (field_writes (read_header t buf)) ((147, 0 ∷ []) ∷ [])
          (field_writes-Holds t buf b fits magic (as_u8-from_u8 _ t kind))))
