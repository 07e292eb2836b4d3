-- ===== src/Datagram.antt =====
-- pkg/protocol/datagram_codec.go: the wire format of one datagram. A frame is the list of its
-- bytes; an encoder that fills a buffer front to back is the concatenation of the fields that it
-- writes, and a parser reads at the offsets that the source computes.
pub mod RoundTrip
pub mod Total
mod Tests
use quantum_go.Base.{
  ℕ, ◌+◌, Bool, true, false, not, List, [], ◌∷◌, ◌++◌, ltb, ◌==◌, if◌then◌else◌, length,
}
use quantum_go.Base.Go.{
  Result, Error, ok, err, panic, invalid_message, ◌>>=◌, ◌>>◌, guard, index, slice, uint16_at,
  uint32_at, uint64_at,
}
use quantum_go.Base.Bytes.{IsByte, IsUint16, IsUint32, IsUint64, put_uint16, put_uint32, put_uint64}

abbrev pub frame_handshake : ℕ
frame_handshake = 0x01

abbrev pub frame_data : ℕ
frame_data = 0x02

abbrev pub frame_close : ℕ
frame_close = 0x03

abbrev pub frame_retry : ℕ
frame_retry = 0x04

abbrev pub header_size : ℕ
header_size = 14

abbrev pub handshake_ext_size : ℕ
handshake_ext_size = 12

-- `DatagramHeader`
pub record Header : Type 0 where
  pub frame_type : ℕ
  pub epoch : ℕ
  pub recv_index : ℕ
  pub seq : ℕ

-- `DatagramHandshakeHeader`
pub record HandshakeHeader : Type 0 where
  pub base : Header
  pub sender_index : ℕ
  pub msg_type : ℕ
  pub frag_offset : ℕ
  pub frag_length : ℕ
  pub total_length : ℕ
  pub cookie : List ℕ

-- The Go types of the fields.
pub record IsHeader (h : Header) : Type 0 where
  pub frame_type_fits : IsByte h.frame_type
  pub epoch_fits : IsByte h.epoch
  pub recv_index_fits : IsUint32 h.recv_index
  pub seq_fits : IsUint64 h.seq

pub record IsHandshakeHeader (h : HandshakeHeader) : Type 0 where
  pub base_fits : IsHeader h.base
  pub sender_index_fits : IsUint32 h.sender_index
  pub msg_type_fits : IsByte h.msg_type
  pub frag_offset_fits : IsUint16 h.frag_offset
  pub frag_length_fits : IsUint16 h.frag_length
  pub total_length_fits : IsUint16 h.total_length

-- `PeekDatagramType`
unfoldable pub peek_datagram_type : List ℕ → Result ℕ
peek_datagram_type bytes = do
  guard (not (ltb (length bytes) header_size)) invalid_message
  index bytes 0

-- `putDatagramHeader`, and `EncodeDatagramHeader`, which is the same bytes in a buffer of their own
unfoldable pub encode_header : Header → List ℕ
encode_header h = h.frame_type ∷ h.epoch ∷ (put_uint32 h.recv_index ++ put_uint64 h.seq)

-- `parseDatagramHeader`
unfoldable pub parse_header : List ℕ → Result Header
parse_header bytes = do
  guard (not (ltb (length bytes) header_size)) invalid_message
  t ← index bytes 0
  e ← index bytes 1
  r ← uint32_at bytes 2
  s ← uint64_at bytes 6
  ok (record { frame_type = t; epoch = e; recv_index = r; seq = s })

-- `ParseDatagramHeader`
unfoldable pub parse_header_body : List ℕ → Result (Header × List ℕ)
parse_header_body bytes = do
  h ← parse_header bytes
  body ← slice bytes header_size (length bytes)
  ok (h, body)

-- `EncodeDatagramData`
unfoldable pub encode_data : Header → List ℕ → List ℕ
encode_data h ciphertext = encode_header (record h { frame_type = frame_data }) ++ ciphertext

-- `DatagramAAD`
unfoldable pub datagram_aad : List ℕ → Result (List ℕ)
datagram_aad bytes = slice bytes 0 header_size

-- What `EncodeDatagramHandshake` writes between the common header and the cookie.
unfoldable pub encode_extension : HandshakeHeader → List ℕ
encode_extension h =
    put_uint32 h.sender_index
    ++ h.msg_type
      ∷ (put_uint16 h.frag_offset
          ++ (put_uint16 h.frag_length ++ (put_uint16 h.total_length ++ (length h.cookie ∷ []))))

-- `EncodeDatagramHandshake`
unfoldable pub encode_handshake : HandshakeHeader → List ℕ → Result (List ℕ)
encode_handshake h fragment = do
  guard (not (ltb 255 (length h.cookie))) invalid_message
  ok (
      encode_header (record h.base { frame_type = frame_handshake })
      ++ (encode_extension h ++ (h.cookie ++ fragment)))

-- The last part of `ParseDatagramHandshake`: the length checks on the bytes after the cookie,
-- which drop the padding.
unfoldable pub parse_fragment : HandshakeHeader → List ℕ → Result (HandshakeHeader × List ℕ)
parse_fragment h rest = do
  guard (not (ltb (length rest) h.frag_length)) invalid_message
  fragment ← slice rest 0 h.frag_length
  guard (not (ltb h.total_length (h.frag_offset + h.frag_length))) invalid_message
  ok (h, fragment)

-- `ParseDatagramHandshake`
unfoldable pub parse_handshake : List ℕ → Result (HandshakeHeader × List ℕ)
parse_handshake bytes = do
  base ← parse_header bytes
  guard (base.frame_type == frame_handshake) invalid_message
  guard (not (ltb (length bytes) (header_size + handshake_ext_size))) invalid_message
  sender ← uint32_at bytes 14
  msg ← index bytes 18
  off ← uint16_at bytes 19
  len ← uint16_at bytes 21
  total ← uint16_at bytes 23
  cookie_len ← index bytes 25
  guard (not (ltb (length bytes) (26 + cookie_len))) invalid_message
  cookie ← if ltb 0 cookie_len then slice bytes 26 (26 + cookie_len) else ok []
  rest ← slice bytes (26 + cookie_len) (length bytes)
  parse_fragment
      (record {
        base = base;
        sender_index = sender;
        msg_type = msg;
        frag_offset = off;
        frag_length = len;
        total_length = total;
        cookie = cookie;
      })
      rest

-- `EncodeDatagramRetry`
unfoldable pub encode_retry : ℕ → List ℕ → List ℕ
encode_retry recv_index cookie =
    encode_header (record { frame_type = frame_retry; epoch = 0; recv_index = recv_index; seq = 0 })
    ++ cookie

-- `ParseDatagramRetry`
unfoldable pub parse_retry : List ℕ → Result (ℕ × List ℕ)
parse_retry bytes = do
  (h, body) ← parse_header_body bytes
  guard (h.frame_type == frame_retry) invalid_message
  ok (h.recv_index, body)
