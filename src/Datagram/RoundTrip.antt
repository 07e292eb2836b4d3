-- ===== src/Datagram/RoundTrip.antt =====
-- A frame that an encoder wrote is read back by its parser.
use quantum_go.Base.{
  ℕ, ◌+◌, ◌≤◌, ◌≡◌, refl, false, List, [], ◌∷◌, ◌++◌, ltb, if◌then◌else◌, length, arith,
  length-append, append_assoc,
}
use quantum_go.Base.Go.{ok, index, slice, uint16_at, uint32_at, uint64_at, slice-middle, slice_end}
use quantum_go.Base.Bytes.{IsUint16, IsUint32}
use quantum_go.Datagram.{
  Header, HandshakeHeader, IsHeader, IsHandshakeHeader, frame_handshake, frame_data, frame_retry,
  peek_datagram_type, encode_header, parse_header, parse_header_body, encode_data, datagram_aad,
  encode_extension, encode_handshake, parse_fragment, parse_handshake, encode_retry, parse_retry,
}

-- The common header is read back, whatever follows it.
pub parse_header-encode_header :
    (h : Header) (rest : List ℕ) → IsHeader h → parse_header (encode_header h ++ rest) ≡ ok h
unfolding parse_header encode_header uint64_at uint32_at uint16_at index
parse_header-encode_header h rest v = ground arith

body_of_frame :
    (h : Header) (rest : List ℕ)
    → slice (encode_header h ++ rest) 14 (length (encode_header h ++ rest)) ≡ ok rest
unfolding encode_header
body_of_frame h rest = slice_end (encode_header h) rest 14 _ refl refl

-- `ParseDatagramHeader` gives back the header and the body.
pub parse_header_body-encode :
    (h : Header) (rest : List ℕ)
    → IsHeader h
    → parse_header_body (encode_header h ++ rest) ≡ ok (h, rest)
unfolding parse_header_body
parse_header_body-encode h rest v = rw (parse_header-encode_header h rest v, body_of_frame h rest)

aad_of_frame : (front rest : List ℕ) → 14 ≡ length front → datagram_aad (front ++ rest) ≡ ok front
unfolding datagram_aad
aad_of_frame front rest h = slice-middle [] front rest 0 14 refl (omega arith)

-- A DATA frame whose header's fields fit their Go types gives back its header, typed DATA, and the
-- ciphertext; its associated data is the encoded header, and its type can be peeked.
pub parse_header_body-encode_data :
    (h : Header) (ciphertext : List ℕ)
    → IsHeader h
    → let sent = record h { frame_type = frame_data } in
      (parse_header_body (encode_data h ciphertext) ≡ ok (sent, ciphertext))
      × (datagram_aad (encode_data h ciphertext) ≡ ok (encode_header sent))
      × (peek_datagram_type (encode_data h ciphertext) ≡ ok frame_data)
unfolding encode_data encode_header
parse_header_body-encode_data h ciphertext v = (
  parse_header_body-encode (record h { frame_type = frame_data }) ciphertext (omega arith),
  aad_of_frame (encode_header (record h { frame_type = frame_data })) ciphertext refl,
  unfold peek_datagram_type encode_header index in ground arith,
)

-- A RETRY frame gives back its connection index, of 32 bits, and its cookie.
pub parse_retry-encode_retry :
    (recv_index : ℕ) (cookie : List ℕ)
    → IsUint32 recv_index
    → parse_retry (encode_retry recv_index cookie) ≡ ok (recv_index, cookie)
unfolding parse_retry encode_retry
parse_retry-encode_retry recv_index cookie v = rw (
    parse_header_body-encode
      (record { frame_type = frame_retry; epoch = 0; recv_index = recv_index; seq = 0 }) cookie
      (omega arith))

-- What follows the fixed 26 bytes of a HANDSHAKE frame: the cookie, the fragment and padding.
parse_fragment_lem :
    (h : HandshakeHeader) (fragment pad : List ℕ)
    → h.frag_length ≡ length fragment
    → h.frag_offset + h.frag_length ≤ h.total_length
    → parse_fragment h (fragment ++ pad) ≡ ok (h, fragment)
unfolding parse_fragment
parse_fragment_lem h fragment pad e le = ground (
  arith,
  slice-middle [] fragment pad 0 h.frag_length refl (omega arith),
  length-append fragment pad,
)

-- A HANDSHAKE frame: the common header, the extension, and the rest.
frame : HandshakeHeader → List ℕ → List ℕ
frame h rest =
    encode_header (record h.base { frame_type = frame_handshake }) ++ (encode_extension h ++ rest)

module _ (h : HandshakeHeader) (rest : List ℕ) where
  length-frame : length (frame h rest) ≡ 26 + length rest
  unfolding frame encode_extension encode_header
  length-frame = ground arith

  long_enough : ltb (length (frame h rest)) 26 ≡ false
  long_enough = ground (arith, length-frame)

  read_header :
      IsHeader h.base
      → parse_header (frame h rest) ≡ ok (record h.base { frame_type = frame_handshake })
  unfolding frame
  read_header v = parse_header-encode_header _ (encode_extension h ++ rest) (omega arith)

  read_sender : IsUint32 h.sender_index → uint32_at (frame h rest) 14 ≡ ok h.sender_index
  unfolding frame encode_extension encode_header uint32_at uint16_at index
  read_sender v = ground arith

  read_msg_type : index (frame h rest) 18 ≡ ok h.msg_type
  unfolding frame encode_extension encode_header uint32_at uint16_at index
  read_msg_type = ground arith

  read_offset : IsUint16 h.frag_offset → uint16_at (frame h rest) 19 ≡ ok h.frag_offset
  unfolding frame encode_extension encode_header uint32_at uint16_at index
  read_offset v = ground arith

  read_length : IsUint16 h.frag_length → uint16_at (frame h rest) 21 ≡ ok h.frag_length
  unfolding frame encode_extension encode_header uint32_at uint16_at index
  read_length v = ground arith

  read_total : IsUint16 h.total_length → uint16_at (frame h rest) 23 ≡ ok h.total_length
  unfolding frame encode_extension encode_header uint32_at uint16_at index
  read_total v = ground arith

  read_cookie_length : index (frame h rest) 25 ≡ ok (length h.cookie)
  unfolding frame encode_extension encode_header uint32_at uint16_at index
  read_cookie_length = ground arith

module _ (h : HandshakeHeader) (tail : List ℕ) where
  read_cookie : slice (frame h (h.cookie ++ tail)) 26 (26 + length h.cookie) ≡ ok h.cookie
  unfolding frame encode_extension encode_header uint32_at uint16_at index
  read_cookie =
      slice-middle
        (encode_header (record h.base { frame_type = frame_handshake }) ++ encode_extension h)
        h.cookie tail 26 (26 + length h.cookie) refl refl

  holds_cookie : ltb (length (frame h (h.cookie ++ tail))) (26 + length h.cookie) ≡ false
  holds_cookie = ground (arith, length-frame h (h.cookie ++ tail), length-append h.cookie tail)

  read_cookie_opt :
      (if ltb 0 (length h.cookie)
        then slice (frame h (h.cookie ++ tail)) 26 (26 + length h.cookie)
        else ok [])
      ≡ ok h.cookie
  read_cookie_opt = ground (arith, read_cookie, empty h.cookie)
    where
      empty : (c : List ℕ) → length c ≡ 0 → c ≡ []
      empty [] e = refl
      empty (x ∷ c) e = absurd (omega arith)

  read_tail :
      slice
        (frame h (h.cookie ++ tail))
        (26 + length h.cookie)
        (length (frame h (h.cookie ++ tail)))
      ≡ ok tail
  unfolding frame encode_extension encode_header uint32_at uint16_at index
  read_tail =
      slice_end
        ((encode_header (record h.base { frame_type = frame_handshake }) ++ encode_extension h)
          ++ h.cookie)
        tail (26 + length h.cookie) (length (frame h (h.cookie ++ tail))) (omega arith) refl

-- A HANDSHAKE frame, with any padding behind it, gives back its header, typed HANDSHAKE, and the
-- fragment without the padding: for fields that fit their Go types, a cookie of at most 255 bytes,
-- and a fragment of the declared length that lies within the total length.
pub parse_handshake-encode_handshake :
    (h : HandshakeHeader) (fragment pad : List ℕ)
    → IsHandshakeHeader h
    → length h.cookie ≤ 255
    → h.frag_length ≡ length fragment
    → h.frag_offset + h.frag_length ≤ h.total_length
    → (bytes : List ℕ) × (encode_handshake h fragment ≡ ok bytes)
      × (parse_handshake (bytes ++ pad)
          ≡ ok (record h { base = record h.base { frame_type = frame_handshake } }, fragment))
parse_handshake-encode_handshake h fragment pad v small e le =
    (frame h (h.cookie ++ fragment), encodes, rw padded parses)
  where
    sent : HandshakeHeader
    sent = record h { base = record h.base { frame_type = frame_handshake } }

    encodes : encode_handshake h fragment ≡ ok (frame h (h.cookie ++ fragment))
    encodes = unfold encode_handshake frame in ground arith

    padded : frame h (h.cookie ++ fragment) ++ pad ≡ frame h (h.cookie ++ (fragment ++ pad))
    padded = unfold frame in simp append_assoc

    parses : parse_handshake (frame h (h.cookie ++ (fragment ++ pad))) ≡ ok (sent, fragment)
    parses =
        unfold parse_handshake in
        rw
          (
            read_header h (h.cookie ++ (fragment ++ pad)) v.base_fits,
            long_enough h (h.cookie ++ (fragment ++ pad)),
            read_sender h (h.cookie ++ (fragment ++ pad)) v.sender_index_fits,
            read_msg_type h (h.cookie ++ (fragment ++ pad)),
            read_offset h (h.cookie ++ (fragment ++ pad)) v.frag_offset_fits,
            read_length h (h.cookie ++ (fragment ++ pad)) v.frag_length_fits,
            read_total h (h.cookie ++ (fragment ++ pad)) v.total_length_fits,
            read_cookie_length h (h.cookie ++ (fragment ++ pad)),
            holds_cookie h (fragment ++ pad),
            read_cookie_opt h (fragment ++ pad),
            read_tail h (fragment ++ pad),
          )
          (parse_fragment_lem sent fragment pad e le)
