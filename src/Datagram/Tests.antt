-- ===== src/Datagram/Tests.antt =====
-- The frames at concrete values.
use quantum_go.Base.{ℕ, ◌≡◌, refl, List, [], ◌∷◌, ◌++◌, arith, length, ◌≤◌, ◌+◌}
use quantum_go.Base.Go.{ok, index, uint32_at, uint16_at, uint64_at, slice}
use quantum_go.Datagram.{
  Header, HandshakeHeader, IsHeader, IsHandshakeHeader, frame_handshake, encode_handshake,
  parse_handshake, parse_header, parse_fragment,
}
use quantum_go.Datagram.RoundTrip.{parse_handshake-encode_handshake}
use quantum_go.Datagram.Total.{parse_handshake-IsParsed}

abbrev plain : Header
plain = record { frame_type = 0; epoch = 3; recv_index = 70_000; seq = 5_000_000_000 }

plain-IsHeader : IsHeader plain
plain-IsHeader = record {
  frame_type_fits = omega arith;
  epoch_fits = omega arith;
  recv_index_fits = omega arith;
  seq_fits = omega arith;
}

-- The second fragment, of 2 bytes, of a message of 5.
abbrev second : HandshakeHeader
second = record {
  base = plain;
  sender_index = 9;
  msg_type = 1;
  frag_offset = 3;
  frag_length = 2;
  total_length = 5;
  cookie = 8 ∷ 8 ∷ [];
}

second-IsHandshakeHeader : IsHandshakeHeader second
second-IsHandshakeHeader = record {
  base_fits = plain-IsHeader;
  sender_index_fits = omega arith;
  msg_type_fits = omega arith;
  frag_offset_fits = omega arith;
  frag_length_fits = omega arith;
  total_length_fits = omega arith;
}

parse_handshake-encode_handshake_example :
    (bytes : List ℕ) × (encode_handshake second (40 ∷ 41 ∷ []) ≡ ok bytes)
    × (parse_handshake (bytes ++ (0 ∷ 0 ∷ 0 ∷ []))
        ≡ ok (record second { base = record plain { frame_type = frame_handshake } }, 40 ∷ 41 ∷ []))
parse_handshake-encode_handshake_example =
    parse_handshake-encode_handshake second (40 ∷ 41 ∷ []) (0 ∷ 0 ∷ 0 ∷ []) second-IsHandshakeHeader
      (omega arith) refl (omega arith)

-- A frame of the second fragment, with 3 bytes of padding.
abbrev frame : List ℕ
frame =
    (1 ∷ 3 ∷ 0 ∷ 1 ∷ 17 ∷ 112 ∷ 0 ∷ 0 ∷ 0 ∷ 1 ∷ 42 ∷ 5 ∷ 242 ∷ 0 ∷ 0 ∷ 0 ∷ 0 ∷ 9 ∷ 1 ∷ [])
    ++ (0 ∷ 3 ∷ 0 ∷ 2 ∷ 0 ∷ 5 ∷ 2 ∷ 8 ∷ 8 ∷ 40 ∷ 41 ∷ 0 ∷ 0 ∷ 0 ∷ [])

abbrev part : List ℕ
part = 40 ∷ 41 ∷ []

parse_handshake-IsParsed_example :
    (frame_handshake ≡ frame_handshake)
    × (length part ≡ 2)
    × (3 + 2 ≤ 5)
    × (26 + length second.cookie + length part ≤ length frame)
unfolding parse_handshake parse_header index uint32_at uint16_at uint64_at slice parse_fragment
parse_handshake-IsParsed_example = parse_handshake-IsParsed frame
