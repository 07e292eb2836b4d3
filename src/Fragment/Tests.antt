-- ===== src/Fragment/Tests.antt =====
-- A message split, at concrete values.
use quantum_go.Base.{ℕ, ◌≡◌, true, List, [], replicate, length-replicate, arith}
use quantum_go.Base.Go.{ok}
use quantum_go.Datagram.{HandshakeHeader, IsHandshakeHeader}
use quantum_go.Fragment.{fragment_handshake}
use quantum_go.Fragment.Split.{Tiles, fragment_handshake-Tiles}

abbrev base : HandshakeHeader
base = record {
  base = record { frame_type = 0; epoch = 0; recv_index = 1; seq = 4 };
  sender_index = 9;
  msg_type = 1;
  frag_offset = 0;
  frag_length = 0;
  total_length = 0;
  cookie = [];
}

base-IsHandshakeHeader : IsHandshakeHeader base
base-IsHandshakeHeader = record {
  base_fits = record {
    frame_type_fits = omega arith;
    epoch_fits = omega arith;
    recv_index_fits = omega arith;
    seq_fits = omega arith;
  };
  sender_index_fits = omega arith;
  msg_type_fits = omega arith;
  frag_offset_fits = omega arith;
  frag_length_fits = omega arith;
  total_length_fits = omega arith;
}

-- Three bytes more than one frame holds.
abbrev long_message : List ℕ
long_message = replicate 1177 5

fragment_handshake-Tiles_example :
    (frames : List (List ℕ)) × (fragment_handshake base long_message true ≡ ok frames)
    × Tiles base long_message true 0 4 frames
fragment_handshake-Tiles_example =
    fragment_handshake-Tiles base long_message true base-IsHandshakeHeader (omega arith)
      (omega (arith, length-replicate {A = ℕ} 1177 5))
      (omega (arith, length-replicate {A = ℕ} 1177 5))
