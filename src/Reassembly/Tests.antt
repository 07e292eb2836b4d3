-- ===== src/Reassembly/Tests.antt =====
-- A message of three bytes, reassembled from overlapping fragments amid another source's traffic.
use quantum_go.Base.{ℕ, ◌≡◌, refl, List, [], ◌∷◌, All, arith}
use quantum_go.Datagram.{HandshakeHeader}
use quantum_go.Reassembly.{
  Key, Reassembler, new_reassembler, new_buffer, ingest, cover_loop, copy_at, add, complete,
  incomplete, evict_expired, drop_expired, with_buffer, finish,
}
use quantum_go.Replay.{set_bit, test_bit}
use quantum_go.Reassembly.Message.{IsPart}
use quantum_go.Reassembly.Memory.{IsBounded, new_reassembler-IsBounded, add-IsBounded}
use quantum_go.Base.{replicate, length-replicate, true}
use quantum_go.Base.Go.{ok}
use quantum_go.Datagram.{IsHandshakeHeader}
use quantum_go.Fragment.{fragment_handshake}
use quantum_go.Reassembly.EndToEnd.{Completes, receive, fragment_handshake-Completes}
use quantum_go.Reassembly.Delivery.{Arrival, Carries, Delivers, add_all, add_all-Delivers}

abbrev header : ℕ → ℕ → HandshakeHeader
header off len = record {
  base = record { frame_type = 1; epoch = 0; recv_index = 1; seq = 4 };
  sender_index = 9;
  msg_type = 1;
  frag_offset = off;
  frag_length = len;
  total_length = 3;
  cookie = [];
}

abbrev key : Key
key = record { sender = 9; msg = 1 }

abbrev message : List ℕ
message = 10 ∷ 11 ∷ 12 ∷ []

abbrev last_part : Arrival
last_part = record { now = 5; src = 2; header = header 1 2; fragment = 11 ∷ 12 ∷ [] }

abbrev foreign_part : Arrival
foreign_part = record { now = 6; src = 3; header = header 0 2; fragment = 66 ∷ 66 ∷ [] }

abbrev first_part : Arrival
first_part = record { now = 7; src = 2; header = header 0 2; fragment = 10 ∷ 11 ∷ [] }

abbrev traffic : List Arrival
traffic = last_part ∷ foreign_part ∷ first_part ∷ []

abbrev fresh : Reassembler
fresh = record {
  by_source = [];
  max_sources = 1024;
  max_concurrent_per_source = 4;
  max_message_size = 4096;
  timeout = 10_000_000_000;
}

-- The last arrival completes the message.
traffic_outcomes :
    add_all fresh traffic
    ≡ (last_part, incomplete) ∷ (foreign_part, incomplete) ∷ (first_part, complete message) ∷ []
unfolding add_all add evict_expired drop_expired with_buffer finish ingest cover_loop copy_at
    new_buffer set_bit test_bit
traffic_outcomes = refl

last-IsPart : IsPart message 1 (11 ∷ 12 ∷ [])
last-IsPart = record { within = omega arith; bytes = λ i h. ground arith }

first-IsPart : IsPart message 0 (10 ∷ 11 ∷ [])
first-IsPart = record { within = omega arith; bytes = λ i h. ground arith }

traffic-Carries : All (Carries 2 key message) traffic
traffic-Carries =
    (λ p q. (refl, last-IsPart), (λ p q. absurd (omega arith), (λ p q. (refl, first-IsPart), tt)))

add_all-Delivers_example : All (Delivers 2 key message) (add_all fresh traffic)
add_all-Delivers_example = add_all-Delivers 2 key message fresh traffic refl traffic-Carries

add-IsBounded_example : IsBounded (add (new_reassembler 0 0 0) 5 2 (header 1 2) (11 ∷ 12 ∷ [])).0
add-IsBounded_example =
    add-IsBounded (new_reassembler 0 0 0) 5 2 (header 1 2) (11 ∷ 12 ∷ [])
      (new_reassembler-IsBounded 0 0 0)

header-IsHandshakeHeader : IsHandshakeHeader (header 0 0)
header-IsHandshakeHeader = record {
  base_fits = record {
    frame_type_fits = omega arith;
    epoch_fits = omega arith;
    recv_index_fits = omega arith;
    seq_fits = omega arith;
  };
  sender_index_fits = omega arith;
  msg_type_fits = omega arith;
  frag_offset_fits = omega arith;
  frag_length_fits = omega arith;
  total_length_fits = omega arith;
}

-- A message of three frames.
abbrev long_message : List ℕ
long_message = replicate 3000 5

fragment_handshake-Completes_example :
    (frames : List (List ℕ)) × (fragment_handshake (header 0 0) long_message true ≡ ok frames)
    × Completes long_message (receive fresh 5 2 frames)
fragment_handshake-Completes_example =
    fragment_handshake-Completes fresh 5 2 (header 0 0) long_message true refl (omega arith)
      (omega arith) (omega (arith, length-replicate {A = ℕ} 3000 5)) header-IsHandshakeHeader
      (omega arith) (omega (arith, length-replicate {A = ℕ} 3000 5))
      (omega (arith, length-replicate {A = ℕ} 3000 5))
