-- ===== src/Codec/ClientHello/Panic.antt =====
-- The session ID of a ClientHello is sliced before its length is compared with the payload.
use quantum_go.Base.{ℕ, ◌+◌, ◌≤◌, ◌<◌, ◌≡◌, true, false, List, ltb, length, arith}
use quantum_go.Base.Go.{ok, panic, index, slice, uint32_at, index_within, slice_within}
use quantum_go.Messages.{type_client_hello}
use quantum_go.Codec.Fields.{read_session_id}
use quantum_go.Codec.ClientHello.{decode_front, decode_client_hello}

-- A message that is typed ClientHello and as long as its header says, of at least the minimal
-- payload, and whose session ID length points beyond its end: the decoder panics on it.
pub decode_client_hello_panics :
    (bytes : List ℕ) (payload_len id_len : ℕ)
    → index bytes 0 ≡ ok type_client_hello
    → uint32_at bytes 1 ≡ ok payload_len
    → length bytes ≡ 5 + payload_len
    → 44 ≤ payload_len
    → index bytes 39 ≡ ok id_len
    → length bytes < 40 + id_len
    → decode_client_hello bytes ≡ panic
unfolding decode_client_hello decode_front read_session_id
decode_client_hello_panics bytes payload_len id_len et el size least ei beyond =
    let (major, e5) = index_within bytes 5 (omega arith) in
    let (minor, e6) = index_within bytes 6 (omega arith) in
    let (random, er, lr) = slice_within bytes 7 39 (omega arith) (omega arith) in
    rw (
      over 5 (length bytes) (omega arith),
      et,
      el,
      over (5 + payload_len) (length bytes) (omega arith),
      over 44 payload_len least,
      e5,
      e6,
      er,
      ei,
      some_id,
      out_of_range,
    )
  where
    over : (a b : ℕ) → a ≤ b → ltb b a ≡ false
    over a b h = ground arith

    some_id : ltb 0 id_len ≡ true
    some_id = ground arith

    out_of_range : slice bytes 40 (40 + id_len) ≡ panic
    out_of_range = unfold slice in ground arith
