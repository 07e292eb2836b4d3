-- ===== src/Codec/Tests.antt =====
-- Messages at concrete values.
use quantum_go.Base.{
  ℕ, ◌≡◌, refl, List, [], ◌∷◌, ◌++◌, replicate, length-replicate, arith, length, ◌≤◌, ◌+◌,
}
use quantum_go.Base.Go.{ok, panic, index, uint16_at, uint32_at}
use quantum_go.Messages.{
  ClientHello, ServerHello, HelloRetryRequest, validate_client_hello, validate_server_hello,
}
use quantum_go.Codec.ClientHello.{encode_client_hello, decode_client_hello}
use quantum_go.Codec.ClientHello.Parts.{IsClientHello}
use quantum_go.Codec.ClientHello.RoundTrip.{decode-encode_client_hello}
use quantum_go.Codec.ClientHello.Panic.{decode_client_hello_panics}
use quantum_go.Codec.ServerHello.{encode_server_hello, decode_server_hello}
use quantum_go.Codec.ServerHello.RoundTrip.{IsServerHello, decode-encode_server_hello}
use quantum_go.Codec.Records.{encode_rekey_payload, decode_rekey_payload, read_message}
use quantum_go.Codec.Records.RoundTrip.{encode_rekey_payload_wraps}
use quantum_go.Codec.Records.Framing.{read_message-IsRead}

abbrev random : List ℕ
random = replicate 32 7

abbrev client : ClientHello
client = record {
  version = record { major = 6; minor = 0 };
  random = random;
  session_id = 1 ∷ 2 ∷ [];
  kem_suite = 1;
  kem_suites = 1 ∷ 2 ∷ [];
  chkem_public_key = 50 ∷ 51 ∷ 52 ∷ [];
  cipher_suites = 1 ∷ 2 ∷ [];
  chkem_static_ciphertext = [];
  psk_identity = 90 ∷ [];
}

client-IsClientHello : IsClientHello client
client-IsClientHello = record {
  suite_fits = omega arith;
  suites_fit = (omega arith, (omega arith, tt));
  suite_count = omega arith;
  key_size = omega arith;
  ciphers_fit = (omega arith, (omega arith, tt));
  cipher_count = omega arith;
  static_size = omega arith;
}

client_valid : validate_client_hello client ≡ ok tt
unfolding validate_client_hello
client_valid = refl

decode-encode_client_hello_example :
    (bytes : List ℕ) × (encode_client_hello client ≡ ok bytes)
    × (decode_client_hello (bytes ++ (0 ∷ [])) ≡ ok client)
decode-encode_client_hello_example =
    decode-encode_client_hello client (0 ∷ []) client-IsClientHello client_valid

-- A payload of 44 bytes whose session ID length, at offset 39, is 255.
abbrev hostile : List ℕ
hostile = 1 ∷ 0 ∷ 0 ∷ 0 ∷ 44 ∷ (6 ∷ 0 ∷ (random ++ (255 ∷ replicate 9 0)))

hostile_type : index hostile 0 ≡ ok 1
unfolding index
hostile_type = refl

hostile_length : uint32_at hostile 1 ≡ ok 44
unfolding uint32_at uint16_at index
hostile_length = refl

hostile_session : index hostile 39 ≡ ok 255
unfolding index
hostile_session = refl

decode_client_hello_panics_example : decode_client_hello hostile ≡ panic
decode_client_hello_panics_example =
    decode_client_hello_panics hostile 44 255 hostile_type hostile_length refl (omega arith)
      hostile_session (omega arith)

abbrev server : ServerHello
server = record {
  version = record { major = 6; minor = 0 };
  random = random;
  session_id = 1 ∷ 2 ∷ [];
  kem_suite = 1;
  chkem_ciphertext = 50 ∷ 51 ∷ 52 ∷ [];
  cipher_suite = 2;
}

server-IsServerHello : IsServerHello server
server-IsServerHello = record {
  suite_fits = omega arith;
  cipher_fits = omega arith;
  ciphertext_size = omega arith;
}

server_valid : validate_server_hello server ≡ ok tt
unfolding validate_server_hello
server_valid = refl

decode-encode_server_hello_example :
    (bytes : List ℕ) × (encode_server_hello server ≡ ok bytes)
    × (decode_server_hello (bytes ++ []) ≡ ok server)
decode-encode_server_hello_example =
    decode-encode_server_hello server [] server-IsServerHello server_valid

abbrev retry : HelloRetryRequest
retry = record { version = record { major = 6; minor = 0 }; kem_suite = 300 }

encode_rekey_payload_wraps_example :
    (bytes : List ℕ) × (seq : ℕ) × (encode_rekey_payload (replicate 65536 3) 77 ≡ ok bytes)
    × (decode_rekey_payload bytes ≡ ok ([], seq))
encode_rekey_payload_wraps_example =
    encode_rekey_payload_wraps (replicate 65536 3) 77 (length-replicate {A = ℕ} 65536 3)

-- A message of 2 payload bytes, with the start of another behind it.
abbrev stream : List ℕ
stream = 16 ∷ 0 ∷ 0 ∷ 0 ∷ 2 ∷ 5 ∷ 6 ∷ 17 ∷ 0 ∷ []

abbrev first_message : List ℕ
first_message = 16 ∷ 0 ∷ 0 ∷ 0 ∷ 2 ∷ 5 ∷ 6 ∷ []

read_message-IsRead_example :
    (first_message ++ (17 ∷ 0 ∷ []) ≡ stream)
    × (length first_message ≤ 65541)
    × ((n : ℕ) × (uint32_at first_message 1 ≡ ok n) × (length first_message ≡ 5 + n))
unfolding read_message uint32_at uint16_at index
read_message-IsRead_example = read_message-IsRead stream
