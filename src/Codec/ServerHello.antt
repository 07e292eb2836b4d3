-- ===== src/Codec/ServerHello.antt =====
-- `EncodeServerHello` and `DecodeServerHello`.
pub mod RoundTrip
use quantum_go.Base.{
  ℕ, ◌+◌, ◌*◌, ◌%◌, Bool, true, false, not, List, [], ◌∷◌, ◌++◌, ltb, ◌==◌, if◌then◌else◌, length,
}
use quantum_go.Base.Go.{
  Result, ok, err, panic, ◌>>=◌, ◌>>◌, guard, invalid_message, index, slice, uint16_at, uint32_at,
}
use quantum_go.Base.Bytes.{put_uint16, put_uint32}
use quantum_go.Messages.{
  ServerHello, header_size, type_server_hello, validate_server_hello, version_bytes,
}
use quantum_go.Codec.Fields.{put_len_prefixed, read_len_prefixed, put_session_id, read_session_id}

-- The size that `EncodeServerHello` computes for the payload.
unfoldable pub server_payload_size : ServerHello → ℕ
server_payload_size m = 2 + 32 + (1 + length m.session_id) + 2 + (2 + length m.chkem_ciphertext) + 2

-- The fields behind the session ID.
unfoldable pub encode_choice : ServerHello → List ℕ
encode_choice m =
    put_uint16 m.kem_suite ++ (put_len_prefixed m.chkem_ciphertext ++ put_uint16 m.cipher_suite)

-- `EncodeServerHello`
unfoldable pub encode_server_hello : ServerHello → Result (List ℕ)
encode_server_hello m = do
  validate_server_hello m
  ok (
      type_server_hello
      ∷ (put_uint32 (server_payload_size m)
          ++ (version_bytes m.version
              ++ (m.random ++ (put_session_id m.session_id ++ encode_choice m)))))

-- The fields up to the session ID: what is decoded, and the offset behind it.
unfoldable pub decode_server_front : List ℕ → Result (ServerHello × ℕ)
decode_server_front bytes = do
  major ← index bytes 5
  minor ← index bytes 6
  random ← slice bytes 7 39
  (session_id, off) ← read_session_id bytes 39
  ok (
    record {
      version = record { major = major; minor = minor };
      random = random;
      session_id = session_id;
      kem_suite = 0;
      chkem_ciphertext = [];
      cipher_suite = 0;
    },
    off,
  )

-- The KEM suite, the ciphertext and the cipher suite.
unfoldable pub decode_choice : List ℕ → ℕ → ServerHello × ℕ → Result ServerHello
decode_choice bytes payload_end (m, off) = do
  guard (not (ltb payload_end (off + 2))) invalid_message
  suite ← uint16_at bytes off
  (ct, off') ← read_len_prefixed bytes (off + 2) payload_end
  guard (not (ltb payload_end (off' + 2))) invalid_message
  cipher ← uint16_at bytes off'
  ok (record m { kem_suite = suite; chkem_ciphertext = ct; cipher_suite = cipher })

abbrev pub min_server_payload_len : ℕ
min_server_payload_len = 2 + 32 + 1 + 2 + 2 + 2

-- `DecodeServerHello`
unfoldable pub decode_server_hello : List ℕ → Result ServerHello
decode_server_hello bytes = do
  guard (not (ltb (length bytes) header_size)) invalid_message
  t ← index bytes 0
  guard (t == type_server_hello) invalid_message
  payload_len ← uint32_at bytes 1
  guard (not (ltb (length bytes) (header_size + payload_len))) invalid_message
  guard (not (ltb payload_len min_server_payload_len)) invalid_message
  front ← decode_server_front bytes
  m ← decode_choice bytes (header_size + payload_len) front
  validate_server_hello m
  ok m
