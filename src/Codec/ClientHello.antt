-- ===== src/Codec/ClientHello.antt =====
-- `EncodeClientHello` and `DecodeClientHello`.
pub mod Parts
pub mod RoundTrip
pub mod Panic
use quantum_go.Base.{
  ℕ, ◌+◌, ◌*◌, ◌%◌, Bool, true, false, not, List, [], ◌∷◌, ◌++◌, ltb, ◌==◌, if◌then◌else◌, length,
}
use quantum_go.Base.Go.{
  Result, ok, err, panic, ◌>>=◌, ◌>>◌, guard, invalid_message, index, slice, uint16_at, uint32_at,
}
use quantum_go.Base.Bytes.{put_uint16, put_uint32}
use quantum_go.Messages.{
  ClientHello, header_size, type_client_hello, validate_client_hello, version_bytes,
}
use quantum_go.Codec.Fields.{
  put_uint16s, uint16s_at, put_len_prefixed, read_len_prefixed, put_optional, read_optional,
  put_identity, read_identity, put_session_id, read_session_id,
}

-- `optionalLenPrefixedSize` and `pskIdentityFieldLen`
abbrev pub optional_len_prefixed_size : List ℕ → ℕ
optional_len_prefixed_size b = if length b == 0 then 0 else 2 + length b

abbrev pub psk_identity_field_len : List ℕ → ℕ
psk_identity_field_len identity = if length identity == 0 then 0 else 1 + length identity

-- The size that `EncodeClientHello` computes for the payload.
unfoldable pub payload_size : ClientHello → ℕ
payload_size m =
    2
    + 32
    + (1 + length m.session_id)
    + (2 + 1 + 2 * length m.kem_suites)
    + (2 + length m.chkem_public_key)
    + (2 + 2 * length m.cipher_suites)
    + (1 + optional_len_prefixed_size m.chkem_static_ciphertext)
    + (1 + psk_identity_field_len m.psk_identity)

-- The fields behind the session ID, in two groups.
unfoldable pub encode_suites : ClientHello → List ℕ → List ℕ
encode_suites m rest =
    put_uint16 m.kem_suite
    ++ (length m.kem_suites % 256)
      ∷ (put_uint16s m.kem_suites ++ (put_len_prefixed m.chkem_public_key ++ rest))

unfoldable pub encode_tail : ClientHello → List ℕ
encode_tail m =
    put_uint16 (length m.cipher_suites)
    ++ (put_uint16s m.cipher_suites
        ++ (put_optional m.chkem_static_ciphertext ++ put_identity m.psk_identity))

-- `EncodeClientHello`
unfoldable pub encode_client_hello : ClientHello → Result (List ℕ)
encode_client_hello m = do
  validate_client_hello m
  ok (
      type_client_hello
      ∷ (put_uint32 (payload_size m)
          ++ (version_bytes m.version
              ++ (m.random ++ (put_session_id m.session_id ++ encode_suites m (encode_tail m))))))

-- The fields up to the session ID: what is decoded, and the offset behind it.
unfoldable pub decode_front : List ℕ → Result (ClientHello × ℕ)
decode_front bytes = do
  major ← index bytes 5
  minor ← index bytes 6
  random ← slice bytes 7 39
  (session_id, off) ← read_session_id bytes 39
  ok (
    record {
      version = record { major = major; minor = minor };
      random = random;
      session_id = session_id;
      kem_suite = 0;
      kem_suites = [];
      chkem_public_key = [];
      cipher_suites = [];
      chkem_static_ciphertext = [];
      psk_identity = [];
    },
    off,
  )

-- The KEM suites and the public key.
unfoldable pub decode_suites : List ℕ → ℕ → ClientHello × ℕ → Result (ClientHello × ℕ)
decode_suites bytes payload_end (m, off) = do
  guard (not (ltb payload_end (off + 3))) invalid_message
  suite ← uint16_at bytes off
  count ← index bytes (off + 2)
  guard (not (ltb payload_end (off + 3 + 2 * count))) invalid_message
  suites ← uint16s_at bytes (off + 3) count
  (pk, off') ← read_len_prefixed bytes (off + 3 + 2 * count) payload_end
  ok (record m { kem_suite = suite; kem_suites = suites; chkem_public_key = pk }, off')

-- The cipher suites and the two optional fields.
unfoldable pub decode_tail : List ℕ → ℕ → ClientHello × ℕ → Result ClientHello
decode_tail bytes payload_end (m, off) = do
  guard (not (ltb payload_end (off + 2))) invalid_message
  count ← uint16_at bytes off
  guard (not (ltb payload_end (off + 2 + 2 * count))) invalid_message
  suites ← uint16s_at bytes (off + 2) count
  (ct, off') ← read_optional bytes (off + 2 + 2 * count) payload_end
  identity ← read_identity bytes off' payload_end
  ok (record m { cipher_suites = suites; chkem_static_ciphertext = ct; psk_identity = identity })

abbrev pub min_payload_len : ℕ
min_payload_len = 2 + 32 + 1 + 2 + 1 + 2 + 2 + 2

-- `DecodeClientHello`
unfoldable pub decode_client_hello : List ℕ → Result ClientHello
decode_client_hello bytes = do
  guard (not (ltb (length bytes) header_size)) invalid_message
  t ← index bytes 0
  guard (t == type_client_hello) invalid_message
  payload_len ← uint32_at bytes 1
  guard (not (ltb (length bytes) (header_size + payload_len))) invalid_message
  guard (not (ltb payload_len min_payload_len)) invalid_message
  front ← decode_front bytes
  suites ← decode_suites bytes (header_size + payload_len) front
  m ← decode_tail bytes (header_size + payload_len) suites
  validate_client_hello m
  ok m
