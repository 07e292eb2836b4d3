-- ===== src/Codec/ClientHello/RoundTrip.antt =====
-- `DecodeClientHello` reads back what `EncodeClientHello` wrote.
use quantum_go.Base.{
  ℕ, ◌+◌, ◌*◌, ◌%◌, ◌^◌, ◌≤◌, ◌<◌, ◌≡◌, refl, List, [], ◌∷◌, ◌++◌, length, arith, append_assoc,
  length-append, le→ltb,
}
use quantum_go.Base.Go.{ok}
use quantum_go.Base.Bytes.{put_uint16, put_uint32}
use quantum_go.Base.Cursor.{At, At-move, index_read, uint32_read}
use quantum_go.Messages.{ClientHello, type_client_hello, validate_client_hello, version_bytes}
use quantum_go.Codec.Fields.{
  put_uint16s, put_len_prefixed, put_optional, put_identity, put_session_id,
}
use quantum_go.Codec.Reads.{length-put_uint16s}
use quantum_go.Codec.ClientHello.{
  payload_size, optional_len_prefixed_size, psk_identity_field_len, encode_suites, encode_tail,
  encode_client_hello, decode_client_hello,
}
use quantum_go.Codec.ClientHello.Parts.{
  IsClientHello, HasLengths, validate_lengths, decode_front_read, decode_suites_read,
  decode_tail_read,
}

-- The message with `extra` bytes behind it.
wire : ClientHello → List ℕ → List ℕ
wire m extra =
    type_client_hello
    ∷ (put_uint32 (payload_size m)
        ++ (version_bytes m.version
            ++ (m.random
                ++ (put_session_id m.session_id ++ encode_suites m (encode_tail m ++ extra)))))

length-put_optional : (xs : List ℕ) → length (put_optional xs) ≡ 1 + optional_len_prefixed_size xs
length-put_optional [] = refl
length-put_optional (x ∷ xs) = ground arith

length-put_identity : (xs : List ℕ) → length (put_identity xs) ≡ 1 + psk_identity_field_len xs
length-put_identity [] = refl
length-put_identity (x ∷ xs) = ground arith

length-encode_tail :
    (m : ClientHello)
    → length (encode_tail m)
      ≡ 2
        + 2 * length m.cipher_suites
        + (1 + optional_len_prefixed_size m.chkem_static_ciphertext)
        + (1 + psk_identity_field_len m.psk_identity)
unfolding encode_tail
length-encode_tail m = omega (
  arith,
  length-append (put_uint16s m.cipher_suites)
      (put_optional m.chkem_static_ciphertext ++ put_identity m.psk_identity),
  length-append (put_optional m.chkem_static_ciphertext) (put_identity m.psk_identity),
  length-put_uint16s m.cipher_suites,
  length-put_optional m.chkem_static_ciphertext,
  length-put_identity m.psk_identity,
)

length-encode_suites :
    (m : ClientHello) (rest : List ℕ)
    → length (encode_suites m rest)
      ≡ 5 + 2 * length m.kem_suites + length m.chkem_public_key + length rest
unfolding encode_suites
length-encode_suites m rest = omega (
  arith,
  length-append (put_uint16s m.kem_suites) (put_len_prefixed m.chkem_public_key ++ rest),
  length-append m.chkem_public_key rest,
  length-put_uint16s m.kem_suites,
)

-- The buffer that `EncodeClientHello` allocates is filled exactly.
length-wire :
    (m : ClientHello) (extra : List ℕ)
    → HasLengths m
    → length (wire m extra) ≡ 5 + payload_size m + length extra
unfolding wire payload_size
length-wire m extra l = omega (
  arith,
  l.random_size,
  length-append m.random (put_session_id m.session_id ++ encode_suites m (encode_tail m ++ extra)),
  length-append m.session_id (encode_suites m (encode_tail m ++ extra)),
  length-encode_suites m (encode_tail m ++ extra),
  length-append (encode_tail m) extra,
  length-encode_tail m,
)

payload_size_bounds :
    (m : ClientHello)
    → IsClientHello m
    → HasLengths m
    → (44 ≤ payload_size m) × (payload_size m < 2 ^ 32)
unfolding payload_size
payload_size_bounds m v l = ground (
  arith, l.session_size, l.key_present, l.cipher_present, l.identity_size, v.key_size,
  v.static_size, v.cipher_count, v.suite_count,
)

module _ (m : ClientHello) (v : IsClientHello m) (l : HasLengths m) (extra : List ℕ) where
  At-front : At (wire m extra) 5 (
      version_bytes m.version
      ++ (m.random ++ (put_session_id m.session_id ++ encode_suites m (encode_tail m ++ extra))))
  unfolding wire
  At-front = record { within = omega arith; stands = refl }

  At-suites :
      At (wire m extra) (40 + length m.session_id) (encode_suites m (encode_tail m ++ extra))
  At-suites = At-move (put_session_id m.session_id) (40 + length m.session_id) (omega arith) (
      At-move m.random 39 (omega (arith, l.random_size))
        (At-move (version_bytes m.version) 7 refl At-front))

  abbrev tail_start : ℕ
  tail_start = 40 + length m.session_id + 5 + 2 * length m.kem_suites + length m.chkem_public_key

  At-tail : At (wire m extra) tail_start (encode_tail m ++ extra)
  unfolding encode_suites
  At-tail = At-move m.chkem_public_key tail_start (omega arith) (
      At-move (put_uint16 (length m.chkem_public_key))
        (40 + length m.session_id + 5 + 2 * length m.kem_suites) (omega arith)
        (At-move (put_uint16s m.kem_suites) (40 + length m.session_id + 3 + 2 * length m.kem_suites)
          (omega (arith, length-put_uint16s m.kem_suites))
          (At-move ((length m.kem_suites % 256) ∷ []) (40 + length m.session_id + 3) (omega arith)
            (At-move (put_uint16 m.kem_suite) (40 + length m.session_id + 2) refl At-suites))))

  decode-wire : validate_client_hello m ≡ ok tt → decode_client_hello (wire m extra) ≡ ok m
  unfolding decode_client_hello wire
  decode-wire valid = rw (
    le→ltb (length (wire m extra)) 5 (omega (arith, size)),
    index_read type_client_hello at_type,
    uint32_read (payload_size m) bounds.1 (At-move (type_client_hello ∷ []) 1 refl at_type),
    le→ltb (length (wire m extra)) (5 + payload_size m) (omega (arith, size)),
    le→ltb (payload_size m) 44 bounds.0,
    decode_front_read m v l (encode_suites m (encode_tail m ++ extra)) At-front,
    decode_suites_read m v l (encode_tail m ++ extra) (40 + length m.session_id)
        (5 + payload_size m) At-suites (omega (arith, ends)),
    decode_tail_read m v l extra tail_start (5 + payload_size m) At-tail ends,
    valid,
  )
    where
      size : length (wire m extra) ≡ 5 + payload_size m + length extra
      size = length-wire m extra l

      bounds : (44 ≤ payload_size m) × (payload_size m < 2 ^ 32)
      bounds = payload_size_bounds m v l

      ends : tail_start + length (encode_tail m) ≡ 5 + payload_size m
      ends = unfold payload_size in omega (arith, length-encode_tail m)

      at_type : At (wire m extra) 0 (wire m extra)
      at_type = record { within = omega arith; stands = refl }

-- A valid ClientHello whose fields fit their length prefixes is encoded, and decoding the encoding
-- gives it back, whatever bytes follow it in the buffer.
pub decode-encode_client_hello :
    (m : ClientHello) (extra : List ℕ)
    → IsClientHello m
    → validate_client_hello m ≡ ok tt
    → (bytes : List ℕ) × (encode_client_hello m ≡ ok bytes)
      × (decode_client_hello (bytes ++ extra) ≡ ok m)
unfolding encode_client_hello
decode-encode_client_hello m extra v valid =
    (wire_alone, rw valid, rw moved (decode-wire m v (validate_lengths m valid) extra valid))
  where
    wire_alone : List ℕ
    wire_alone =
        type_client_hello
        ∷ (put_uint32 (payload_size m)
            ++ (version_bytes m.version
                ++ (m.random ++ (put_session_id m.session_id ++ encode_suites m (encode_tail m)))))

    moved : wire_alone ++ extra ≡ wire m extra
    moved = unfold wire encode_suites in simp append_assoc
