-- ===== src/Codec/ServerHello/RoundTrip.antt =====
-- `DecodeServerHello` reads back what `EncodeServerHello` wrote.
use quantum_go.Base.{
  ℕ, ◌+◌, ◌^◌, ◌≤◌, ◌<◌, ◌≡◌, refl, List, [], ◌∷◌, ◌++◌, length, arith, append_assoc, length-append,
  le→ltb,
}
use quantum_go.Base.Go.{ok, slice}
use quantum_go.Base.Bytes.{IsUint16, put_uint16, put_uint32}
use quantum_go.Base.Cursor.{At, At-move, At-start, index_read, uint16_read, uint32_read, slice_read}
use quantum_go.Messages.{ServerHello, type_server_hello, validate_server_hello, version_bytes}
use quantum_go.Codec.Fields.{put_len_prefixed, put_session_id}
use quantum_go.Codec.Reads.{len_prefixed_read, session_id_read}
use quantum_go.Codec.ServerHello.{
  server_payload_size, encode_choice, encode_server_hello, decode_server_front, decode_choice,
  decode_server_hello,
}

-- The Go types of the fields, and the length that the ciphertext's prefix can hold.
pub record IsServerHello (m : ServerHello) : Type 0 where
  pub suite_fits : IsUint16 m.kem_suite
  pub cipher_fits : IsUint16 m.cipher_suite
  pub ciphertext_size : length m.chkem_ciphertext < 2 ^ 16

-- What a successful `Validate` says of the lengths.
record HasServerLengths (m : ServerHello) : Type 0 where
  random_size : length m.random ≡ 32
  session_size : length m.session_id ≤ 255

validate_server_lengths : (m : ServerHello) → validate_server_hello m ≡ ok tt → HasServerLengths m
unfolding validate_server_hello
validate_server_lengths m h = ground arith

-- The message with `extra` bytes behind it.
server_wire : ServerHello → List ℕ → List ℕ
server_wire m extra =
    type_server_hello
    ∷ (put_uint32 (server_payload_size m)
        ++ (version_bytes m.version
            ++ (m.random ++ (put_session_id m.session_id ++ (encode_choice m ++ extra)))))

length-encode_choice : (m : ServerHello) → length (encode_choice m) ≡ 6 + length m.chkem_ciphertext
unfolding encode_choice
length-encode_choice m = omega (arith, length-append m.chkem_ciphertext (put_uint16 m.cipher_suite))

length-server_wire :
    (m : ServerHello) (extra : List ℕ)
    → HasServerLengths m
    → length (server_wire m extra) ≡ 5 + server_payload_size m + length extra
unfolding server_wire server_payload_size
length-server_wire m extra l = omega (
  arith,
  l.random_size,
  length-append m.random (put_session_id m.session_id ++ (encode_choice m ++ extra)),
  length-append m.session_id (encode_choice m ++ extra),
  length-append (encode_choice m) extra,
  length-encode_choice m,
)

module _ (m : ServerHello) (v : IsServerHello m) (l : HasServerLengths m) (extra : List ℕ) where
  abbrev front_of_server : ServerHello
  front_of_server = record m { kem_suite = 0; chkem_ciphertext = []; cipher_suite = 0 }

  At-version : At (server_wire m extra) 5 (
      version_bytes m.version
      ++ (m.random ++ (put_session_id m.session_id ++ (encode_choice m ++ extra))))
  unfolding server_wire
  At-version = record { within = omega arith; stands = refl }

  At-session :
      At (server_wire m extra) 39 (put_session_id m.session_id ++ (encode_choice m ++ extra))
  At-session =
      At-move m.random 39 (omega (arith, l.random_size))
        (At-move (version_bytes m.version) 7 refl At-version)

  decode_server_front_read :
      decode_server_front (server_wire m extra) ≡ ok (front_of_server, 40 + length m.session_id)
  unfolding decode_server_front
  decode_server_front_read = rw (
    index_read m.version.major At-version,
    index_read m.version.minor (At-move (m.version.major ∷ []) 6 refl At-version),
    random,
    session_id_read m.session_id (encode_choice m ++ extra) 39 l.session_size At-session,
  )
    where
      random : slice (server_wire m extra) 7 39 ≡ ok m.random
      random = rw l.random_size at (
          slice_read m.random (put_session_id m.session_id ++ (encode_choice m ++ extra))
            (At-move (version_bytes m.version) 7 refl At-version))

  decode_choice_read :
      decode_choice
        (server_wire m extra)
        (5 + server_payload_size m)
        (front_of_server, 40 + length m.session_id)
      ≡ ok m
  unfolding decode_choice encode_choice
  decode_choice_read = rw (
    le→ltb (5 + server_payload_size m) (40 + length m.session_id + 2) (omega (arith, size)),
    uint16_read m.kem_suite v.suite_fits at_choice,
    len_prefixed_read m.chkem_ciphertext (put_uint16 m.cipher_suite ++ extra)
        (40 + length m.session_id + 2) (5 + server_payload_size m) v.ciphertext_size at_ciphertext
        (omega (arith, size)),
    le→ltb (5 + server_payload_size m)
        (40 + length m.session_id + 2 + 2 + length m.chkem_ciphertext + 2) (omega (arith, size)),
    uint16_read m.cipher_suite v.cipher_fits (
        At-move (put_len_prefixed m.chkem_ciphertext)
          (40 + length m.session_id + 2 + 2 + length m.chkem_ciphertext) (omega arith)
          at_ciphertext),
  )
    where
      size : 5 + server_payload_size m ≡ 46 + length m.session_id + length m.chkem_ciphertext
      size = unfold server_payload_size in omega arith

      at_choice : At (server_wire m extra) (40 + length m.session_id) (
          put_uint16 m.kem_suite
          ++ (put_len_prefixed m.chkem_ciphertext ++ (put_uint16 m.cipher_suite ++ extra)))
      at_choice =
          rw (append_assoc, append_assoc) at
            (At-move (put_session_id m.session_id) (40 + length m.session_id) (omega arith)
              At-session)

      at_ciphertext :
          At
            (server_wire m extra)
            (40 + length m.session_id + 2)
            (put_len_prefixed m.chkem_ciphertext ++ (put_uint16 m.cipher_suite ++ extra))
      at_ciphertext = At-move (put_uint16 m.kem_suite) (40 + length m.session_id + 2) refl at_choice

  decode-server_wire :
      validate_server_hello m ≡ ok tt → decode_server_hello (server_wire m extra) ≡ ok m
  unfolding decode_server_hello server_wire
  decode-server_wire valid = rw (
    le→ltb (length (server_wire m extra)) 5 (omega (arith, size)),
    index_read type_server_hello (At-start (server_wire m extra)),
    uint32_read (server_payload_size m) bounds.1
        (At-move (type_server_hello ∷ []) 1 refl (At-start (server_wire m extra))),
    le→ltb (length (server_wire m extra)) (5 + server_payload_size m) (omega (arith, size)),
    le→ltb (server_payload_size m) 41 bounds.0,
    decode_server_front_read,
    decode_choice_read,
    valid,
  )
    where
      size : length (server_wire m extra) ≡ 5 + server_payload_size m + length extra
      size = length-server_wire m extra l

      bounds : (41 ≤ server_payload_size m) × (server_payload_size m < 2 ^ 32)
      bounds = unfold server_payload_size in ground (arith, l.session_size, v.ciphertext_size)

-- A valid ServerHello whose fields fit their Go types and whose ciphertext fits its length prefix is
-- encoded, and decoding the encoding gives it back, whatever bytes follow it in the buffer.
pub decode-encode_server_hello :
    (m : ServerHello) (extra : List ℕ)
    → IsServerHello m
    → validate_server_hello m ≡ ok tt
    → (bytes : List ℕ) × (encode_server_hello m ≡ ok bytes)
      × (decode_server_hello (bytes ++ extra) ≡ ok m)
unfolding encode_server_hello
decode-encode_server_hello m extra v valid = (
  wire_alone,
  rw valid,
  rw moved (decode-server_wire m v (validate_server_lengths m valid) extra valid),
)
  where
    wire_alone : List ℕ
    wire_alone =
        type_server_hello
        ∷ (put_uint32 (server_payload_size m)
            ++ (version_bytes m.version
                ++ (m.random ++ (put_session_id m.session_id ++ encode_choice m))))

    moved : wire_alone ++ extra ≡ server_wire m extra
    moved = unfold server_wire in simp append_assoc
