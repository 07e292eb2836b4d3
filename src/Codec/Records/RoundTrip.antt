-- ===== src/Codec/Records/RoundTrip.antt =====
-- The short messages are read back from their encodings.
use quantum_go.Base.{
  ℕ, ◌+◌, ◌%◌, ◌≤◌, ◌<◌, ◌≡◌, refl, sym, ap, ◌||◌, List, [], ◌∷◌, ◌++◌, ltb, ◌==◌, if◌then◌else◌,
  length, take, arith, append_assoc, length-append, length-take, take-all, le→ltb, append-nil, inl,
  inr, Bool-cases,
}
use quantum_go.Base.Go.{ok, err, invalid_message, index, slice, uint16_at, uint64_at, uint64_within}
use quantum_go.Base.Bytes.{IsUint16, IsUint64, put_uint16, put_uint32, put_uint64}
use quantum_go.Base.Cursor.{
  At, At-length, At-move, At-start, index_read, uint16_read, uint64_read, slice_read,
}
use quantum_go.Messages.{
  HelloRetryRequest, type_client_finished, type_server_finished, type_data, type_alert, type_rekey,
}
use quantum_go.Codec.Records.{
  encode_hello_retry_request, decode_hello_retry_request, encode_finished, decode_finished,
  encode_data, decode_data, encode_alert, decode_alert, encode_rekey_payload, decode_rekey_payload,
  encode_rekey, decode_rekey,
}

-- A slice from where `xs` stands to the end of the buffer.
slice_to_end : {s : List ℕ} (off : ℕ) (xs : List ℕ) → At s off xs → slice s off (length s) ≡ ok xs
slice_to_end {s} off xs c = rw (sym (At-length c)) (slice_read xs [] (rw (append-nil xs) c))

-- Decoding the encoding of a HelloRetryRequest, with a suite of 16 bits, gives it back, whatever
-- bytes follow.
pub decode-encode_hello_retry_request :
    (m : HelloRetryRequest) (extra : List ℕ)
    → IsUint16 m.kem_suite
    → decode_hello_retry_request (encode_hello_retry_request m ++ extra) ≡ ok m
unfolding decode_hello_retry_request index uint16_at
decode-encode_hello_retry_request m extra h = ground arith

-- A payload of at most 65507 bytes is encoded under a 64-bit sequence number, and decoding the data
-- message gives both back.
pub decode-encode_data :
    (seq : ℕ) (payload : List ℕ)
    → IsUint64 seq
    → length payload ≤ 65507
    → (bytes : List ℕ) × (encode_data seq payload ≡ ok bytes)
      × (decode_data bytes ≡ ok (seq, payload))
unfolding encode_data decode_data
decode-encode_data seq payload h fits = (
  bytes,
  rw (le→ltb 65507 (length payload) fits),
  rw (
    le→ltb (length bytes) 13 (omega arith),
    index_read type_data (At-start bytes),
    uint64_read seq h at_seq,
    slice_to_end 13 payload (At-move (put_uint64 seq) 13 refl at_seq),
  ),
)
  where
    bytes : List ℕ
    bytes = type_data ∷ (put_uint32 (8 + length payload) ++ (put_uint64 seq ++ payload))

    at_seq : At bytes 5 (put_uint64 seq ++ payload)
    at_seq = record { within = omega arith; stands = refl }

-- Decoding a rekey message gives back its 64-bit sequence number and its ciphertext, of any length.
pub decode-encode_rekey :
    (seq : ℕ) (ciphertext : List ℕ)
    → IsUint64 seq
    → decode_rekey (encode_rekey seq ciphertext) ≡ ok (seq, ciphertext)
unfolding decode_rekey
decode-encode_rekey seq ciphertext h = rw (
  le→ltb (length bytes) 13 (omega arith),
  index_read type_rekey (At-start bytes),
  uint64_read seq h at_seq,
  slice_to_end 13 ciphertext (At-move (put_uint64 seq) 13 refl at_seq),
)
  where
    bytes : List ℕ
    bytes = encode_rekey seq ciphertext

    at_seq : At bytes 5 (put_uint64 seq ++ ciphertext)
    at_seq = record { within = omega arith; stands = refl }

-- Verify data of 32 bytes are encoded; decoding the message, whatever bytes follow, gives them back
-- under either Finished type, and an invalid-message error under any other type.
pub decode-encode_finished :
    (msg_type : ℕ) (verify_data extra : List ℕ)
    → length verify_data ≡ 32
    → (bytes : List ℕ) × (encode_finished msg_type verify_data ≡ ok bytes)
      × (decode_finished (bytes ++ extra) ≡ (
          if msg_type == type_client_finished || msg_type == type_server_finished
          then ok verify_data
          else err invalid_message))
unfolding encode_finished decode_finished
decode-encode_finished msg_type verify_data extra h = (
  msg_type ∷ (put_uint32 32 ++ verify_data),
  ground arith,
  elim (Bool-cases (msg_type == type_client_finished || msg_type == type_server_finished)) [
    | inl t ↦ rw (
      le→ltb (length bytes) 37 (omega (arith, length-append verify_data extra)),
      index_read msg_type (At-start bytes),
      t,
      rw h at (slice_read verify_data extra at_data),
    )
    | inr f ↦ rw (
      le→ltb (length bytes) 37 (omega (arith, length-append verify_data extra)),
      index_read msg_type (At-start bytes),
      f,
    )
  ],
)
  where
    bytes : List ℕ
    bytes = msg_type ∷ (put_uint32 32 ++ (verify_data ++ extra))

    at_data : At bytes 5 (verify_data ++ extra)
    at_data = record { within = omega arith; stands = refl }

cut_take :
    (n : ℕ) (text : List ℕ) → (if ltb n (length text) then take n text else text) ≡ take n text
cut_take n text = ground (arith, take-all n text)

alert_read :
    {s : List ℕ} (level code : ℕ) (text extra : List ℕ) (n : ℕ)
    → length text ≤ 255
    → At s 0 (type_alert ∷ (put_uint32 n ++ (level ∷ code ∷ (length text % 256) ∷ (text ++ extra))))
    → decode_alert s ≡ ok (level, code, text)
unfolding decode_alert
alert_read {s} level code text extra n small c = rw (
  le→ltb (length s) 8 (omega (arith, At-length c)),
  index_read type_alert c,
  index_read level at_level,
  index_read code (At-move (level ∷ []) 6 refl at_level),
  index_read (length text % 256) (At-move (level ∷ code ∷ []) 7 refl at_level),
  fits,
  le→ltb (length s) (8 + length text) (omega (arith, At-length c, length-append text extra)),
  slice_read text extra (At-move (level ∷ code ∷ (length text % 256) ∷ []) 8 refl at_level),
)
  where
    fits : length text % 256 ≡ length text
    fits = omega arith

    at_level : At s 5 (level ∷ code ∷ (length text % 256) ∷ (text ++ extra))
    at_level = At-move (type_alert ∷ put_uint32 n) 5 refl c

-- Decoding an alert, whatever bytes follow, gives back its level, its code, and the description cut
-- to 255 bytes.
pub decode-encode_alert :
    (level code : ℕ) (description extra : List ℕ)
    → decode_alert (encode_alert level code description ++ extra)
      ≡ ok (level, code, take 255 description)
decode-encode_alert level code description extra = rw (cut_take 255 description) (
    alert_read level code (take 255 description) extra (1 + 1 + 1 + length (take 255 description))
      (omega (arith, length-take 255 description)) (At-start _))

rekey_payload_read :
    {s : List ℕ} (key rest : List ℕ) (seq : ℕ)
    → length key < 65536
    → IsUint64 seq
    → At s 0 (put_uint16 (length key) ++ (key ++ (put_uint64 seq ++ rest)))
    → decode_rekey_payload s ≡ ok (key, seq)
unfolding decode_rekey_payload
rekey_payload_read {s} key rest seq fits h c = rw (
  le→ltb (length s) 2 (omega (arith, At-length c)),
  uint16_read (length key) fits c,
  le→ltb (length s) (2 + length key + 8)
      (omega (arith, At-length c, length-append key (put_uint64 seq ++ rest))),
  slice_read key (put_uint64 seq ++ rest) at_key,
  uint64_read seq h (At-move key (2 + length key) refl at_key),
)
  where
    at_key : At s 2 (key ++ (put_uint64 seq ++ rest))
    at_key = At-move (put_uint16 (length key)) 2 refl c

-- A key that is not empty and whose length fits 2 bytes is encoded with a 64-bit activation sequence
-- number, and decoding the rekey payload, whatever bytes follow, gives both back.
pub decode-encode_rekey_payload :
    (key extra : List ℕ) (activation_seq : ℕ)
    → 0 < length key
    → length key < 65536
    → IsUint64 activation_seq
    → (bytes : List ℕ) × (encode_rekey_payload key activation_seq ≡ ok bytes)
      × (decode_rekey_payload (bytes ++ extra) ≡ ok (key, activation_seq))
unfolding encode_rekey_payload
decode-encode_rekey_payload key extra activation_seq some fits h = (
  put_uint16 (length key) ++ (key ++ put_uint64 activation_seq),
  ground arith,
  rekey_payload_read key extra activation_seq fits h (record {
    within = omega arith;
    stands =
        ap (λ rest. put_uint16 (length key) ++ rest)
          (append_assoc key (put_uint64 activation_seq) extra);
  }),
)

-- A key of exactly 65536 bytes passes the check of `EncodeRekeyPayload`, but its length prefix
-- wraps to 0, and the decoder reads an empty key.
pub encode_rekey_payload_wraps :
    (key : List ℕ) (activation_seq : ℕ)
    → length key ≡ 65536
    → (bytes : List ℕ) × (seq : ℕ) × (encode_rekey_payload key activation_seq ≡ ok bytes)
      × (decode_rekey_payload bytes ≡ ok ([], seq))
unfolding encode_rekey_payload
encode_rekey_payload_wraps key activation_seq h =
    let (seq, e) =
      uint64_within bytes 2 (omega (arith, length-append key (put_uint64 activation_seq))) in
    (bytes, seq, ground arith, decoded seq e)
  where
    bytes : List ℕ
    bytes = put_uint16 (length key) ++ (key ++ put_uint64 activation_seq)

    at_length_prefix : At bytes 0 (put_uint16 0 ++ (key ++ put_uint64 activation_seq))
    at_length_prefix = record {
      within = omega arith;
      stands = ap (λ n. put_uint16 n ++ (key ++ put_uint64 activation_seq)) h;
    }

    decoded : (seq : ℕ) → uint64_at bytes 2 ≡ ok seq → decode_rekey_payload bytes ≡ ok ([], seq)
    decoded seq e =
        unfold decode_rekey_payload in
        rw (
          le→ltb (length bytes) 2 (omega arith),
          uint16_read 0 (omega arith) at_length_prefix,
          le→ltb (length bytes) 10 (omega (arith, length-append key (put_uint64 activation_seq))),
          slice_read [] (key ++ put_uint64 activation_seq)
              (At-move (put_uint16 0) 2 refl at_length_prefix),
          e,
        )
