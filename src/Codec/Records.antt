-- ===== src/Codec/Records.antt =====
-- The short messages of codec.go: HelloRetryRequest, the Finished messages, data and alert messages,
-- the rekey payload and the rekey message, and the framing that `ReadMessage` undoes.
pub mod RoundTrip
pub mod Framing
use quantum_go.Base.{
  ℕ, ◌+◌, ◌*◌, ◌%◌, Bool, true, false, not, ◌&&◌, ◌||◌, List, [], ◌∷◌, ◌++◌, ltb, ◌==◌,
  if◌then◌else◌, length, take, drop,
}
use quantum_go.Base.Go.{
  Result, ok, err, panic, ◌>>=◌, ◌>>◌, guard, invalid_message, message_too_large,
  invalid_public_key, eof, unexpected_eof, index, slice, uint16_at, uint32_at, uint64_at,
}
use quantum_go.Base.Bytes.{put_uint16, put_uint32, put_uint64}
use quantum_go.Messages.{
  HelloRetryRequest, header_size, type_hello_retry_request, type_client_finished,
  type_server_finished, type_data, type_alert, type_rekey, version_bytes,
}

-- `MaxMessageSize` and `constants.MaxPayloadSize`
abbrev pub max_message_size : ℕ
max_message_size = 65536

abbrev pub max_payload_size : ℕ
max_payload_size = 65507

-- `EncodeHelloRetryRequest`, `DecodeHelloRetryRequest`
abbrev pub encode_hello_retry_request : HelloRetryRequest → List ℕ
encode_hello_retry_request m =
    type_hello_retry_request ∷ (put_uint32 4 ++ (version_bytes m.version ++ put_uint16 m.kem_suite))

unfoldable pub decode_hello_retry_request : List ℕ → Result HelloRetryRequest
decode_hello_retry_request bytes = do
  guard (not (ltb (length bytes) (header_size + 4))) invalid_message
  t ← index bytes 0
  guard (t == type_hello_retry_request) invalid_message
  major ← index bytes header_size
  minor ← index bytes (header_size + 1)
  suite ← uint16_at bytes (header_size + 2)
  ok record { version = record { major = major; minor = minor }; kem_suite = suite }

-- `EncodeFinished`, `DecodeFinished`
unfoldable pub encode_finished : ℕ → List ℕ → Result (List ℕ)
encode_finished msg_type verify_data = do
  guard (length verify_data == 32) invalid_message
  ok (msg_type ∷ (put_uint32 32 ++ verify_data))

unfoldable pub decode_finished : List ℕ → Result (List ℕ)
decode_finished bytes = do
  guard (not (ltb (length bytes) (header_size + 32))) invalid_message
  t ← index bytes 0
  guard (t == type_client_finished || t == type_server_finished) invalid_message
  slice bytes header_size (header_size + 32)

-- `EncodeData`, `DecodeData`
unfoldable pub encode_data : ℕ → List ℕ → Result (List ℕ)
encode_data seq payload = do
  guard (not (ltb max_payload_size (length payload))) message_too_large
  ok (type_data ∷ (put_uint32 (8 + length payload) ++ (put_uint64 seq ++ payload)))

unfoldable pub decode_data : List ℕ → Result (ℕ × List ℕ)
decode_data bytes = do
  guard (not (ltb (length bytes) (header_size + 8))) invalid_message
  t ← index bytes 0
  guard (t == type_data) invalid_message
  seq ← uint64_at bytes header_size
  payload ← slice bytes (header_size + 8) (length bytes)
  ok (seq, payload)

-- The description of an alert is cut to what its length byte can hold.
abbrev pub alert_text : List ℕ → List ℕ
alert_text description = if ltb 255 (length description) then take 255 description else description

-- `EncodeAlert`, `DecodeAlert`
abbrev pub encode_alert : ℕ → ℕ → List ℕ → List ℕ
encode_alert level code description =
    let text = alert_text description in
    type_alert
    ∷ (put_uint32 (1 + 1 + 1 + length text) ++ (level ∷ code ∷ (length text % 256) ∷ text))

unfoldable pub decode_alert : List ℕ → Result (ℕ × ℕ × List ℕ)
decode_alert bytes = do
  guard (not (ltb (length bytes) (header_size + 3))) invalid_message
  t ← index bytes 0
  guard (t == type_alert) invalid_message
  level ← index bytes header_size
  code ← index bytes (header_size + 1)
  n ← index bytes (header_size + 2)
  guard (not (ltb (length bytes) (header_size + 3 + n))) invalid_message
  text ← slice bytes (header_size + 3) (header_size + 3 + n)
  ok (level, code, text)

-- `EncodeRekeyPayload`, `DecodeRekeyPayload`
unfoldable pub encode_rekey_payload : List ℕ → ℕ → Result (List ℕ)
encode_rekey_payload key activation_seq = do
  guard (not (length key == 0 || ltb max_message_size (length key))) invalid_public_key
  ok (put_uint16 (length key) ++ (key ++ put_uint64 activation_seq))

unfoldable pub decode_rekey_payload : List ℕ → Result (List ℕ × ℕ)
decode_rekey_payload bytes = do
  guard (not (ltb (length bytes) 2)) invalid_message
  n ← uint16_at bytes 0
  guard (not (ltb (length bytes) (2 + n + 8))) invalid_message
  key ← slice bytes 2 (2 + n)
  seq ← uint64_at bytes (2 + n)
  ok (key, seq)

-- `EncodeRekey`, `DecodeRekey`: the length of the ciphertext is not bounded here.
abbrev pub encode_rekey : ℕ → List ℕ → List ℕ
encode_rekey seq ciphertext =
    type_rekey ∷ (put_uint32 (8 + length ciphertext) ++ (put_uint64 seq ++ ciphertext))

unfoldable pub decode_rekey : List ℕ → Result (ℕ × List ℕ)
decode_rekey bytes = do
  guard (not (ltb (length bytes) (header_size + 8))) invalid_message
  t ← index bytes 0
  guard (t == type_rekey) invalid_message
  seq ← uint64_at bytes header_size
  ciphertext ← slice bytes (header_size + 8) (length bytes)
  ok (seq, ciphertext)

-- `io.ReadFull` on a stream that holds the bytes still to come: the bytes read and the rest.
abbrev pub read_full : ℕ → List ℕ → Result (List ℕ × List ℕ)
read_full n stream =
    if ltb (length stream) n
    then (if length stream == 0 then err eof else err unexpected_eof)
    else ok (take n stream, drop n stream)

-- `ReadMessage`: a message, and the stream behind it.
unfoldable pub read_message : List ℕ → Result (List ℕ × List ℕ)
read_message stream = do
  (header, rest) ← read_full header_size stream
  payload_len ← uint32_at header 1
  guard (not (ltb max_message_size payload_len)) message_too_large
  (payload, rest') ← if ltb 0 payload_len then read_full payload_len rest else ok ([], rest)
  ok (header ++ payload, rest')
