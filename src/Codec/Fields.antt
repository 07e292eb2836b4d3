-- ===== src/Codec/Fields.antt =====
-- Fields of a message: 2-byte numbers in a list, length-prefixed byte strings, optional fields.
use quantum_go.Base.{
  ℕ, zero, suc, ◌+◌, ◌%◌, not, List, [], ◌∷◌, ◌++◌, ltb, ◌==◌, if◌then◌else◌, length,
}
use quantum_go.Base.Go.{Result, ok, ◌>>=◌, ◌>>◌, guard, invalid_message, index, slice, uint16_at}
use quantum_go.Base.Bytes.{put_uint16}

-- `for _, id := range ids { PutUint16(...) }`
abbrev pub put_uint16s : List ℕ → List ℕ
put_uint16s [] = []
put_uint16s (n ∷ ns) = put_uint16 n ++ put_uint16s ns

-- The loop that reads `n` numbers of 2 bytes.
unfoldable pub uint16s_at : List ℕ → ℕ → ℕ → Result (List ℕ)
uint16s_at bytes off zero = ok []
uint16s_at bytes off (suc n) = do
  v ← uint16_at bytes off
  vs ← uint16s_at bytes (off + 2) n
  ok (v ∷ vs)

-- A 2-byte length and the bytes.
abbrev pub put_len_prefixed : List ℕ → List ℕ
put_len_prefixed bytes = put_uint16 (length bytes) ++ bytes

-- `readLenPrefixed`: the bytes, and the offset behind them.
unfoldable pub read_len_prefixed : List ℕ → ℕ → ℕ → Result (List ℕ × ℕ)
read_len_prefixed bytes off payload_end = do
  guard (not (ltb payload_end (off + 2))) invalid_message
  n ← uint16_at bytes off
  guard (not (ltb payload_end (off + 2 + n))) invalid_message
  out ← slice bytes (off + 2) (off + 2 + n)
  ok (out, off + 2 + n)

-- The static-key ciphertext of a ClientHello: a presence flag, then the length-prefixed bytes.
abbrev pub put_optional : List ℕ → List ℕ
put_optional [] = 0 ∷ []
put_optional (b ∷ bytes) = 1 ∷ put_len_prefixed (b ∷ bytes)

unfoldable pub read_optional : List ℕ → ℕ → ℕ → Result (List ℕ × ℕ)
read_optional bytes off payload_end =
    if ltb off payload_end
    then (do
      present ← index bytes off
      if present == 1 then read_len_prefixed bytes (off + 1) payload_end else ok ([], off + 1))
    else ok ([], off)

-- The PSK identity: a presence flag, a 1-byte length, and the label.
abbrev pub put_identity : List ℕ → List ℕ
put_identity [] = 0 ∷ []
put_identity (b ∷ bytes) = 1 ∷ (length (b ∷ bytes) % 256) ∷ b ∷ bytes

-- What follows a presence flag of 1.
unfoldable pub read_label : List ℕ → ℕ → ℕ → Result (List ℕ)
read_label bytes off payload_end = do
  guard (not (ltb payload_end (off + 1))) invalid_message
  id_len ← index bytes off
  guard (not (id_len == 0)) invalid_message
  guard (not (ltb payload_end (off + 1 + id_len))) invalid_message
  slice bytes (off + 1) (off + 1 + id_len)

unfoldable pub read_identity : List ℕ → ℕ → ℕ → Result (List ℕ)
read_identity bytes off payload_end =
    if ltb off payload_end
    then (do
      present ← index bytes off
      if present == 1 then read_label bytes (off + 1) payload_end else ok [])
    else ok []

-- The session ID: a 1-byte length and the bytes. The decoders do not compare the length with the
-- end of the payload before they slice.
abbrev pub put_session_id : List ℕ → List ℕ
put_session_id bytes = (length bytes % 256) ∷ bytes

unfoldable pub read_session_id : List ℕ → ℕ → Result (List ℕ × ℕ)
read_session_id bytes off = do
  n ← index bytes off
  id ← if ltb 0 n then slice bytes (off + 1) (off + 1 + n) else ok []
  ok (id, off + 1 + n)
