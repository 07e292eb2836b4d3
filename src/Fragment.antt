-- ===== src/Fragment.antt =====
-- pkg/tunnel/dgram_handshake.go: the fragmenter, which splits one handshake message into
-- HANDSHAKE frames that fit the datagram MTU.
pub mod Split
mod Tests
use quantum_go.Base.{
  ℕ, zero, suc, ◌+◌, ◌-◌, ◌%◌, ◌^◌, Bool, true, false, not, ◌&&◌, ◌||◌, List, [], ◌∷◌, ◌++◌, ltb,
  leb, ◌==◌, if◌then◌else◌, length, replicate,
}
use quantum_go.Base.Go.{
  Result, ok, err, panic, invalid_message, message_too_large, ◌>>=◌, ◌>>◌, guard, slice,
}
use quantum_go.Datagram.{HandshakeHeader, encode_handshake, header_size, handshake_ext_size}

-- `constants.DatagramMTU`
abbrev pub datagram_mtu : ℕ
datagram_mtu = 1200

-- `constants.DatagramMaxHandshakeMessageSize`
abbrev pub max_handshake_message_size : ℕ
max_handshake_message_size = 4096

-- `maxHandshakeFragmentPayload`; a negative result is 0 here, and the caller tests for `<= 0`.
abbrev pub max_handshake_fragment_payload : ℕ → ℕ
max_handshake_fragment_payload cookie_len =
    datagram_mtu - header_size - handshake_ext_size - cookie_len

-- The header fields of the fragment `msg[off:end]`.
abbrev pub fragment_header : HandshakeHeader → ℕ → ℕ → ℕ → ℕ → HandshakeHeader
fragment_header base total off end seq = record base {
  base = record base.base { seq = seq };
  frag_offset = off % 2 ^ 16;
  frag_length = (end - off) % 2 ^ 16;
  total_length = total % 2 ^ 16;
}

-- Zero-extends a frame to the MTU.
unfoldable pub pad_frame : Bool → List ℕ → List ℕ
pad_frame pad frame =
    if pad && ltb (length frame) datagram_mtu
    then frame ++ replicate (datagram_mtu - length frame) 0
    else frame

-- The loop of `fragmentHandshake` from offset `off` on. Fuel is not Go's: running out of it is
-- `panic` here.
unfoldable pub fragment_loop :
    ℕ → HandshakeHeader → List ℕ → Bool → ℕ → ℕ → ℕ → Result (List (List ℕ))
fragment_loop zero base msg pad max_frag off seq = panic
fragment_loop (suc fuel) base msg pad max_frag off seq =
    let more = do
      let total = length msg
      let end = if ltb total (off + max_frag) then total else off + max_frag
      payload ← slice msg off end
      frame ← encode_handshake (fragment_header base total off end seq) payload
      frames ← fragment_loop fuel base msg pad max_frag (off + max_frag) ((seq + 1) % 2 ^ 64)
      ok (pad_frame pad frame ∷ frames)
    in if ltb off (length msg) then more else ok []

-- `fragmentHandshake`
unfoldable pub fragment_handshake : HandshakeHeader → List ℕ → Bool → Result (List (List ℕ))
fragment_handshake base msg pad = do
  let total = length msg
  guard (not (total == 0 || ltb max_handshake_message_size total)) message_too_large
  let max_frag = max_handshake_fragment_payload (length base.cookie)
  guard (ltb 0 max_frag) invalid_message
  fragment_loop (suc total) base msg pad max_frag 0 base.base.seq
