-- ===== src/DatagramRekey.antt =====
-- pkg/tunnel/dgram_rekey.go: the rekey of the datagram transport, its sealed control messages and the
-- responder's answer. The initiator's driver `Rekey`, with its timer and its goroutine, is left out.
pub mod Agreement
pub mod Control
pub mod Outcomes
pub mod Advances
pub mod Repeats
mod Tests
use quantum_go.Base.{
  ℕ, ◌+◌, ◌-◌, Bool, true, false, not, ◌&&◌, Option, none, some, List, [], ◌∷◌, ◌++◌, ltb, ◌==◌,
  if◌then◌else◌, length, drop,
}
use quantum_go.Base.Go.{
  Result, ok, err, panic, ◌>>=◌, commit, follow, uint64_at, invalid_message, authentication_failed,
}
use quantum_go.Base.Bytes.{put_uint64}
use quantum_go.Crypto.{Primitives}
use quantum_go.Crypto.Aead.{Aead, seal_with_nonce, open_with_nonce}
use quantum_go.Crypto.Kdf.{derive_rekey_secret}
use quantum_go.Datagram.{Header, HandshakeHeader, frame_handshake}
use quantum_go.Fragment.{fragment_handshake}
use quantum_go.Session.{Session, EpochState, build_aead_nonce, secret_of}
use quantum_go.Session.Records.{next_seq}
use quantum_go.Session.Rekeying.{Kem}
use quantum_go.Session.Epochs.{datagram_recv_cipher, datagram_send_epoch, advance_datagram_epoch}

abbrev pub type_rekey_init : ℕ
type_rekey_init = 0x15

abbrev pub type_rekey_response : ℕ
type_rekey_response = 0x16

-- `rekeyAAD`
abbrev pub rekey_aad : ℕ → ℕ → ℕ → List ℕ
rekey_aad msg_type epoch seq = msg_type ∷ epoch ∷ put_uint64 seq

module _ (p : Primitives) where
  -- What `sealRekeyControl` seals under its number, with the epochs and the prefix that it reads; and
  -- the epoch.
  unfoldable pub control_body : Option EpochState → List ℕ → ℕ → ℕ → List ℕ → Result (List ℕ × ℕ)
  control_body none prefix msg_type seq payload = panic
  control_body (some es) prefix msg_type seq payload = do
    ciphertext ←
        seal_with_nonce p es.cur.send_cipher (build_aead_nonce prefix seq) payload
          (rekey_aad msg_type es.cur.epoch seq)
    ok (put_uint64 seq ++ ciphertext, es.cur.epoch)

  -- The cipher's part of `openRekeyControl`.
  unfoldable pub open_control : Option Aead → List ℕ → ℕ → ℕ → ℕ → List ℕ → Result (List ℕ)
  open_control none prefix msg_type epoch seq body = err authentication_failed
  open_control (some cipher) prefix msg_type epoch seq body =
      open_with_nonce p cipher (build_aead_nonce prefix seq) (drop 8 body)
        (rekey_aad msg_type epoch seq)

  module _ {K : Type 0} where
    -- `sealRekeyControl`
    unfoldable pub seal_rekey_control : Session K → ℕ → List ℕ → Session K × Result (List ℕ × ℕ)
    seal_rekey_control s msg_type payload =
        let (s1, seq) = next_seq s in
        (s1, control_body s1.dgram_epochs s1.send_nonce_prefix msg_type seq payload)

    -- `openRekeyControl`
    unfoldable pub open_rekey_control : ℕ → Session K → ℕ → ℕ → List ℕ → Result (List ℕ)
    open_rekey_control now s msg_type epoch body =
        if ltb (length body) 8 then err invalid_message else (do
          seq ← uint64_at body 0
          open_control (datagram_recv_cipher now s.dgram_epochs epoch) s.recv_nonce_prefix msg_type
              epoch seq body)

    -- The ratchet and the epoch change, as both ends do them
    unfoldable pub adopt_secret : ℕ → Session K → List ℕ → Session K × Result (Unit {0})
    adopt_secret now s fresh_secret =
        commit s (derive_rekey_secret p (secret_of s.master_secret) fresh_secret)
          (λ secret. follow (advance_datagram_epoch p now s secret) (λ s1 epoch. (s1, ok tt)))

  module _ {K P C : Type 0} (kem : Kem K P C) where
    -- `buildDatagramRekeyInit`
    unfoldable pub build_datagram_rekey_init : Session K → K → Session K × Result (List ℕ × ℕ)
    build_datagram_rekey_init s generated =
        seal_rekey_control s type_rekey_init (kem.public_key_bytes generated)

    -- What `respondToDatagramRekey` has before it seals: the ciphertext and the fresh secret.
    unfoldable pub encapsulated_to : ℕ → Session K → ℕ → List ℕ → List ℕ → Result (C × List ℕ)
    encapsulated_to now s epoch body coins = do
      public_key ← open_rekey_control now s type_rekey_init epoch body
      key ← kem.parse_public_key public_key
      kem.encapsulate key coins

    -- `respondToDatagramRekey`
    unfoldable pub respond_to_datagram_rekey :
        ℕ → Session K → ℕ → List ℕ → List ℕ → Session K × Result (List ℕ × ℕ)
    respond_to_datagram_rekey now s epoch body coins =
        commit s (encapsulated_to now s epoch body coins) (λ made.
          follow (seal_rekey_control s type_rekey_response (kem.ciphertext_bytes made.0))
            (λ s1 sealed. follow (adopt_secret now s1 made.1) (λ s2 done. (s2, ok sealed))))

    -- What `completeDatagramRekey` decapsulates.
    unfoldable pub decapsulated_from : ℕ → Session K → ℕ → List ℕ → K → Result (List ℕ)
    decapsulated_from now s epoch body key_pair = do
      bytes ← open_rekey_control now s type_rekey_response epoch body
      ciphertext ← kem.parse_ciphertext bytes
      kem.decapsulate ciphertext key_pair

    -- `completeDatagramRekey`
    unfoldable pub complete_datagram_rekey :
        ℕ → Session K → ℕ → List ℕ → K → Session K × Result (Unit {0})
    complete_datagram_rekey now s epoch body key_pair =
        commit s (decapsulated_from now s epoch body key_pair) (adopt_secret now s)

-- `fragmentRekey`, with the connection's own and the peer's index
unfoldable pub fragment_rekey : ℕ → ℕ → ℕ → ℕ → List ℕ → Bool → Result (List (List ℕ))
fragment_rekey index peer_index epoch msg_type body pad =
    fragment_handshake
      (record {
        base = record {
          frame_type = frame_handshake;
          epoch = epoch;
          recv_index = peer_index;
          seq = 0;
        };
        sender_index = index;
        msg_type = msg_type;
        frag_offset = 0;
        frag_length = 0;
        total_length = 0;
        cookie = [];
      })
      body pad

-- The responder's cached answer in `datagramSession`.
pub record Answer : Type 0 where
  pub from_epoch : ℕ
  pub frames : List (List ℕ)

-- A responder's connection: its indices, its session, and its last answer.
pub record Connection (K : Type 0) : Type 0 where
  pub index : ℕ
  pub peer_index : ℕ
  pub session : Session K
  pub answer : Option Answer

-- `epoch != datagramSendEpoch()`; a session that is set has its epochs.
unfoldable pub is_current : Result ℕ → ℕ → Bool
is_current panic epoch = false
is_current (err e) epoch = false
is_current (ok cur) epoch = epoch == cur

unfoldable pub is_answered : Option Answer → ℕ → Bool
is_answered none epoch = false
is_answered (some a) epoch = a.from_epoch == epoch

unfoldable pub answered_frames : Option Answer → List (List ℕ)
answered_frames none = []
answered_frames (some a) = a.frames

-- An answer that is made is cached and sent; where it cannot be made or split, nothing is sent.
unfoldable pub cache_answer :
    {K : Type 0}
    → Connection K
    → Session K
    → ℕ
    → Result (List (List ℕ))
    → Connection K × List (List ℕ)
cache_answer c s epoch panic = (record c { session = s }, [])
cache_answer c s epoch (err e) = (record c { session = s }, [])
cache_answer c s epoch (ok frames) = (
  record c { session = s; answer = some (record { from_epoch = epoch; frames = frames }) },
  frames,
)

module _ (p : Primitives) {K P C : Type 0} (kem : Kem K P C) where
  unfoldable pub answer_fresh :
      ℕ → Bool → Connection K → ℕ → List ℕ → List ℕ → Connection K × List (List ℕ)
  answer_fresh now pad c epoch body coins =
      let (s1, made) = respond_to_datagram_rekey p kem now c.session epoch body coins in
      cache_answer c s1 epoch (do
        sealed ← made
        fragment_rekey c.index c.peer_index sealed.1 type_rekey_response sealed.0 pad)

  -- `handleRekeyInit`: the connection after it, and the frames that it sends.
  unfoldable pub handle_rekey_init :
      ℕ → Bool → Connection K → ℕ → List ℕ → List ℕ → Connection K × List (List ℕ)
  handle_rekey_init now pad c epoch body coins =
      if is_answered c.answer epoch
      then (c, answered_frames c.answer)
      else if not (is_current (datagram_send_epoch c.session.dgram_epochs) epoch)
      then (c, [])
      else answer_fresh now pad c epoch body coins
