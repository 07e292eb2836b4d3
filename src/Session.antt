-- ===== src/Session.antt =====
-- pkg/tunnel/session.go and dgram_session.go: the state of a session, its keys and its end. Methods
-- under the session's mutex are single steps; the clock's reading, in nanoseconds, is an argument.
-- The fields that only the handshake reads (identity, version, static keys, pre-shared keys), the
-- observer and the session's id are left out.
pub mod Records
pub mod Rekeying
pub mod Tickets
pub mod Epochs
pub mod Agreement
pub mod Delivery
pub mod Sequence
pub mod Interleaving
pub mod Nonces
pub mod Replays
pub mod Retention
pub mod Limits
mod Tests
use quantum_go.Base.{
  ℕ, ◌+◌, ◌-◌, ◌^◌, ◌%◌, Bool, true, false, not, ◌&&◌, ◌||◌, Option, none, some, List, [], ◌∷◌,
  ◌++◌, ltb, leb, ◌==◌, if◌then◌else◌, length, take, replicate,
}
use quantum_go.Base.Go.{Result, ok, err, panic, commit, follow, tunnel_closed, invalid_key_size}
use quantum_go.Base.Bytes.{put_uint64}
use quantum_go.Crypto.{Primitives}
use quantum_go.Crypto.Aead.{Aead, new_aead}
use quantum_go.Crypto.Kdf.{derive_traffic_keys, derive_stream_nonce_prefixes}
use quantum_go.Handshake.{Role, initiator, responder}
use quantum_go.Replay.{Window, new_window_size}

-- `SessionState`
pub data SessionState : Type 0 where
  fresh handshaking established rekeying closed : SessionState

abbrev pub is_established : SessionState → Bool
is_established established = true
is_established _ = false

abbrev pub is_rekeying : SessionState → Bool
is_rekeying rekeying = true
is_rekeying _ = false

abbrev pub is_closed : SessionState → Bool
is_closed closed = true
is_closed _ = false

-- `datagramEpoch`; an epoch that is current has no retirement time.
pub record Epoch : Type 0 where
  pub epoch : ℕ
  pub send_cipher : Aead
  pub recv_cipher : Aead
  pub start_seq : ℕ
  pub started_at : ℕ
  pub retire_after : ℕ

-- `datagramEpochState`
pub record EpochState : Type 0 where
  pub cur : Epoch
  pub prev : Option Epoch

-- `Session`, for the key pairs of its KEM
pub record Session (KeyPair : Type 0) : Type 0 where
  pub role : Role
  pub state : SessionState
  pub cipher_suite : ℕ
  pub local_key_pair : Option KeyPair
  pub master_secret : Option (List ℕ)
  pub send_cipher : Option Aead
  pub recv_cipher : Option Aead
  pub send_seq : ℕ
  pub send_epoch_start_seq : ℕ
  pub replay_window : Window
  pub created_at : ℕ
  pub established_at : ℕ
  pub last_activity : ℕ
  pub bytes_sent : ℕ
  pub bytes_received : ℕ
  pub packets_sent : ℕ
  pub packets_recv : ℕ
  pub rekey_in_progress : Bool
  pub pending_rekey_key_pair : Option KeyPair
  pub pending_rekey_secret : Option (List ℕ)
  pub rekey_activation_seq : ℕ
  pub pending_recv_cipher : Option Aead
  pub pending_send_cipher : Option Aead
  pub send_nonce_prefix : List ℕ
  pub recv_nonce_prefix : List ℕ
  pub dgram_epochs : Option EpochState
  pub dgram_replay : Option Window
  pub last_activity_nanos : ℕ

abbrev pub stream_replay_window_size : ℕ
stream_replay_window_size = 1024

-- `NewReplayWindow`
unfoldable pub new_replay_window : Window
new_replay_window = new_window_size stream_replay_window_size

-- What is the sender's and what is the receiver's, of what is the initiator's and the responder's.
unfoldable pub directed {ℓ} : {A : Type ℓ} → Role → A × A → A × A
directed initiator (first, second) = (first, second)
directed responder (first, second) = (second, first)

-- A secret's bytes, none where it was wiped.
abbrev pub secret_of : Option (List ℕ) → List ℕ
secret_of none = []
secret_of (some secret) = secret

-- `buildAEADNonce`, into 12 zeroed bytes
unfoldable pub build_aead_nonce : List ℕ → ℕ → List ℕ
build_aead_nonce prefix seq = (take 4 prefix ++ replicate (4 - length prefix) 0) ++ put_uint64 seq

module _ {K : Type 0} where
  -- `NewSession`, with the key pair that it generates for an initiator
  unfoldable pub new_session : ℕ → Role → K → Session K
  new_session now role generated = record {
    role = role;
    state = fresh;
    cipher_suite = 0;
    local_key_pair = own_key_pair role generated;
    master_secret = none;
    send_cipher = none;
    recv_cipher = none;
    send_seq = 0;
    send_epoch_start_seq = 0;
    replay_window = new_replay_window;
    created_at = now;
    established_at = 0;
    last_activity = 0;
    bytes_sent = 0;
    bytes_received = 0;
    packets_sent = 0;
    packets_recv = 0;
    rekey_in_progress = false;
    pending_rekey_key_pair = none;
    pending_rekey_secret = none;
    rekey_activation_seq = 0;
    pending_recv_cipher = none;
    pending_send_cipher = none;
    send_nonce_prefix = [];
    recv_nonce_prefix = [];
    dgram_epochs = none;
    dgram_replay = none;
    last_activity_nanos = 0;
  }
    where
      own_key_pair : Role → K → Option K
      own_key_pair initiator k = some k
      own_key_pair responder k = none

  -- `Close`
  unfoldable pub close : Session K → Session K
  close s = record s {
    state = closed;
    master_secret = none;
    local_key_pair = none;
    send_cipher = none;
    recv_cipher = none;
  }

  -- `s.sendCipher, err = NewAEAD(…)`, which sets the field to nil on an error
  unfoldable pub set_send_cipher : Session K → Result Aead → Session K × Result (Unit {0})
  set_send_cipher s panic = (s, panic)
  set_send_cipher s (err e) = (record s { send_cipher = none }, err e)
  set_send_cipher s (ok a) = (record s { send_cipher = some a }, ok tt)

  -- `s.recvCipher, err = NewAEAD(…)`
  unfoldable pub set_recv_cipher : Session K → Result Aead → Session K × Result (Unit {0})
  set_recv_cipher s panic = (s, panic)
  set_recv_cipher s (err e) = (record s { recv_cipher = none }, err e)
  set_recv_cipher s (ok a) = (record s { recv_cipher = some a }, ok tt)

  module _ (p : Primitives) where
    -- What follows the ciphers in `InitializeKeys`.
    unfoldable pub initialize_prefixes : ℕ → Session K → List ℕ → Session K × Result (Unit {0})
    initialize_prefixes now s master_secret =
        commit s (derive_stream_nonce_prefixes p master_secret) (λ prefixes.
          let (send_prefix, recv_prefix) = directed s.role prefixes in
          (
            record s {
              send_nonce_prefix = send_prefix;
              recv_nonce_prefix = recv_prefix;
              send_epoch_start_seq = s.send_seq;
              established_at = now;
              state = established;
            },
            ok tt,
          ))

    -- What `InitializeKeys` does with the traffic keys.
    unfoldable pub initialize_ciphers :
        ℕ → Session K → List ℕ → List ℕ × List ℕ → Session K × Result (Unit {0})
    initialize_ciphers now s master_secret keys =
        let (send_key, recv_key) = directed s.role keys in
        follow (set_send_cipher s (new_aead p s.cipher_suite send_key)) (λ s1 sent.
          follow (set_recv_cipher s1 (new_aead p s.cipher_suite recv_key))
            (λ s2 received. initialize_prefixes now s2 master_secret))

    -- `InitializeKeys`
    unfoldable pub initialize_keys : ℕ → Session K → List ℕ → ℕ → Session K × Result (Unit {0})
    initialize_keys now s master_secret suite =
        if is_closed s.state
        then (s, err tunnel_closed)
        else if not (length master_secret == 32)
        then (s, err invalid_key_size)
        else (let stored = record s { master_secret = some master_secret; cipher_suite = suite } in
            commit stored (derive_traffic_keys p master_secret)
              (initialize_ciphers now stored master_secret))
