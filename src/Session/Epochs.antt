-- ===== src/Session/Epochs.antt =====
-- pkg/tunnel/dgram_session.go and dgram_session_inplace.go: the keys of the datagram transport by
-- epoch. The destinations of the in-place variants are empty here, so that they are the same
-- functions. The coarse clock is the clock.
use quantum_go.Base.{
  ℕ, ◌+◌, ◌-◌, ◌%◌, ◌^◌, Bool, not, ◌&&◌, ◌||◌, Option, none, some, List, ltb, leb, ◌==◌,
  if◌then◌else◌, length,
}
use quantum_go.Base.Go.{
  Result, ok, err, panic, ◌>>=◌, commit, tunnel_closed, invalid_key_size, invalid_state,
  nonce_exhausted, authentication_failed,
}
use quantum_go.Crypto.{Primitives}
use quantum_go.Crypto.Aead.{Aead, max_packets_before_rekey, seal_with_nonce, open_with_nonce}
use quantum_go.Crypto.Kdf.{derive_datagram_nonce_prefixes}
use quantum_go.Handshake.{Role}
use quantum_go.Replay.{new_window}
use quantum_go.Session.{
  Session, Epoch, EpochState, established, is_closed, directed, build_aead_nonce,
}
use quantum_go.Session.Records.{datagram_rekey_high_water, max_session_duration}
use quantum_go.Session.Rekeying.{derive_ciphers}

-- `DatagramPrevEpochRetainSeconds`, in nanoseconds
abbrev pub prev_epoch_retain : ℕ
prev_epoch_retain = 30_000_000_000

-- `seq - cur.startSeq`, as a uint64
abbrev pub epoch_count : ℕ → ℕ → ℕ
epoch_count seq start = (seq + 2 ^ 64 - start) % 2 ^ 64

-- `datagramRecvCipherLocked`
unfoldable pub recv_cipher_of_prev : ℕ → Option Epoch → ℕ → Option Aead
recv_cipher_of_prev now none epoch = none
recv_cipher_of_prev now (some prev) epoch =
    if prev.epoch == epoch && ltb now prev.retire_after then some prev.recv_cipher else none

unfoldable pub datagram_recv_cipher : ℕ → Option EpochState → ℕ → Option Aead
datagram_recv_cipher now none epoch = none
datagram_recv_cipher now (some es) epoch =
    if es.cur.epoch == epoch then some es.cur.recv_cipher else recv_cipher_of_prev now es.prev epoch

-- `datagramRekeyDue` of dgram_rekey.go
unfoldable pub datagram_rekey_due : ℕ → EpochState → ℕ → Bool
datagram_rekey_due now es seq =
    leb datagram_rekey_high_water (epoch_count seq es.cur.start_seq)
    || leb max_session_duration (now - es.cur.started_at)

-- `datagramSendEpoch`; without epochs it is a nil dereference.
unfoldable pub datagram_send_epoch : Option EpochState → Result ℕ
datagram_send_epoch none = panic
datagram_send_epoch (some es) = ok es.cur.epoch

-- The rotation of `AdvanceDatagramEpoch`; an epoch's number is a byte.
unfoldable pub rotate : ℕ → EpochState → ℕ → Aead × Aead → EpochState
rotate now es send_seq ciphers = record {
  cur = record {
    epoch = (es.cur.epoch + 1) % 256;
    send_cipher = ciphers.0;
    recv_cipher = ciphers.1;
    start_seq = send_seq;
    started_at = now;
    retire_after = 0;
  };
  prev = some (record es.cur { retire_after = now + prev_epoch_retain });
}

module _ (p : Primitives) where
  -- `DatagramSeal` and `DatagramSealTo`, with the epochs and the prefix that they read
  unfoldable pub seal_in_epoch : Option EpochState → List ℕ → List ℕ → ℕ → List ℕ → Result (List ℕ)
  seal_in_epoch none prefix aad seq plaintext = panic
  seal_in_epoch (some es) prefix aad seq plaintext =
      if leb max_packets_before_rekey (epoch_count seq es.cur.start_seq)
      then err nonce_exhausted
      else seal_with_nonce p es.cur.send_cipher (build_aead_nonce prefix seq) plaintext aad

  -- The rest of `DatagramOpen`, with the cipher of the epoch
  unfoldable pub open_under : Option Aead → List ℕ → ℕ → List ℕ → List ℕ → Result (List ℕ)
  open_under none prefix seq ciphertext aad = err authentication_failed
  open_under (some cipher) prefix seq ciphertext aad =
      open_with_nonce p cipher (build_aead_nonce prefix seq) ciphertext aad

  -- What `InitializeDatagramKeys` derives: the ciphers, as `deriveDatagramCiphers` does, and the nonce
  -- prefixes, the sender's first.
  unfoldable pub datagram_keys : Role → ℕ → List ℕ → Result ((Aead × Aead) × (List ℕ × List ℕ))
  datagram_keys role suite master_secret = do
    ciphers ← derive_ciphers p role suite master_secret
    prefixes ← derive_datagram_nonce_prefixes p master_secret
    ok (ciphers, directed role prefixes)

  module _ {K : Type 0} where
    -- `DatagramSeal`, which holds the clock of the last activity
    unfoldable pub datagram_seal : ℕ → Session K → List ℕ → ℕ → List ℕ → Session K × Result (List ℕ)
    datagram_seal now s aad seq plaintext =
        commit s (seal_in_epoch s.dgram_epochs s.send_nonce_prefix aad seq plaintext)
          (λ ciphertext. (record s { last_activity_nanos = now }, ok ciphertext))

    -- `DatagramOpen` and `DatagramOpenTo`
    unfoldable pub datagram_open :
        ℕ → Session K → ℕ → ℕ → List ℕ → List ℕ → Session K × Result (List ℕ)
    datagram_open now s epoch seq ciphertext aad =
        commit s
          (open_under (datagram_recv_cipher now s.dgram_epochs epoch) s.recv_nonce_prefix seq
            ciphertext aad)
          (λ plaintext. (record s { last_activity_nanos = now }, ok plaintext))

    -- `InitializeDatagramKeys`
    unfoldable pub initialize_datagram_keys :
        ℕ → Session K → List ℕ → ℕ → Session K × Result (Unit {0})
    initialize_datagram_keys now s master_secret suite =
        if is_closed s.state
        then (s, err tunnel_closed)
        else if not (length master_secret == 32)
        then (s, err invalid_key_size)
        else (let stored = record s { master_secret = some master_secret; cipher_suite = suite } in
            commit stored (datagram_keys stored.role suite master_secret) (λ derived.
              let ciphers = derived.0 in
              let prefixes = derived.1 in
              (
                record stored {
                  send_nonce_prefix = prefixes.0;
                  recv_nonce_prefix = prefixes.1;
                  send_cipher = some ciphers.0;
                  recv_cipher = some ciphers.1;
                  dgram_epochs = some (record {
                    cur = record {
                      epoch = 0;
                      send_cipher = ciphers.0;
                      recv_cipher = ciphers.1;
                      start_seq = 0;
                      started_at = now;
                      retire_after = 0;
                    };
                    prev = none;
                  });
                  dgram_replay = some new_window;
                  last_activity_nanos = now;
                  established_at = now;
                  state = established;
                },
                ok tt,
              )))

    -- What `AdvanceDatagramEpoch` stores.
    unfoldable pub adopt_epoch : ℕ → Session K → EpochState → List ℕ → Aead × Aead → Session K
    adopt_epoch now s es new_secret ciphers = record s {
      dgram_epochs = some (rotate now es s.send_seq ciphers);
      master_secret = some new_secret;
      send_cipher = some ciphers.0;
      recv_cipher = some ciphers.1;
    }

    -- `AdvanceDatagramEpoch`
    unfoldable pub advance_datagram_epoch : ℕ → Session K → List ℕ → Session K × Result ℕ
    advance_datagram_epoch now s new_secret =
        if not (length new_secret == 32) then (s, err invalid_key_size) else elim s.dgram_epochs [
          | none ↦ (s, err invalid_state)
          | some es ↦
              commit s (derive_ciphers p s.role s.cipher_suite new_secret) (λ ciphers.
                (adopt_epoch now s es new_secret ciphers, ok ((es.cur.epoch + 1) % 256)))
        ]
