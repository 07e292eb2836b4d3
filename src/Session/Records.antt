-- ===== src/Session/Records.antt =====
-- pkg/tunnel/session.go, the records: `Encrypt`, `Decrypt` with its trial decryption, `NeedsRekey`.
-- `Encrypt` takes its sequence number and reads the cipher in separate steps, which
-- Session/Nonces interleaves with others.
use quantum_go.Base.{
  ℕ, ◌+◌, ◌-◌, ◌*◌, ◌/◌, ◌%◌, ◌^◌, Bool, true, false, not, ◌&&◌, ◌||◌, Option, none, some, List,
  ltb, leb, if◌then◌else◌, length,
}
use quantum_go.Base.Go.{
  Result, ok, err, panic, commit, invalid_state, nonce_exhausted, replay_detected,
}
use quantum_go.Base.Bytes.{put_uint64}
use quantum_go.Crypto.{Primitives}
use quantum_go.Crypto.Aead.{Aead, max_packets_before_rekey, seal_with_nonce, open_with_nonce}
use quantum_go.Replay.{check}
use quantum_go.Session.{Session, build_aead_nonce}

abbrev pub datagram_rekey_high_water : ℕ
datagram_rekey_high_water = max_packets_before_rekey * 9 / 10

abbrev pub max_bytes_before_rekey : ℕ
max_bytes_before_rekey = 2 ^ 36

-- `MaxSessionDurationSeconds`, in nanoseconds
abbrev pub max_session_duration : ℕ
max_session_duration = 3_600_000_000_000

-- A 64-bit counter's value as an int64 is at least a positive limit.
abbrev pub reaches : ℕ → ℕ → Bool
reaches counter limit = ltb counter (2 ^ 63) && leb limit counter

module _ {K : Type 0} where
  -- `sendSeq.Add(1) - 1`, as `Encrypt` and `nextDatagramSeq` take it
  unfoldable pub next_seq : Session K → Session K × ℕ
  next_seq s = (record s { send_seq = (s.send_seq + 1) % 2 ^ 64 }, s.send_seq)

  -- `promotePendingRecvCipher`
  unfoldable pub promote_pending_recv_cipher : Session K → Session K
  promote_pending_recv_cipher s = elim s.pending_recv_cipher [
    | none ↦ s
    | some cipher ↦ record s { recv_cipher = some cipher; pending_recv_cipher = none }
  ]

  -- `NeedsRekey`
  unfoldable pub needs_rekey : ℕ → Session K → Bool
  needs_rekey now s = elim s.send_cipher [
    | none ↦ false
    | some cipher ↦
        leb datagram_rekey_high_water ((s.send_seq + 2 ^ 64 - s.send_epoch_start_seq) % 2 ^ 64)
        || (reaches s.bytes_sent max_bytes_before_rekey
            || (reaches s.packets_sent max_packets_before_rekey
                || leb max_session_duration (now - s.established_at)))
  ]

  -- The counters and the clock after a record was sealed.
  unfoldable pub count_sent : ℕ → Session K → ℕ → Session K
  count_sent now s size = record s {
    bytes_sent = (s.bytes_sent + size) % 2 ^ 64;
    packets_sent = (s.packets_sent + 1) % 2 ^ 64;
    last_activity = now;
  }

  -- The counters and the clock after a record was opened.
  unfoldable pub count_received : ℕ → Session K → ℕ → Session K
  count_received now s size = record s {
    bytes_received = (s.bytes_received + size) % 2 ^ 64;
    packets_recv = (s.packets_recv + 1) % 2 ^ 64;
    last_activity = now;
  }

module _ (p : Primitives) where
  -- The rest of `Encrypt` for a sequence number, with what it has read under the lock: the cipher,
  -- the nonce prefix and the epoch's start.
  unfoldable pub seal_record : Option Aead → List ℕ → ℕ → ℕ → List ℕ → Result (List ℕ)
  seal_record none prefix start seq plaintext = err invalid_state
  seal_record (some cipher) prefix start seq plaintext =
      if leb start seq && leb max_packets_before_rekey (seq - start)
      then err nonce_exhausted
      else seal_with_nonce p cipher (build_aead_nonce prefix seq) plaintext (put_uint64 seq)

  -- The attempts of `Decrypt`, with the current and the pending cipher; the flag tells that the
  -- pending cipher opened.
  unfoldable pub open_trial : Aead → Option Aead → List ℕ → List ℕ → List ℕ → Result (List ℕ × Bool)
  open_trial cipher pending nonce ciphertext aad =
      let first = open_with_nonce p cipher nonce ciphertext aad in
      elim first [
        | panic ↦ panic
        | ok plaintext ↦ ok (plaintext, false)
        | err e ↦ elim pending [
          | none ↦ err e
          | some next ↦ elim (open_with_nonce p next nonce ciphertext aad) [
            | panic ↦ panic
            | err d ↦ err e
            | ok plaintext ↦ ok (plaintext, true)
          ]
        ]
      ]

  module _ {K : Type 0} where
    -- `Encrypt`, undisturbed: the ciphertext and its sequence number.
    unfoldable pub encrypt : ℕ → Session K → List ℕ → Session K × Result (List ℕ × ℕ)
    encrypt now s plaintext =
        let (s1, seq) = next_seq s in
        commit s1
          (seal_record s1.send_cipher s1.send_nonce_prefix s1.send_epoch_start_seq seq plaintext)
          (λ ciphertext. (count_sent now s1 (length plaintext), ok (ciphertext, seq)))

    -- What `Decrypt` does behind the replay window.
    unfoldable pub open_record : ℕ → Session K → Aead → List ℕ → ℕ → Session K × Result (List ℕ)
    open_record now s cipher ciphertext seq =
        commit s
          (open_trial cipher s.pending_recv_cipher (build_aead_nonce s.recv_nonce_prefix seq)
            ciphertext (put_uint64 seq))
          (λ opened.
            let promoted = if opened.1 then promote_pending_recv_cipher s else s in
            (count_received now promoted (length opened.0), ok opened.0))

    -- `Decrypt`
    unfoldable pub decrypt : ℕ → Session K → List ℕ → ℕ → Session K × Result (List ℕ)
    decrypt now s ciphertext seq = elim s.recv_cipher [
      | none ↦ (s, err invalid_state)
      | some cipher ↦
          let (window, is_fresh) = check s.replay_window seq in
          let s1 = record s { replay_window = window } in
          if not is_fresh
          then (s1, err replay_detected)
          else open_record now s1 cipher ciphertext seq
    ]
