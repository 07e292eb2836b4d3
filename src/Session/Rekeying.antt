-- ===== src/Session/Rekeying.antt =====
-- pkg/tunnel/session.go, the rekey operations. The KEM of the session (pkg/chkem) is the interface
-- `Kem`; the key pair and the coins that it draws are arguments.
use quantum_go.Base.{
  ℕ, ◌+◌, ◌%◌, ◌^◌, ◌≡◌, true, false, not, ◌||◌, Option, none, some, List, ◌==◌, if◌then◌else◌,
  length,
}
use quantum_go.Base.Go.{
  Result, ok, err, ◌>>=◌, commit, invalid_state, invalid_key_size, rekey_in_progress,
}
use quantum_go.Crypto.{Primitives}
use quantum_go.Crypto.Aead.{Aead, new_aead}
use quantum_go.Crypto.Kdf.{derive_traffic_keys, derive_rekey_secret}
use quantum_go.Handshake.{Role}
use quantum_go.Session.{
  Session, established, rekeying, is_established, is_rekeying, directed, secret_of,
  new_replay_window,
}

-- The operations of a `Suite` of pkg/chkem that a rekey calls: the initiator's key share, the
-- responder's encapsulation with its coins, the initiator's decapsulation. The shared secret comes
-- with the ciphertext.
pub record Kem (KeyPair PublicKey Ciphertext : Type 0) : Type 0 where
  pub public_key_bytes : KeyPair → List ℕ
  pub parse_public_key : List ℕ → Result PublicKey
  pub encapsulate : PublicKey → List ℕ → Result (Ciphertext × List ℕ)
  pub ciphertext_bytes : Ciphertext → List ℕ
  pub parse_ciphertext : List ℕ → Result Ciphertext
  pub decapsulate : Ciphertext → KeyPair → Result (List ℕ)

-- What a KEM promises: what is encapsulated to a key share is decapsulated by its key pair, through
-- the bytes of both.
abbrev pub IsCorrect : {K P C : Type 0} → Kem K P C → Type 0
IsCorrect {K} {P} {C} kem =
    (k : K) (key : P) (coins : List ℕ) (c : C) (secret : List ℕ)
    → kem.parse_public_key (kem.public_key_bytes k) ≡ ok key
    → kem.encapsulate key coins ≡ ok (c, secret)
    → (d : C) × (kem.parse_ciphertext (kem.ciphertext_bytes c) ≡ ok d)
      × (kem.decapsulate d k ≡ ok secret)

-- What a rekey computes: the new master secret and the ciphers that it gives the initiator's and the
-- responder's traffic.
pub record NewKeys : Type 0 where
  pub secret : List ℕ
  pub from_initiator : Aead
  pub from_responder : Aead

module _ (p : Primitives) where
  -- The ratchet and the ciphers of `PrepareRekeyResponse` and `ProcessRekeyResponse`; the two make
  -- the ciphers in this order.
  unfoldable pub ratchet : Option (List ℕ) → ℕ → List ℕ → Result NewKeys
  ratchet master_secret suite fresh_secret = do
    secret ← derive_rekey_secret p (secret_of master_secret) fresh_secret
    keys ← derive_traffic_keys p secret
    from_initiator ← new_aead p suite keys.0
    from_responder ← new_aead p suite keys.1
    ok (record {
      secret = secret;
      from_initiator = from_initiator;
      from_responder = from_responder;
    })

  -- The ciphers for a role and a master secret, the sending one first.
  unfoldable pub derive_ciphers : Role → ℕ → List ℕ → Result (Aead × Aead)
  derive_ciphers role suite master_secret = do
    keys ← derive_traffic_keys p master_secret
    let (send_key, recv_key) = directed role keys in
        do send ← new_aead p suite send_key; recv ← new_aead p suite recv_key; ok (send, recv)

  module _ {K : Type 0} where
    -- `Rekey`
    unfoldable pub rekey : ℕ → Session K → List ℕ → Session K × Result (Unit {0})
    rekey now s new_master_secret =
        if not (length new_master_secret == 32)
        then (s, err invalid_key_size)
        else commit s (derive_ciphers s.role s.cipher_suite new_master_secret) (λ ciphers. (
          record s {
            send_cipher = some ciphers.0;
            recv_cipher = some ciphers.1;
            send_epoch_start_seq = s.send_seq;
            master_secret = some new_master_secret;
            replay_window = new_replay_window;
            established_at = now;
          },
          ok tt,
        ))

module _ {K : Type 0} where
  -- `finalizeRekeyStateLocked`
  unfoldable pub finalize_rekey_state : ℕ → Session K → Session K
  finalize_rekey_state now s = record s {
    master_secret = elim s.pending_rekey_secret [
      | none ↦ s.master_secret
      | some secret ↦ some secret
    ];
    pending_rekey_secret = none;
    rekey_in_progress = false;
    rekey_activation_seq = 0;
    established_at = now;
    state = established;
  }

  -- `pendingSendCipher` takes over, where there is one.
  unfoldable pub switch_send : Session K → Session K
  switch_send s = elim s.pending_send_cipher [
    | none ↦ s
    | some cipher ↦ record s {
      send_cipher = some cipher;
      pending_send_cipher = none;
      send_epoch_start_seq = s.send_seq;
    }
  ]

  -- `ActivateRekeySend`
  unfoldable pub activate_rekey_send : ℕ → Session K → Session K
  activate_rekey_send now s = finalize_rekey_state now (switch_send s)

  -- `pendingRecvCipher` takes over, where there is one.
  unfoldable pub switch_recv : Session K → Session K
  switch_recv s = elim s.pending_recv_cipher [
    | none ↦ s
    | some cipher ↦ record s { recv_cipher = some cipher; pending_recv_cipher = none }
  ]

  -- `ActivatePendingKeys`
  unfoldable pub activate_pending_keys : ℕ → Session K → Session K
  activate_pending_keys now s =
      if not s.rekey_in_progress
      then s
      else finalize_rekey_state now
          (record (switch_send (switch_recv s)) { replay_window = new_replay_window })

  -- The state of an initiator that has asked for a rekey.
  unfoldable pub after_request : Session K → K → Session K
  after_request s generated = record s {
    rekey_in_progress = true;
    pending_rekey_key_pair = some generated;
    rekey_activation_seq = (s.send_seq + 16) % 2 ^ 64;
    state = rekeying;
  }

  -- The state of a responder that answers a rekey: both ciphers are pending.
  unfoldable pub after_response : Session K → ℕ → NewKeys → Session K
  after_response s activation_seq keys = record s {
    rekey_in_progress = true;
    rekey_activation_seq = activation_seq;
    pending_recv_cipher = some keys.from_initiator;
    pending_send_cipher = some keys.from_responder;
    pending_rekey_secret = some keys.secret;
    state = rekeying;
  }

  -- The ciphers of an initiator that has the answer: it sends under the new key at once.
  unfoldable pub after_result : Session K → NewKeys → Session K
  after_result s keys = record s {
    send_cipher = some keys.from_initiator;
    send_epoch_start_seq = s.send_seq;
    pending_recv_cipher = some keys.from_responder;
    pending_rekey_secret = some keys.secret;
    pending_rekey_key_pair = none;
  }

module _ {K P C : Type 0} (kem : Kem K P C) where
  -- `InitiateRekey`, with the key pair that it generates
  unfoldable pub initiate_rekey : Session K → K → Session K × Result (List ℕ × ℕ)
  initiate_rekey s generated =
      if s.rekey_in_progress
      then (s, err rekey_in_progress)
      else if not (is_established s.state)
      then (s, err invalid_state)
      else (
        after_request s generated,
        ok (kem.public_key_bytes generated, (s.send_seq + 16) % 2 ^ 64),
      )

  module _ (p : Primitives) where
    -- What `PrepareRekeyResponse` computes: the response and the new keys.
    unfoldable pub rekey_response : Session K → List ℕ → List ℕ → Result (List ℕ × NewKeys)
    rekey_response s public_key coins = do
      key ← kem.parse_public_key public_key
      encapsulated ← kem.encapsulate key coins
      keys ← ratchet p s.master_secret s.cipher_suite encapsulated.1
      ok (kem.ciphertext_bytes encapsulated.0, keys)

    -- `PrepareRekeyResponse`
    unfoldable pub prepare_rekey_response :
        Session K → List ℕ → ℕ → List ℕ → Session K × Result (List ℕ)
    prepare_rekey_response s public_key activation_seq coins =
        if not (is_established s.state || is_rekeying s.state)
        then (s, err invalid_state)
        else commit s (rekey_response s public_key coins)
            (λ computed. (after_response s activation_seq computed.1, ok computed.0))

    -- What `ProcessRekeyResponse` computes.
    unfoldable pub rekey_result : Session K → K → List ℕ → Result NewKeys
    rekey_result s key_pair response = do
      ciphertext ← kem.parse_ciphertext response
      secret ← kem.decapsulate ciphertext key_pair
      ratchet p s.master_secret s.cipher_suite secret

    -- `ProcessRekeyResponse`, for a pending key pair
    unfoldable pub complete_rekey :
        ℕ → Session K → Option K → List ℕ → Session K × Result (Unit {0})
    complete_rekey now s none response = (s, err invalid_state)
    complete_rekey now s (some key_pair) response =
        commit s (rekey_result s key_pair response)
          (λ keys. (finalize_rekey_state now (after_result s keys), ok tt))

    -- `ProcessRekeyResponse`
    unfoldable pub process_rekey_response : ℕ → Session K → List ℕ → Session K × Result (Unit {0})
    process_rekey_response now s response =
        if not s.rekey_in_progress
        then (s, err invalid_state)
        else complete_rekey now s s.pending_rekey_key_pair response
