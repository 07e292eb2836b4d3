-- ===== src/Session/Sequence.antt =====
-- The calls of a session that take no sequence number.
use quantum_go.Base.{ℕ, ◌≡◌, refl, ◌∙◌, List, Option-cases, inl, inr, arith}
use quantum_go.Crypto.{Primitives}
use quantum_go.Crypto.Aead.{Aead}
use quantum_go.Replay.{check}
use quantum_go.Session.{
  Session, close, set_send_cipher, set_recv_cipher, initialize_prefixes, initialize_ciphers,
  initialize_keys,
}
use quantum_go.Session.Epochs.{
  initialize_datagram_keys, adopt_epoch, advance_datagram_epoch, datagram_open,
}
use quantum_go.Session.Records.{decrypt, open_record, count_received, promote_pending_recv_cipher}
use quantum_go.Session.Rekeying.{
  Kem, rekey, finalize_rekey_state, switch_send, switch_recv, activate_rekey_send,
  activate_pending_keys, after_request, after_response, after_result, initiate_rekey,
  prepare_rekey_response, process_rekey_response, complete_rekey,
}

module _ {K : Type 0} where
  pub finalize-send_seq :
      (now : ℕ) (s : Session K) → (finalize_rekey_state now s).send_seq ≡ s.send_seq
  unfolding finalize_rekey_state
  finalize-send_seq now s = refl

  pub switch_send-send_seq : (s : Session K) → (switch_send s).send_seq ≡ s.send_seq
  unfolding switch_send
  switch_send-send_seq s = ground arith

  switch_recv-send_seq : (s : Session K) → (switch_recv s).send_seq ≡ s.send_seq
  unfolding switch_recv
  switch_recv-send_seq s = ground arith

  activate_pending_keys-send_seq :
      (now : ℕ) (s : Session K) → (activate_pending_keys now s).send_seq ≡ s.send_seq
  unfolding activate_pending_keys finalize_rekey_state
  activate_pending_keys-send_seq now s =
      ground (arith, switch_send-send_seq (switch_recv s), switch_recv-send_seq s)

  module _ (p : Primitives) where
    rekey-send_seq :
        (now : ℕ) (s : Session K) (m : List ℕ) → ((rekey p now s m).0).send_seq ≡ s.send_seq
    unfolding rekey
    rekey-send_seq now s m = ground arith

    open_record-send_seq :
        (now : ℕ) (s : Session K) (a : Aead) (c : List ℕ) (seq : ℕ)
        → ((open_record p now s a c seq).0).send_seq ≡ s.send_seq
    unfolding open_record count_received promote_pending_recv_cipher
    open_record-send_seq now s a c seq = ground arith

    decrypt-send_seq :
        (now : ℕ) (s : Session K) (c : List ℕ) (seq : ℕ)
        → ((decrypt p now s c seq).0).send_seq ≡ s.send_seq
    unfolding decrypt
    decrypt-send_seq now s c seq = elim (Option-cases s.recv_cipher) [
      | inl e ↦ ground (arith, e)
      | inr (a, e) ↦ ground (
        arith,
        e,
        open_record-send_seq now (record s { replay_window = (check s.replay_window seq).0 }) a c
            seq,
      )
    ]

    initialize_keys-send_seq :
        (now : ℕ) (s : Session K) (m : List ℕ) (suite : ℕ)
        → ((initialize_keys p now s m suite).0).send_seq ≡ s.send_seq
    unfolding initialize_keys initialize_ciphers initialize_prefixes set_send_cipher set_recv_cipher
    initialize_keys-send_seq now s m suite = ground arith

    initialize_datagram_keys-send_seq :
        (now : ℕ) (s : Session K) (m : List ℕ) (suite : ℕ)
        → ((initialize_datagram_keys p now s m suite).0).send_seq ≡ s.send_seq
    unfolding initialize_datagram_keys
    initialize_datagram_keys-send_seq now s m suite = ground arith

    advance_datagram_epoch-send_seq :
        (now : ℕ) (s : Session K) (m : List ℕ)
        → ((advance_datagram_epoch p now s m).0).send_seq ≡ s.send_seq
    unfolding advance_datagram_epoch adopt_epoch
    advance_datagram_epoch-send_seq now s m = ground arith

    datagram_open-send_seq :
        (now : ℕ) (s : Session K) (epoch seq : ℕ) (c aad : List ℕ)
        → ((datagram_open p now s epoch seq c aad).0).send_seq ≡ s.send_seq
    unfolding datagram_open
    datagram_open-send_seq now s epoch seq c aad = ground arith

module _ {K P C : Type 0} (kem : Kem K P C) (p : Primitives) where
  initiate_rekey-send_seq :
      (s : Session K) (k : K) → ((initiate_rekey kem s k).0).send_seq ≡ s.send_seq
  unfolding initiate_rekey after_request
  initiate_rekey-send_seq s k = ground arith

  prepare_rekey_response-send_seq :
      (s : Session K) (key : List ℕ) (seq : ℕ) (coins : List ℕ)
      → ((prepare_rekey_response kem p s key seq coins).0).send_seq ≡ s.send_seq
  unfolding prepare_rekey_response after_response
  prepare_rekey_response-send_seq s key seq coins = ground arith

  process_rekey_response-send_seq :
      (now : ℕ) (s : Session K) (answer : List ℕ)
      → ((process_rekey_response kem p now s answer).0).send_seq ≡ s.send_seq
  unfolding process_rekey_response complete_rekey after_result finalize_rekey_state
  process_rekey_response-send_seq now s answer = ground arith

  -- A call of a method that seals nothing. A datagram rekey changes the keys by an advance.
  pub data Call : Session K → Session K → Type 0 where
    initializes :
        (s : Session K) (now suite : ℕ) (m : List ℕ) → Call s ((initialize_keys p now s m suite).0)
    decrypts : (s : Session K) (now seq : ℕ) (c : List ℕ) → Call s ((decrypt p now s c seq).0)
    rekeys : (s : Session K) (now : ℕ) (m : List ℕ) → Call s ((rekey p now s m).0)
    initiates : (s : Session K) (k : K) → Call s ((initiate_rekey kem s k).0)
    prepares :
        (s : Session K) (key : List ℕ) (seq : ℕ) (coins : List ℕ)
        → Call s ((prepare_rekey_response kem p s key seq coins).0)
    processes :
        (s : Session K) (now : ℕ) (answer : List ℕ)
        → Call s ((process_rekey_response kem p now s answer).0)
    activates : (s : Session K) (now : ℕ) → Call s (activate_rekey_send now s)
    activates_both : (s : Session K) (now : ℕ) → Call s (activate_pending_keys now s)
    closes : (s : Session K) → Call s (close s)
    initializes_datagrams :
        (s : Session K) (now suite : ℕ) (m : List ℕ)
        → Call s ((initialize_datagram_keys p now s m suite).0)
    advances :
        (s : Session K) (now : ℕ) (m : List ℕ) → Call s ((advance_datagram_epoch p now s m).0)
    opens_datagram :
        (s : Session K) (now epoch seq : ℕ) (c aad : List ℕ)
        → Call s ((datagram_open p now s epoch seq c aad).0)

  pub Call-send_seq : (s t : Session K) → Call s t → t.send_seq ≡ s.send_seq
  unfolding activate_rekey_send close
  Call-send_seq _ _ (initializes s now suite m) = initialize_keys-send_seq p now s m suite
  Call-send_seq _ _ (decrypts s now seq c) = decrypt-send_seq p now s c seq
  Call-send_seq _ _ (rekeys s now m) = rekey-send_seq p now s m
  Call-send_seq _ _ (initiates s k) = initiate_rekey-send_seq s k
  Call-send_seq _ _ (prepares s key seq coins) = prepare_rekey_response-send_seq s key seq coins
  Call-send_seq _ _ (processes s now answer) = process_rekey_response-send_seq now s answer
  Call-send_seq _ _ (activates s now) =
      finalize-send_seq now (switch_send s) ∙ switch_send-send_seq s
  Call-send_seq _ _ (activates_both s now) = activate_pending_keys-send_seq now s
  Call-send_seq _ _ (closes s) = refl
  Call-send_seq _ _ (initializes_datagrams s now suite m) =
      initialize_datagram_keys-send_seq p now s m suite
  Call-send_seq _ _ (advances s now m) = advance_datagram_epoch-send_seq p now s m
  Call-send_seq _ _ (opens_datagram s now epoch seq c aad) =
      datagram_open-send_seq p now s epoch seq c aad
