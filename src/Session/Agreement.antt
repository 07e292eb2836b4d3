-- ===== src/Session/Agreement.antt =====
-- A rekey of the stream transport between an initiator and a responder: both ends come to the same
-- secret and the same ciphers.
use quantum_go.Base.{
  ℕ, ◌+◌, ◌%◌, ◌^◌, ◌<◌, ◌≡◌, refl, true, false, not, ◌&&◌, some, List, length, arith,
}
use quantum_go.Base.Go.{Result, ok, ◌>>=◌}
use quantum_go.Messages.{is_supported}
use quantum_go.Crypto.{Primitives, IsLawful}
use quantum_go.Crypto.Aead.{Aead, is_fips_approved}
use quantum_go.Crypto.Derivation.{
  derive_traffic_keys-length, derive_rekey_secret-length, new_aead_made,
}
use quantum_go.Session.{Session, established}
use quantum_go.Session.Rekeying.{
  Kem, IsCorrect, NewKeys, ratchet, initiate_rekey, rekey_response, prepare_rekey_response,
  rekey_result, complete_rekey, process_rekey_response, activate_rekey_send, switch_send,
  finalize_rekey_state, after_request, after_response, after_result,
}

-- A cipher suite that a build accepts.
pub record IsUsable (p : Primitives) (suite : ℕ) : Type 0 where
  pub supported : is_supported suite ≡ true
  pub approved : p.fips_mode && not (is_fips_approved suite) ≡ false

pub ratchet_succeeds :
    (p : Primitives)
    → IsLawful p
    → (master_secret fresh_secret : List ℕ) (suite : ℕ) → IsUsable p suite
    → length master_secret ≡ 32
    → length fresh_secret < 2 ^ 32
    → (keys : NewKeys) × (ratchet p (some master_secret) suite fresh_secret ≡ ok keys)
unfolding ratchet
ratchet_succeeds p laws master_secret fresh_secret suite usable h hf =
    let (secret, es, ls) = derive_rekey_secret-length p laws master_secret fresh_secret h hf in
    let (ka, kb, ek, la, lb) = derive_traffic_keys-length p laws secret ls in
    (
      record {
        secret = secret;
        from_initiator = record { suite = suite; key = ka; counter = 0; max_seq = 2 ^ 28 };
        from_responder = record { suite = suite; key = kb; counter = 0; max_seq = 2 ^ 28 };
      },
      rw (
        es,
        ek,
        new_aead_made p suite ka usable.approved usable.supported la,
        new_aead_made p suite kb usable.approved usable.supported lb,
      ),
    )

-- What two ends have in common after a rekey, and what it leaves alone: a packet in flight under the
-- old key still meets the old receive cipher and the old replay window.
pub record Agree {K : Type 0} (a b a' b' : Session K) : Type 0 where
  pub secrets : a'.master_secret ≡ b'.master_secret
  pub to_responder : (c : Aead) × (a'.send_cipher ≡ some c) × (b'.pending_recv_cipher ≡ some c)
  pub to_initiator : (c : Aead) × (b'.send_cipher ≡ some c) × (a'.pending_recv_cipher ≡ some c)
  pub initiator_done : (a'.state ≡ established) × (a'.rekey_in_progress ≡ false)
  pub responder_done : (b'.state ≡ established) × (b'.rekey_in_progress ≡ false)
  pub old_receive : (a'.recv_cipher ≡ a.recv_cipher) × (b'.recv_cipher ≡ b.recv_cipher)
  pub windows : (a'.replay_window ≡ a.replay_window) × (b'.replay_window ≡ b.replay_window)
  pub sequences : (a'.send_seq ≡ a.send_seq) × (b'.send_seq ≡ b.send_seq)

module _ {K P C : Type 0} (kem : Kem K P C) (p : Primitives) where
  -- A rekey whose messages arrive: the initiator's request, the responder's answer, and the
  -- responder's switch after it has sent the answer.
  unfoldable pub exchange : ℕ → Session K → Session K → K → List ℕ → Result (Session K × Session K)
  exchange now a b generated coins =
      let (a1, requested) = initiate_rekey kem a generated in
      do
        request ← requested
        let (b1, answered) = prepare_rekey_response kem p b request.0 request.1 coins in
            do
              answer ← answered
              let (a2, completed) = process_rekey_response kem p now a1 answer in
                  do done ← completed; ok (a2, activate_rekey_send now b1)

  initiate_out :
      (a : Session K) (generated : K)
      → a.rekey_in_progress ≡ false
      → a.state ≡ established
      → initiate_rekey kem a generated ≡ (
        after_request a generated,
        ok (kem.public_key_bytes generated, (a.send_seq + 16) % 2 ^ 64),
      )
  unfolding initiate_rekey
  initiate_out a generated ia sa = ground (arith, ia, sa)

  response_out :
      (b : Session K) (generated : K) (key : P) (coins m f : List ℕ) (c : C) (keys : NewKeys)
      → kem.parse_public_key (kem.public_key_bytes generated) ≡ ok key
      → kem.encapsulate key coins ≡ ok (c, f)
      → b.master_secret ≡ some m
      → ratchet p (some m) b.cipher_suite f ≡ ok keys
      → rekey_response kem p b (kem.public_key_bytes generated) coins
        ≡ ok (kem.ciphertext_bytes c, keys)
  unfolding rekey_response
  response_out b generated key coins m f c keys ek ec mb er = rw (ek, ec, mb, er)

  prepare_out :
      (b : Session K) (request : List ℕ) (seq : ℕ) (coins answer : List ℕ) (keys : NewKeys)
      → b.state ≡ established
      → rekey_response kem p b request coins ≡ ok (answer, keys)
      → prepare_rekey_response kem p b request seq coins ≡ (after_response b seq keys, ok answer)
  unfolding prepare_rekey_response
  prepare_out b request seq coins answer keys sb e = ground (arith, sb, e)

  result_out :
      (a : Session K) (generated : K) (m f answer : List ℕ) (d : C) (keys : NewKeys)
      → kem.parse_ciphertext answer ≡ ok d
      → kem.decapsulate d generated ≡ ok f
      → a.master_secret ≡ some m
      → ratchet p (some m) a.cipher_suite f ≡ ok keys
      → rekey_result kem p (after_request a generated) generated answer ≡ ok keys
  unfolding rekey_result after_request
  result_out a generated m f answer d keys ed es ma er = rw (ed, es, ma, er)

  process_out :
      (now : ℕ) (a : Session K) (generated : K) (answer : List ℕ) (keys : NewKeys)
      → rekey_result kem p (after_request a generated) generated answer ≡ ok keys
      → process_rekey_response kem p now (after_request a generated) answer
        ≡ (finalize_rekey_state now (after_result (after_request a generated) keys), ok tt)
  unfolding process_rekey_response complete_rekey after_request
  process_out now a generated answer keys e = ground (arith, e)

  -- The ends after a rekey with some new keys agree.
  ends-Agree :
      (now seq : ℕ) (a b : Session K) (generated : K) (keys : NewKeys)
      → Agree a b
          (finalize_rekey_state now (after_result (after_request a generated) keys))
          (activate_rekey_send now (after_response b seq keys))
  unfolding finalize_rekey_state after_result after_request activate_rekey_send switch_send
      after_response
  ends-Agree now seq a b generated keys = record {
    secrets = refl;
    to_responder = (keys.from_initiator, refl, refl);
    to_initiator = (keys.from_responder, refl, refl);
    initiator_done = (refl, refl);
    responder_done = (refl, refl);
    old_receive = (refl, refl);
    windows = (refl, refl);
    sequences = (refl, refl);
  }

  -- Between an initiator and a responder that are established, with no rekey begun by the initiator,
  -- the same master secret of 32 bytes and the same cipher suite, usable in this build, a rekey whose
  -- messages arrive completes, under the KEM's correctness, for a shared secret that fits its length
  -- field: both adopt the same secret, each sends with what the other holds as its pending receive
  -- cipher, and the old receive ciphers, the replay windows and the sequence numbers stay.
  pub exchange_agrees :
      (now : ℕ) (a b : Session K) (generated : K) (key : P) (coins : List ℕ) (c : C)
      (master_secret fresh_secret : List ℕ)
      → IsLawful p
      → IsCorrect kem
      → IsUsable p a.cipher_suite
      → b.cipher_suite ≡ a.cipher_suite
      → a.state ≡ established
      → a.rekey_in_progress ≡ false
      → b.state ≡ established
      → a.master_secret ≡ some master_secret
      → b.master_secret ≡ some master_secret
      → length master_secret ≡ 32
      → kem.parse_public_key (kem.public_key_bytes generated) ≡ ok key
      → kem.encapsulate key coins ≡ ok (c, fresh_secret)
      → length fresh_secret < 2 ^ 32
      → (a' : Session K) × (b' : Session K) × (exchange now a b generated coins ≡ ok (a', b'))
        × Agree a b a' b'
  unfolding exchange
  exchange_agrees now a b generated key coins c m f laws correct usable suites sa ia sb ma mb hm ek
        ec hf =
      let (keys, er) = ratchet_succeeds p laws m f a.cipher_suite usable hm hf in
      let (d, ed, es) = correct generated key coins c f ek ec in
      let seq = (a.send_seq + 16) % 2 ^ 64 in
      (
        finalize_rekey_state now (after_result (after_request a generated) keys),
        activate_rekey_send now (after_response b seq keys),
        rw (
          initiate_out a generated ia sa,
          prepare_out b (kem.public_key_bytes generated) seq coins (kem.ciphertext_bytes c) keys sb
              (response_out b generated key coins m f c keys ek ec mb (rw suites er)),
          process_out now a generated (kem.ciphertext_bytes c) keys
              (result_out a generated m f (kem.ciphertext_bytes c) d keys ed es ma er),
        ),
        ends-Agree now seq a b generated keys,
      )
