-- ===== src/Session/Interleaving.antt =====
-- Concurrent sealing calls of one session: taking a sequence number is one step, and sealing with what
-- is then read under the lock is another; the sealing itself shares no state. Between them, other
-- calls may run. `Encrypt`, the senders of datagrams and `sealRekeyControl` take their numbers from
-- the same counter.
use quantum_go.Base.{
  ap, [], refl, subst, Option, some, none, arith, ℕ, ◌+◌, ◌≡◌, List, ◌∷◌, ◌++◌, length, drop,
}
use quantum_go.Base.Go.{Result, ok, err, panic, commit}
use quantum_go.Crypto.{Primitives}
use quantum_go.DatagramRekey.{control_body}
use quantum_go.Session.Epochs.{seal_in_epoch}
use quantum_go.Crypto.Aead.{Aead, seal_with_nonce}
use quantum_go.Session.{Session, build_aead_nonce}
use quantum_go.Session.Rekeying.{Kem}
use quantum_go.Session.Sequence.{Call}
use quantum_go.Session.Records.{next_seq, encrypt, seal_record, count_sent}

-- The primitives with a cipher that gives away its nonce: what a call seals under them is the nonce
-- that it hands to the cipher.
abbrev pub showing_nonce : Primitives → Primitives
showing_nonce p = record p { cipher_seal = λ suite key nonce plaintext aad. nonce }

-- A session with the numbers that its sealing calls have taken and not yet used, how many were taken,
-- and the nonces that were handed to a cipher.
pub record World (K : Type 0) : Type 0 where
  pub session : Session K
  pub taken : List ℕ
  pub count_taken : ℕ
  pub sealed : List (List ℕ)

pub data Step {K P C : Type 0} (kem : Kem K P C) (p : Primitives) : World K → World K → Type 0 where
  -- A sealing call takes its number.
  take_number :
      (w : World K)
      → Step kem p w (record w {
        session = (next_seq w.session).0;
        taken = (next_seq w.session).1 ∷ w.taken;
        count_taken = w.count_taken + 1;
      })
  -- `Encrypt` seals under its number.
  seal_number :
      (w : World K) (now seq : ℕ) (front back plaintext ciphertext nonce : List ℕ)
      → w.taken ≡ front ++ (seq ∷ back)
      → seal_record p w.session.send_cipher w.session.send_nonce_prefix
          w.session.send_epoch_start_seq seq plaintext
        ≡ ok ciphertext
      → seal_record
          (showing_nonce p)
          w.session.send_cipher
          w.session.send_nonce_prefix
          w.session.send_epoch_start_seq
          seq
          plaintext
        ≡ ok nonce
      → Step kem p w (record w {
        session = count_sent now w.session (length plaintext);
        taken = front ++ back;
        sealed = nonce ∷ w.sealed;
      })
  -- `DatagramSeal` seals under a number that its caller has taken.
  seal_datagram :
      (w : World K) (now seq : ℕ) (front back aad plaintext ciphertext nonce : List ℕ)
      → w.taken ≡ front ++ (seq ∷ back)
      → seal_in_epoch p w.session.dgram_epochs w.session.send_nonce_prefix aad seq plaintext
        ≡ ok ciphertext
      → seal_in_epoch
          (showing_nonce p)
          w.session.dgram_epochs
          w.session.send_nonce_prefix
          aad
          seq
          plaintext
        ≡ ok nonce
      → Step kem p w (record w {
        session = record w.session { last_activity_nanos = now };
        taken = front ++ back;
        sealed = nonce ∷ w.sealed;
      })
  -- `sealRekeyControl` seals under its number; the body has the number in front.
  seal_control :
      (w : World K) (msg_type seq epoch : ℕ) (front back payload body shown : List ℕ)
      → w.taken ≡ front ++ (seq ∷ back)
      → control_body p w.session.dgram_epochs w.session.send_nonce_prefix msg_type seq payload
        ≡ ok (body, epoch)
      → control_body
          (showing_nonce p)
          w.session.dgram_epochs
          w.session.send_nonce_prefix
          msg_type
          seq
          payload
        ≡ ok (shown, epoch)
      → Step kem p w (record w { taken = front ++ back; sealed = drop 8 shown ∷ w.sealed })
  -- A sealing call fails, and its number is lost.
  lose_number :
      (w : World K) (seq : ℕ) (front back : List ℕ)
      → w.taken ≡ front ++ (seq ∷ back)
      → Step kem p w (record w { taken = front ++ back })
  -- Another method runs.
  other :
      (w : World K) (s : Session K)
      → Call kem p w.session s
      → Step kem p w (record w { session = s })

pub data Reach {K P C : Type 0} (kem : Kem K P C) (p : Primitives)
    : World K → World K → Type 0 where
  rest : (w : World K) → Reach kem p w w
  after : (w v u : World K) → Reach kem p w v → Step kem p v u → Reach kem p w u

committed :
    {S : Type 0} (s t s' : S) (r : Result (List ℕ)) (n : ℕ) (ciphertext : List ℕ) (seq : ℕ)
    → commit {Y = List ℕ × ℕ} s r (λ c. (t, ok (c, n))) ≡ (s', ok (ciphertext, seq))
    → (r ≡ ok ciphertext) × (t ≡ s')
committed s t s' panic n ciphertext seq h = absurd (ground (arith, h))
committed s t s' (err e) n ciphertext seq h = absurd (ground (arith, h))
committed s t s' (ok c) n ciphertext seq h = (ground (arith, h), ap (λ q. q.0) h)

-- What is sealed hands some nonce to the cipher.
seal_record_shows :
    (p : Primitives) (cipher : Option Aead) (prefix : List ℕ) (start seq : ℕ)
    (plaintext ciphertext : List ℕ)
    → seal_record p cipher prefix start seq plaintext ≡ ok ciphertext
    → (nonce : List ℕ) × (seal_record (showing_nonce p) cipher prefix start seq plaintext
        ≡ ok nonce)
unfolding seal_record seal_with_nonce
seal_record_shows p none prefix start seq plaintext ciphertext h = absurd (ground (arith, h))
seal_record_shows p (some cipher) prefix start seq plaintext ciphertext h =
    (build_aead_nonce prefix seq, ground (arith, h))

module _ {K P C : Type 0} (kem : Kem K P C) (p : Primitives) where
  encrypt_sealed :
      (now : ℕ) (s s' : Session K) (plaintext ciphertext : List ℕ) (seq : ℕ)
      → encrypt p now s plaintext ≡ (s', ok (ciphertext, seq))
      → let t = (next_seq s).0 in
        (seal_record p t.send_cipher t.send_nonce_prefix t.send_epoch_start_seq
            (next_seq s).1
            plaintext
          ≡ ok ciphertext)
        × (count_sent now t (length plaintext) ≡ s')
  unfolding encrypt
  encrypt_sealed now s s' plaintext ciphertext seq h =
      let t = (next_seq s).0 in
      committed t (count_sent now t (length plaintext)) s'
        (seal_record p t.send_cipher t.send_nonce_prefix t.send_epoch_start_seq (next_seq s).1
          plaintext)
        (next_seq s).1 ciphertext seq h

  -- An `Encrypt` call that succeeds undisturbed is two of the steps.
  pub encrypt_steps :
      (w : World K) (now : ℕ) (s' : Session K) (plaintext ciphertext : List ℕ) (seq : ℕ)
      → encrypt p now w.session plaintext ≡ (s', ok (ciphertext, seq))
      → (nonce : List ℕ) × Reach kem p w
          (record w { session = s'; count_taken = w.count_taken + 1; sealed = nonce ∷ w.sealed })
  encrypt_steps w now s' plaintext ciphertext seq h =
      let (sealed, same) = encrypt_sealed now w.session s' plaintext ciphertext seq h in
      let t = (next_seq w.session).0 in
      let n = (next_seq w.session).1 in
      let w1 : World K = record w {
        session = t;
        taken = n ∷ w.taken;
        count_taken = w.count_taken + 1;
      } in
      let (nonce, shown) =
        seal_record_shows p t.send_cipher t.send_nonce_prefix t.send_epoch_start_seq n plaintext
          ciphertext sealed in
      (
        nonce,
        subst
            (λ u. Reach kem p w (record w {
              session = u;
              count_taken = w.count_taken + 1;
              sealed = nonce ∷ w.sealed;
            }))
            same
            (after w w1 _ (after w w w1 (rest w) (take_number w))
              (seal_number w1 now n [] w.taken plaintext ciphertext nonce refl sealed shown)),
      )
