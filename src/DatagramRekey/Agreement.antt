-- ===== src/DatagramRekey/Agreement.antt =====
-- A rekey of the datagram transport, from both ends.
use quantum_go.Base.{ℕ, ◌+◌, ◌%◌, ◌^◌, ◌<◌, ◌≡◌, refl, sym, some, List, length, arith}
use quantum_go.Base.Go.{ok}
use quantum_go.Crypto.{Primitives, IsLawful}
use quantum_go.Crypto.Aead.{Aead}
use quantum_go.Crypto.Kdf.{derive_rekey_secret}
use quantum_go.Crypto.Derivation.{
  derive_rekey_secret-length, derive_traffic_keys-length, new_aead_made,
}
use quantum_go.Handshake.{initiator, responder}
use quantum_go.Session.{Session, EpochState, directed}
use quantum_go.Session.Agreement.{IsUsable}
use quantum_go.Session.Records.{next_seq}
use quantum_go.Session.Rekeying.{Kem, IsCorrect, derive_ciphers}
use quantum_go.Session.Epochs.{rotate, adopt_epoch}
use quantum_go.Session.Retention.{advance_out}
use quantum_go.DatagramRekey.Control.{Reads, control_opens, next_seq-Reads}
use quantum_go.DatagramRekey.{
  type_rekey_init, type_rekey_response, seal_rekey_control, open_rekey_control,
  build_datagram_rekey_init, encapsulated_to, adopt_secret, respond_to_datagram_rekey,
  decapsulated_from, complete_datagram_rekey,
}

module _ (p : Primitives) (laws : IsLawful p) where
  -- Both roles' ciphers from one secret.
  ciphers_pair :
      (suite : ℕ) (m : List ℕ)
      → IsUsable p suite
      → length m ≡ 32
      → (x : Aead) × (y : Aead) × (derive_ciphers p initiator suite m ≡ ok (x, y))
        × (derive_ciphers p responder suite m ≡ ok (y, x))
  unfolding derive_ciphers directed
  ciphers_pair suite m usable h =
      let (ka, kb, ek, la, lb) = derive_traffic_keys-length p laws m h in
      let aead : List ℕ → Aead =
        λ key. record { suite = suite; key = key; counter = 0; max_seq = 2 ^ 28 } in
      let ea = new_aead_made p suite ka usable.approved usable.supported la in
      let eb = new_aead_made p suite kb usable.approved usable.supported lb in
      (aead ka, aead kb, rw (ek, ea, eb), rw (ek, ea, eb))

  adopt_out :
      {K : Type 0} (now : ℕ) (s : Session K) (es : EpochState) (m fresh secret : List ℕ)
      (ciphers : Aead × Aead)
      → s.dgram_epochs ≡ some es
      → s.master_secret ≡ some m
      → derive_rekey_secret p m fresh ≡ ok secret
      → length secret ≡ 32
      → derive_ciphers p s.role s.cipher_suite secret ≡ ok ciphers
      → adopt_secret p now s fresh ≡ (adopt_epoch p now s es secret ciphers, ok tt)
  unfolding adopt_secret
  adopt_out now s es m fresh secret ciphers he hm hs hl hc =
      ground (arith, hm, hs, advance_out p now s es secret ciphers he hl hc)

-- The ends after a rekey: the next epoch, the same secret, and each end's sending cipher is the other's
-- receiving one.
pub record AreInStep {K : Type 0} (es : EpochState) (a b : Session K) : Type 0 where
  pub epochs_a : EpochState
  pub epochs_b : EpochState
  pub at_a : a.dgram_epochs ≡ some epochs_a
  pub at_b : b.dgram_epochs ≡ some epochs_b
  pub next_a : epochs_a.cur.epoch ≡ (es.cur.epoch + 1) % 256
  pub next_b : epochs_b.cur.epoch ≡ (es.cur.epoch + 1) % 256
  pub to_b : epochs_a.cur.send_cipher ≡ epochs_b.cur.recv_cipher
  pub to_a : epochs_b.cur.send_cipher ≡ epochs_a.cur.recv_cipher
  pub secrets : a.master_secret ≡ b.master_secret

module _ (p : Primitives) (laws : IsLawful p) {K P C : Type 0} (kem : Kem K P C) where
  ends-AreInStep :
      (now : ℕ) (a b : Session K) (es fs : EpochState) (secret : List ℕ) (x y : Aead)
      → fs.cur.epoch ≡ es.cur.epoch
      → AreInStep es (adopt_epoch p now a es secret (x, y)) (adopt_epoch p now b fs secret (y, x))
  unfolding adopt_epoch rotate
  ends-AreInStep now a b es fs secret x y same = record {
    epochs_a = rotate now es a.send_seq (x, y);
    epochs_b = rotate now fs b.send_seq (y, x);
    at_a = refl;
    at_b = refl;
    next_a = refl;
    next_b = omega (arith, same);
    to_b = refl;
    to_a = refl;
    secrets = refl;
  }

  respond_out :
      (now : ℕ) (b b1 b2 : Session K) (epoch : ℕ) (body coins answer fresh : List ℕ) (e : ℕ) (c : C)
      → encapsulated_to p kem now b epoch body coins ≡ ok (c, fresh)
      → seal_rekey_control p b type_rekey_response (kem.ciphertext_bytes c) ≡ (b1, ok (answer, e))
      → adopt_secret p now b1 fresh ≡ (b2, ok tt)
      → respond_to_datagram_rekey p kem now b epoch body coins ≡ (b2, ok (answer, e))
  unfolding respond_to_datagram_rekey
  respond_out now b b1 b2 epoch body coins answer fresh e c made sealed adopted =
      rw (made, sealed, adopted)

  encapsulated_out :
      (now : ℕ) (b : Session K) (epoch : ℕ) (body coins bytes fresh : List ℕ) (key : P) (c : C)
      → open_rekey_control p now b type_rekey_init epoch body ≡ ok bytes
      → kem.parse_public_key bytes ≡ ok key
      → kem.encapsulate key coins ≡ ok (c, fresh)
      → encapsulated_to p kem now b epoch body coins ≡ ok (c, fresh)
  unfolding encapsulated_to
  encapsulated_out now b epoch body coins bytes fresh key c opened parsed made =
      rw (opened, parsed, made)

  complete_out :
      (now : ℕ) (a a' : Session K) (epoch : ℕ) (body bytes fresh : List ℕ) (d : C) (k : K)
      → open_rekey_control p now a type_rekey_response epoch body ≡ ok bytes
      → kem.parse_ciphertext bytes ≡ ok d
      → kem.decapsulate d k ≡ ok fresh
      → adopt_secret p now a fresh ≡ (a', ok tt)
      → complete_datagram_rekey p kem now a epoch body k ≡ (a', ok tt)
  unfolding complete_datagram_rekey decapsulated_from
  complete_out now a a' epoch body bytes fresh d k opened parsed made adopted =
      rw (opened, parsed, made, adopted)

  adopt-next_seq :
      (now : ℕ) (s : Session K) (es : EpochState) (m fresh secret : List ℕ) (ciphers : Aead × Aead)
      → s.dgram_epochs ≡ some es
      → s.master_secret ≡ some m
      → derive_rekey_secret p m fresh ≡ ok secret
      → length secret ≡ 32
      → derive_ciphers p s.role s.cipher_suite secret ≡ ok ciphers
      → adopt_secret p now (next_seq s).0 fresh
        ≡ (adopt_epoch p now (next_seq s).0 es secret ciphers, ok tt)
  unfolding next_seq
  adopt-next_seq now s = adopt_out p laws now (next_seq s).0

  -- Between an initiator and a responder that share a 32-byte master secret and a cipher suite, usable
  -- in this build, and that each read what the other sends in one current epoch, a datagram rekey whose
  -- messages arrive always completes, under the KEM's correctness, for a shared secret that fits its
  -- length field: both ends come to the next epoch with the same secret, and each sends with the cipher
  -- that the other receives with. The answer is sealed in the old epoch.
  pub datagram_rekey_agrees :
      (now : ℕ) (a b : Session K) (es fs : EpochState) (x y : Aead) (generated : K) (key : P)
      (coins : List ℕ) (c : C) (m fresh : List ℕ)
      → IsCorrect kem
      → Reads now a b es y
      → Reads now b a fs x
      → fs.cur.epoch ≡ es.cur.epoch
      → a.role ≡ initiator
      → b.role ≡ responder
      → IsUsable p a.cipher_suite
      → b.cipher_suite ≡ a.cipher_suite
      → a.master_secret ≡ some m
      → b.master_secret ≡ some m
      → length m ≡ 32
      → kem.parse_public_key (kem.public_key_bytes generated) ≡ ok key
      → kem.encapsulate key coins ≡ ok (c, fresh)
      → length fresh < 2 ^ 32
      → (a1 : Session K) × (a2 : Session K) × (b2 : Session K) × (body : List ℕ) × (answer : List ℕ)
        × (build_datagram_rekey_init p kem a generated ≡ (a1, ok (body, es.cur.epoch)))
        × (respond_to_datagram_rekey p kem now b es.cur.epoch body coins
            ≡ (b2, ok (answer, es.cur.epoch)))
        × (complete_datagram_rekey p kem now a1 es.cur.epoch answer generated ≡ (a2, ok tt))
        × AreInStep es a2 b2
  unfolding build_datagram_rekey_init
  datagram_rekey_agrees now a b es fs x y generated key coins c m fresh correct ra rb same role_a
        role_b usable suites ma mb hm ek ec hf =
      let (body, sealed, opened) =
        control_opens p laws now a b es y type_rekey_init (kem.public_key_bytes generated) ra in
      let (answer, answered, read) =
        control_opens p laws now b (next_seq a).0 fs x type_rekey_response (kem.ciphertext_bytes c)
          (next_seq-Reads now b a fs x rb) in
      let (d, ed, es') = correct generated key coins c fresh ek ec in
      let (secret, hs, ls) = derive_rekey_secret-length p laws m fresh hm hf in
      let (k, l, ei, er) = ciphers_pair p laws a.cipher_suite secret usable ls in
      let a1 = (next_seq a).0 in
      let b1 = (next_seq b).0 in
      (
        a1,
        adopt_epoch p now a1 es secret (k, l),
        adopt_epoch p now b1 fs secret (l, k),
        body,
        answer,
        sealed,
        respond_out now b b1 (adopt_epoch p now b1 fs secret (l, k)) es.cur.epoch body coins answer
            fresh es.cur.epoch c
            (encapsulated_out now b es.cur.epoch body coins (kem.public_key_bytes generated) fresh
              key c opened ek ec)
            (rw (answered, same))
            (adopt-next_seq now b fs m fresh secret (l, k) rb.has_epochs mb hs ls
              (rw (role_b, suites, er))),
        complete_out now a1 (adopt_epoch p now a1 es secret (k, l)) es.cur.epoch answer
            (kem.ciphertext_bytes c) fresh d generated (rw (sym same, read)) ed es'
            (adopt-next_seq now a es m fresh secret (k, l) ra.has_epochs ma hs ls
              (rw (role_a, ei))),
        ends-AreInStep now a1 b1 es fs secret k l same,
      )
