-- ===== src/Chkem/Tests.antt =====
-- An example of the KEM, over a stand-in for the curve and for ML-KEM: the Diffie-Hellman value is
-- fixed, and the ciphertext of ML-KEM shows its secret.
use quantum_go.Base.{ℕ, ◌≡◌, refl, true, false, ◌^◌, some, List, [], ◌∷◌, length, replicate, arith}
use quantum_go.Base.Go.{ok}
use quantum_go.Crypto.Toy.{toy, toy-IsLawful, padded, padded-length}
use quantum_go.Chkem.{
  Curves, AreLawful, KeyPair, Ciphertext, kem_initiator, kem_responder, public_key, encapsulate,
  decapsulate,
}
use quantum_go.Chkem.Correct.{encapsulate-succeeds}
use quantum_go.Crypto.Aead.{Aead}
use quantum_go.Handshake.{Role}
use quantum_go.Session.{Session, new_session, established}

abbrev curves : Curves
curves = record {
  x25519_public = padded 32;
  ecdh = λ a pk. some (replicate 32 7);
  mlkem_public = padded 1568;
  mlkem_accepts = λ bytes. true;
  mlkem_encapsulate = λ pk seed. (padded 1568 seed, padded 32 (padded 1568 seed));
  mlkem_decapsulate = λ sk ciphertext. padded 32 ciphertext;
}

curves-AreLawful : AreLawful curves
curves-AreLawful = record {
  x25519_public-length = padded-length 32;
  ecdh_comm = λ a b. refl;
  ecdh-length = λ a pk secret h. ground (arith, h);
  mlkem_public-length = padded-length 1568;
  accepts_public = λ sk. refl;
  ciphertext-length = λ pk seed. padded-length 1568 seed;
  secret-length = λ pk seed. padded-length 32 (padded 1568 seed);
  decapsulate_encapsulate = λ sk seed. refl;
}

abbrev pair : KeyPair
pair = record { x25519_private = 1 ∷ []; mlkem_private = 2 ∷ [] }

encapsulate-succeeds_example :
    (c : Ciphertext) × (secret : List ℕ) × (encapsulate curves toy
        (some (public_key curves pair))
        kem_responder
        (3 ∷ [])
        (4 ∷ [])
      ≡ ok (c, secret))
    × (length secret ≡ 32)
    × (decapsulate curves toy (some c) (some pair) kem_initiator ≡ ok secret)
encapsulate-succeeds_example =
    encapsulate-succeeds curves curves-AreLawful toy pair kem_responder (3 ∷ []) (4 ∷ [])
      (replicate 32 7) toy-IsLawful refl

abbrev keys : Aead
keys = record { suite = 1; key = replicate 32 4; counter = 0; max_seq = 2 ^ 28 }

abbrev end : Role → Session KeyPair
end role = record (new_session 0 role pair) {
  state = established;
  cipher_suite = 1;
  master_secret = some (replicate 32 8);
  send_cipher = some keys;
  recv_cipher = some keys;
  rekey_in_progress = false;
}
