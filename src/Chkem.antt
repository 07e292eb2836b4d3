-- ===== src/Chkem.antt =====
-- pkg/chkem/chkem.go: the hybrid KEM of X25519 and ML-KEM-1024, with the wrappers of pkg/crypto's
-- x25519.go and mlkem.go that it calls. The curve and ML-KEM are those of the standard library and of
-- circl, and are parameters. A key is its bytes; a nil or a wiped key is none. The other suites of the
-- package, which the same types carry, are left out.
pub mod Correct
pub mod Rekey
mod Tests
use quantum_go.Base.{
  ℕ, ◌+◌, ◌≡◌, ◌<◌, Bool, true, false, not, ◌||◌, Option, none, some, List, [], ◌∷◌, ◌++◌, ltb,
  ◌==◌, if◌then◌else◌, length, take, drop,
}
use quantum_go.Base.Go.{
  Error, Result, ok, err, panic, ◌>>=◌, ◌>>◌, guard, slice, invalid_public_key, invalid_ciphertext,
  invalid_private_key, crypto_error, bad_point, bad_encoding,
}
use quantum_go.Base.Bytes.{put_uint16}
use quantum_go.Crypto.{Primitives}
use quantum_go.Crypto.Kdf.{transcript_hash, derive_chkem_secret}
use quantum_go.Session.Rekeying.{Kem}

-- `ecdh` has no result for a point of small order.
pub record Curves : Type 0 where
  pub x25519_public : List ℕ → List ℕ
  pub ecdh : List ℕ → List ℕ → Option (List ℕ)
  pub mlkem_public : List ℕ → List ℕ
  pub mlkem_accepts : List ℕ → Bool
  pub mlkem_encapsulate : List ℕ → List ℕ → List ℕ × List ℕ
  pub mlkem_decapsulate : List ℕ → List ℕ → List ℕ

-- What their documentation says: Diffie-Hellman agrees in both directions and ML-KEM decapsulates what
-- it encapsulated, with the sizes of RFC 7748 and FIPS 203.
pub record AreLawful (e : Curves) : Type 0 where
  pub x25519_public-length : (sk : List ℕ) → length (e.x25519_public sk) ≡ 32
  pub ecdh_comm : (a b : List ℕ) → e.ecdh a (e.x25519_public b) ≡ e.ecdh b (e.x25519_public a)
  pub ecdh-length : (a pk secret : List ℕ) → e.ecdh a pk ≡ some secret → length secret ≡ 32
  pub mlkem_public-length : (sk : List ℕ) → length (e.mlkem_public sk) ≡ 1568
  pub accepts_public : (sk : List ℕ) → e.mlkem_accepts (e.mlkem_public sk) ≡ true
  pub ciphertext-length : (pk seed : List ℕ) → length (e.mlkem_encapsulate pk seed).0 ≡ 1568
  pub secret-length : (pk seed : List ℕ) → length (e.mlkem_encapsulate pk seed).1 ≡ 32
  pub decapsulate_encapsulate :
      (sk seed : List ℕ)
      → e.mlkem_decapsulate sk (e.mlkem_encapsulate (e.mlkem_public sk) seed).0
        ≡ (e.mlkem_encapsulate (e.mlkem_public sk) seed).1

-- `Role` of the package, with its byte on the wire
pub data KemRole : Type 0 where
  kem_initiator kem_responder : KemRole

abbrev pub role_byte : KemRole → ℕ
role_byte kem_initiator = 0x01
role_byte kem_responder = 0x02

-- `peer`
abbrev pub peer : KemRole → KemRole
peer kem_initiator = kem_responder
peer kem_responder = kem_initiator

-- `protocolVersionBytes`
abbrev pub protocol_version_bytes : List ℕ
protocol_version_bytes = put_uint16 2

-- `KeyPair`; the public halves are those of the private ones.
pub record KeyPair : Type 0 where
  pub x25519_private : List ℕ
  pub mlkem_private : List ℕ

-- `PublicKey`
pub record PublicKey : Type 0 where
  pub x25519 : List ℕ
  pub mlkem : List ℕ

-- `Ciphertext`
pub record Ciphertext : Type 0 where
  pub x25519_ephemeral : List ℕ
  pub mlkem_ciphertext : List ℕ

abbrev pub ciphertext_of : List ℕ → List ℕ → Ciphertext
ciphertext_of ephemeral rest = record { x25519_ephemeral = ephemeral; mlkem_ciphertext = rest }

-- `PublicKey.Bytes`, `Ciphertext.Bytes`
unfoldable pub public_key_bytes : PublicKey → List ℕ
public_key_bytes pk = pk.x25519 ++ pk.mlkem

unfoldable pub ciphertext_bytes : Ciphertext → List ℕ
ciphertext_bytes c = c.x25519_ephemeral ++ c.mlkem_ciphertext

-- `ParseCiphertext`
unfoldable pub parse_ciphertext : List ℕ → Result Ciphertext
parse_ciphertext bytes = if not (length bytes == 1600) then err invalid_ciphertext else (do
  ephemeral ← slice bytes 0 32
  rest ← slice bytes 32 (length bytes)
  ok (record { x25519_ephemeral = ephemeral; mlkem_ciphertext = rest }))

-- A value that a nil check guards.
abbrev pub present {ℓ} : {A : Type ℓ} → Option A → Error → Result A
present none e = err e
present (some a) e = ok a

-- `ParseX25519PublicKey`: every 32 bytes are a point.
unfoldable pub parse_x25519_public_key : List ℕ → Result (List ℕ)
parse_x25519_public_key bytes = guard (length bytes == 32) invalid_public_key >> ok bytes

module _ (e : Curves) where
  -- `KeyPair.PublicKey`
  unfoldable pub public_key : KeyPair → PublicKey
  public_key kp = record {
    x25519 = e.x25519_public kp.x25519_private;
    mlkem = e.mlkem_public kp.mlkem_private;
  }

  -- `X25519`
  unfoldable pub x25519 : List ℕ → List ℕ → Result (List ℕ)
  x25519 private_key peer_public = present (e.ecdh private_key peer_public) (crypto_error bad_point)

  -- `MLKEMDecapsulate`
  unfoldable pub mlkem_decapsulation : List ℕ → List ℕ → Result (List ℕ)
  mlkem_decapsulation private_key ciphertext =
      guard (length ciphertext == 1568) invalid_ciphertext
      >> ok (e.mlkem_decapsulate private_key ciphertext)

  -- `ParseMLKEMPublicKey`
  unfoldable pub parse_mlkem_public_key : List ℕ → Result (List ℕ)
  parse_mlkem_public_key bytes =
      guard (length bytes == 1568) invalid_public_key
      >> (guard (e.mlkem_accepts bytes) (crypto_error bad_encoding) >> ok bytes)

  -- `ParsePublicKey`
  unfoldable pub parse_public_key : List ℕ → Result PublicKey
  parse_public_key bytes = if not (length bytes == 1600) then err invalid_public_key else (do
    front ← slice bytes 0 32
    x25519_public ← parse_x25519_public_key front
    rest ← slice bytes 32 (length bytes)
    mlkem_public ← parse_mlkem_public_key rest
    ok (record { x25519 = x25519_public; mlkem = mlkem_public }))

  -- The errors that `NewCryptoError` wraps.
  abbrev pub wrapped {ℓ} : {A : Type ℓ} → Result A → Result A
  wrapped panic = panic
  wrapped (err d) = err (crypto_error d)
  wrapped (ok a) = ok a

  module _ (p : Primitives) where
    -- The transcript's hash and the secret, as both sides compute them.
    unfoldable pub combine : List ℕ → List ℕ → PublicKey → Ciphertext → KemRole → Result (List ℕ)
    combine x25519_secret mlkem_secret pk c role = do
      transcript ← transcript_hash p (
          pk.x25519
          ∷ pk.mlkem
          ∷ c.x25519_ephemeral
          ∷ c.mlkem_ciphertext
          ∷ protocol_version_bytes
          ∷ (role_byte role ∷ [])
          ∷ [])
      derive_chkem_secret p x25519_secret mlkem_secret transcript

    -- `Encapsulate`, with the ephemeral private key and the seed that it draws
    unfoldable pub encapsulate :
        Option PublicKey → KemRole → List ℕ → List ℕ → Result (Ciphertext × List ℕ)
    encapsulate recipient role ephemeral seed = do
      pk ← present recipient invalid_public_key
      x25519_secret ← wrapped (x25519 ephemeral pk.x25519)
      let (mlkem_ciphertext, mlkem_secret) = e.mlkem_encapsulate pk.mlkem seed in
          do
            c ← ok (ciphertext_of (e.x25519_public ephemeral) mlkem_ciphertext)
            secret ← combine x25519_secret mlkem_secret pk c role
            ok (c, secret)

    -- `Decapsulate`
    unfoldable pub decapsulate : Option Ciphertext → Option KeyPair → KemRole → Result (List ℕ)
    decapsulate ciphertext key_pair role = do
      c ← present ciphertext invalid_ciphertext
      passed ←
          guard (not (length c.x25519_ephemeral == 0 || length c.mlkem_ciphertext == 0))
            invalid_ciphertext
      kp ← present key_pair invalid_private_key
      ephemeral ← wrapped (parse_x25519_public_key c.x25519_ephemeral)
      x25519_secret ← wrapped (x25519 kp.x25519_private ephemeral)
      mlkem_secret ← wrapped (mlkem_decapsulation kp.mlkem_private c.mlkem_ciphertext)
      combine x25519_secret mlkem_secret (public_key kp) c (peer role)

    -- The suite as a session's KEM: a rekey's responder encapsulates and its initiator decapsulates. The
    -- coins are the ephemeral private key and the seed.
    unfoldable pub chkem_kem : Kem KeyPair PublicKey Ciphertext
    chkem_kem = record {
      public_key_bytes = λ kp. public_key_bytes (public_key kp);
      parse_public_key = parse_public_key;
      encapsulate = λ pk coins. encapsulate (some pk) kem_responder (take 32 coins) (drop 32 coins);
      ciphertext_bytes = ciphertext_bytes;
      parse_ciphertext = parse_ciphertext;
      decapsulate = λ c kp. decapsulate (some c) (some kp) kem_initiator;
    }
