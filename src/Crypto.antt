-- ===== src/Crypto.antt =====
-- pkg/crypto: what the package takes from elsewhere. The hash functions and the ciphers are those of
-- the standard library and of golang.org/x/crypto, and are parameters; `fips_mode` is the constant
-- that a build tag chooses (fips.go, fips_standard.go).
pub mod Kdf
pub mod Aead
pub mod Inputs
pub mod Derivation
pub mod Sealing
pub mod Toy
mod Tests
use quantum_go.Base.{ℕ, ◌+◌, ◌≡◌, Bool, Option, some, List, length}

-- A cipher is named by its suite; `cipher_seal suite key nonce plaintext aad` gives the ciphertext
-- with its tag, and `cipher_open` gives nothing where the tag does not fit.
pub record Primitives : Type 0 where
  pub shake256 : List ℕ → ℕ → List ℕ
  pub sha3_256 : List ℕ → List ℕ
  pub cipher_seal : ℕ → List ℕ → List ℕ → List ℕ → List ℕ → List ℕ
  pub cipher_open : ℕ → List ℕ → List ℕ → List ℕ → List ℕ → Option (List ℕ)
  pub fips_mode : Bool

-- What their documentation says: SHAKE-256 fills the output that is asked for, SHA3-256 gives 32 bytes, a ciphertext is 16
-- bytes longer than its plaintext, and opening under the same key, nonce and additional data gives
-- back what was sealed.
pub record IsLawful (p : Primitives) : Type 0 where
  pub shake256-length : (input : List ℕ) (n : ℕ) → length (p.shake256 input n) ≡ n
  pub sha3_256-length : (input : List ℕ) → length (p.sha3_256 input) ≡ 32
  pub cipher_seal-length :
      (suite : ℕ) (key nonce plaintext aad : List ℕ)
      → length (p.cipher_seal suite key nonce plaintext aad) ≡ length plaintext + 16
  pub open_seal :
      (suite : ℕ) (key nonce plaintext aad : List ℕ)
      → p.cipher_open suite key nonce (p.cipher_seal suite key nonce plaintext aad) aad
        ≡ some plaintext
