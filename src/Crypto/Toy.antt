-- ===== src/Crypto/Toy.antt =====
-- A concrete instance of the primitives, without any secrecy, for the examples: the hashes pad what
-- they are given, and the tag of a ciphertext is the front of the key.
use quantum_go.Base.{
  ℕ, ◌-◌, ◌≡◌, false, none, some, List, [], ◌++◌, if◌then◌else◌, length, take, drop, replicate,
  length-take, length-append, length-replicate, arith,
}
use quantum_go.Base.Go.{take-append_eq, drop-append_eq}
use quantum_go.Crypto.{Primitives, IsLawful}
use quantum_go.Handshake.Machine.{bytes_equal}
use quantum_go.Cookie.Laws.{bytes_equal_refl}

abbrev pub padded : ℕ → List ℕ → List ℕ
padded n xs = take n (xs ++ replicate n 0)

pub padded-length : (n : ℕ) (xs : List ℕ) → length (padded n xs) ≡ n
padded-length n xs = omega (
  arith,
  length-take n (xs ++ replicate n 0),
  length-append xs (replicate n 0),
  length-replicate {A = ℕ} n 0,
)

abbrev pub toy : Primitives
toy = record {
  shake256 = λ input n. padded n input;
  sha3_256 = padded 32;
  cipher_seal = λ suite key nonce plaintext aad. plaintext ++ padded 16 key;
  cipher_open = λ suite key nonce ciphertext aad.
      if bytes_equal (drop (length ciphertext - 16) ciphertext) (padded 16 key)
      then some (take (length ciphertext - 16) ciphertext)
      else none;
  fips_mode = false;
}

pub toy-IsLawful : IsLawful toy
toy-IsLawful = record {
  shake256-length = λ input n. padded-length n input;
  sha3_256-length = padded-length 32;
  cipher_seal-length = λ suite key nonce plaintext aad.
      omega (arith, length-append plaintext (padded 16 key), padded-length 16 key);
  open_seal = λ suite key nonce plaintext aad. opened key plaintext;
}
  where
    opened :
        (key plaintext : List ℕ)
        → toy.cipher_open 0 key [] (plaintext ++ padded 16 key) [] ≡ some plaintext
    opened key plaintext = ground (
      arith,
      length-append plaintext (padded 16 key),
      padded-length 16 key,
      take-append_eq (length (plaintext ++ padded 16 key) - 16) plaintext (padded 16 key)
          (omega (arith, length-append plaintext (padded 16 key), padded-length 16 key)),
      drop-append_eq (length (plaintext ++ padded 16 key) - 16) plaintext (padded 16 key)
          (omega (arith, length-append plaintext (padded 16 key), padded-length 16 key)),
      bytes_equal_refl (padded 16 key),
    )
