-- ===== src/Crypto/Aead.antt =====
-- pkg/crypto/aead.go and aead_inplace.go: the authenticated cipher with its nonce counter. The
-- methods that count run under the cipher's mutex, and are single steps.
use quantum_go.Base.{
  ℕ, ◌+◌, ◌*◌, ◌/◌, ◌^◌, Bool, not, ◌&&◌, Option, none, some, List, ◌++◌, ltb, leb, ◌==◌,
  if◌then◌else◌, length, take, drop, replicate,
}
use quantum_go.Base.Go.{
  Result, ok, err, commit, nonce_exhausted, invalid_nonce, ciphertext_too_short,
  authentication_failed, cipher_suite_not_fips_approved, invalid_key_size, unsupported_cipher_suite,
}
use quantum_go.Base.Bytes.{put_uint64}
use quantum_go.Messages.{is_supported}
use quantum_go.Crypto.{Primitives}
use quantum_go.Crypto.Kdf.{aes_key_size, aes_nonce_size}

abbrev pub max_packets_before_rekey : ℕ
max_packets_before_rekey = 2 ^ 28

abbrev pub aes_tag_size : ℕ
aes_tag_size = 16

-- A nonce, one byte and a tag.
abbrev pub min_packet_size : ℕ
min_packet_size = aes_nonce_size + aes_tag_size + 1

-- `IsFIPSApproved`: AES-256-GCM
abbrev pub is_fips_approved : ℕ → Bool
is_fips_approved suite = suite == 1

-- `AEAD`; the key is what its cipher was made from.
pub record Aead : Type 0 where
  pub suite : ℕ
  pub key : List ℕ
  pub counter : ℕ
  pub max_seq : ℕ

-- The nonce of a counter: 4 zeros and the counter.
unfoldable pub nonce_of : ℕ → List ℕ
nonce_of n = replicate 4 0 ++ put_uint64 n

-- `nextNonce`
unfoldable pub next_nonce : Aead → Aead × Result (List ℕ)
next_nonce a =
    if leb a.max_seq a.counter
    then (a, err nonce_exhausted)
    else (record a { counter = a.counter + 1 }, ok (nonce_of a.counter))

-- `SetCounter`
unfoldable pub set_counter : Aead → ℕ → Aead × Result (Unit {0})
set_counter a counter =
    if leb a.max_seq counter
    then (a, err nonce_exhausted)
    else (record a { counter = counter }, ok tt)

-- `NeedsRekey`
unfoldable pub is_worn : Aead → Bool
is_worn a = leb (a.max_seq * 9 / 10) a.counter

module _ (p : Primitives) where
  -- `NewAEAD`; the constructors of both ciphers take every key of 32 bytes.
  unfoldable pub new_aead : ℕ → List ℕ → Result Aead
  new_aead suite key =
      if p.fips_mode && not (is_fips_approved suite)
      then err cipher_suite_not_fips_approved
      else if not (length key == aes_key_size)
      then err invalid_key_size
      else if not (is_supported suite)
      then err unsupported_cipher_suite
      else ok (record { suite = suite; key = key; counter = 0; max_seq = max_packets_before_rekey })

  -- `Seal`: the cipher seals behind the copied nonce, into room for a plaintext and a tag.
  unfoldable pub seal : Aead → List ℕ → List ℕ → Aead × Result (List ℕ)
  seal a plaintext aad =
      let (a', nonce) = next_nonce a in
      commit a' nonce (λ n. (
        a',
        ok (
            n
            ++ take (length plaintext + aes_tag_size)
                (p.cipher_seal a.suite a.key n plaintext aad)),
      ))

  -- `SealWithNonce`, and `SealWithNonceTo` into an empty destination
  unfoldable pub seal_with_nonce : Aead → List ℕ → List ℕ → List ℕ → Result (List ℕ)
  seal_with_nonce a nonce plaintext aad =
      if not (length nonce == aes_nonce_size)
      then err invalid_nonce
      else ok (p.cipher_seal a.suite a.key nonce plaintext aad)

  -- What the cipher says about a ciphertext.
  unfoldable pub authenticated : Option (List ℕ) → Result (List ℕ)
  authenticated none = err authentication_failed
  authenticated (some plaintext) = ok plaintext

  -- `Open`
  unfoldable pub open_sealed : Aead → List ℕ → List ℕ → Result (List ℕ)
  open_sealed a ciphertext aad =
      if ltb (length ciphertext) min_packet_size
      then err ciphertext_too_short
      else authenticated (
          p.cipher_open a.suite a.key (take aes_nonce_size ciphertext)
            (drop aes_nonce_size ciphertext) aad)

  -- `OpenWithNonce`, and `OpenWithNonceTo` into an empty destination
  unfoldable pub open_with_nonce : Aead → List ℕ → List ℕ → List ℕ → Result (List ℕ)
  open_with_nonce a nonce ciphertext aad =
      if not (length nonce == aes_nonce_size)
      then err invalid_nonce
      else if ltb (length ciphertext) aes_tag_size
      then err ciphertext_too_short
      else authenticated (p.cipher_open a.suite a.key nonce ciphertext aad)
