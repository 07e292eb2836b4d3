-- ===== src/Crypto/Kdf.antt =====
-- pkg/crypto/kdf.go, with the domain separators and sizes of internal/constants. What is written to
-- the hash in pieces is one list. The source asks of each length whether it fits 32 bits; here, as
-- on a 64-bit machine, that test can fail.
use quantum_go.Base.{ℕ, ◌+◌, ◌*◌, ◌^◌, ◌||◌, List, [], ◌∷◌, ◌++◌, ltb, ◌==◌, if◌then◌else◌, length}
use quantum_go.Base.Go.{Result, ok, err, ◌>>=◌, ◌>>◌, guard, slice, invalid_key_size, crypto_error}
use quantum_go.Base.Bytes.{put_uint32}
use quantum_go.Crypto.{Primitives}

abbrev pub chkem_shared_secret_size : ℕ
chkem_shared_secret_size = 32

abbrev pub aes_key_size : ℕ
aes_key_size = 32

abbrev pub aes_nonce_size : ℕ
aes_nonce_size = 12

abbrev pub datagram_nonce_prefix_size : ℕ
datagram_nonce_prefix_size = 4

-- The domain separators, as the strings' bytes.
pub data Domain : Type 0 where
  chkem handshake traffic rekeying resumption : Domain
  datagram_nonce authentication psk stream_nonce : Domain

-- `"CH-KEM-Tunnel-"`
abbrev pub tunnel_prefix : List ℕ
tunnel_prefix = 67 ∷ 72 ∷ 45 ∷ 75 ∷ 69 ∷ 77 ∷ 45 ∷ 84 ∷ 117 ∷ 110 ∷ 110 ∷ 101 ∷ 108 ∷ 45 ∷ []

unfoldable pub domain_separator : Domain → List ℕ
domain_separator chkem =
    67 ∷ 72 ∷ 45 ∷ 75 ∷ 69 ∷ 77 ∷ 45 ∷ 118 ∷ 49 ∷ 45 ∷ 83 ∷ 104 ∷ 97 ∷ 114 ∷ 101 ∷ 100 ∷ 83 ∷ 101
    ∷ 99 ∷ 114 ∷ 101 ∷ 116 ∷ []
domain_separator handshake =
    tunnel_prefix ++ (72 ∷ 97 ∷ 110 ∷ 100 ∷ 115 ∷ 104 ∷ 97 ∷ 107 ∷ 101 ∷ [])
domain_separator traffic = tunnel_prefix ++ (84 ∷ 114 ∷ 97 ∷ 102 ∷ 102 ∷ 105 ∷ 99 ∷ [])
domain_separator rekeying = tunnel_prefix ++ (82 ∷ 101 ∷ 107 ∷ 101 ∷ 121 ∷ [])
domain_separator resumption =
    tunnel_prefix ++ (82 ∷ 101 ∷ 115 ∷ 117 ∷ 109 ∷ 112 ∷ 116 ∷ 105 ∷ 111 ∷ 110 ∷ [])
domain_separator datagram_nonce =
    tunnel_prefix
    ++ (68 ∷ 97 ∷ 116 ∷ 97 ∷ 103 ∷ 114 ∷ 97 ∷ 109 ∷ 45 ∷ 78 ∷ 111 ∷ 110 ∷ 99 ∷ 101 ∷ [])
domain_separator authentication =
    tunnel_prefix
    ++ (65 ∷ 117 ∷ 116 ∷ 104 ∷ 101 ∷ 110 ∷ 116 ∷ 105 ∷ 99 ∷ 97 ∷ 116 ∷ 105 ∷ 111 ∷ 110 ∷ [])
domain_separator psk = tunnel_prefix ++ (80 ∷ 83 ∷ 75 ∷ [])
domain_separator stream_nonce =
    tunnel_prefix ++ (83 ∷ 116 ∷ 114 ∷ 101 ∷ 97 ∷ 109 ∷ 45 ∷ 78 ∷ 111 ∷ 110 ∷ 99 ∷ 101 ∷ [])

abbrev pub key_size_error {ℓ} : {A : Type ℓ} → Result A
key_size_error = err (crypto_error invalid_key_size)

-- `safeUint32` of a length, with the error of its callers.
unfoldable pub safe_uint32 : ℕ → Result ℕ
safe_uint32 n = if ltb n (2 ^ 32) then ok n else key_size_error

-- A length on 4 bytes, and the bytes that it counts.
unfoldable pub framed : List ℕ → Result (List ℕ)
framed x = do n ← safe_uint32 (length x); ok (put_uint32 n ++ x)

-- The loop over the inputs.
unfoldable pub framed_all : List (List ℕ) → Result (List ℕ)
framed_all [] = ok []
framed_all (x ∷ xs) =
    let rest = framed_all xs in do first ← framed x; others ← rest; ok (first ++ others)

-- What `DeriveKey` writes to the hash.
unfoldable pub absorbed : List ℕ → List ℕ → Result (List ℕ)
absorbed domain input = do front ← framed domain; back ← framed input; ok (front ++ back)

-- What `TranscriptHash` writes to the hash.
unfoldable pub absorbed_list : List (List ℕ) → Result (List ℕ)
absorbed_list inputs = do
  count ← safe_uint32 (length inputs)
  back ← framed_all inputs
  ok (put_uint32 count ++ back)

-- What `DeriveKeyMultiple` writes to the hash.
unfoldable pub absorbed_multiple : List ℕ → List (List ℕ) → Result (List ℕ)
absorbed_multiple domain inputs = do
  front ← framed domain
  back ← absorbed_list inputs
  ok (front ++ back)

module _ (p : Primitives) where
  -- `DeriveKey`
  unfoldable pub derive_key : List ℕ → List ℕ → ℕ → Result (List ℕ)
  derive_key domain input output_len =
      if output_len == 0 || ltb (2 ^ 20) output_len
      then key_size_error
      else (do stream ← absorbed domain input; ok (p.shake256 stream output_len))

  -- `DeriveKeyMultiple`
  unfoldable pub derive_key_multiple : List ℕ → List (List ℕ) → ℕ → Result (List ℕ)
  derive_key_multiple domain inputs output_len =
      if output_len == 0 || ltb (2 ^ 20) output_len
      then key_size_error
      else (do stream ← absorbed_multiple domain inputs; ok (p.shake256 stream output_len))

  -- `TranscriptHash`
  unfoldable pub transcript_hash : List (List ℕ) → Result (List ℕ)
  transcript_hash components = do stream ← absorbed_list components; ok (p.sha3_256 stream)

  -- `len(x) != size`
  abbrev pub sized : List ℕ → ℕ → Result (Unit {0})
  sized x size = guard (length x == size) (crypto_error invalid_key_size)

  -- `DeriveCHKEMSecret`
  unfoldable pub derive_chkem_secret : List ℕ → List ℕ → List ℕ → Result (List ℕ)
  derive_chkem_secret x25519_secret mlkem_secret transcript =
      sized x25519_secret 32
      >> (sized mlkem_secret 32
          >> (sized transcript 32
              >> derive_key_multiple (domain_separator chkem)
                  (x25519_secret ∷ mlkem_secret ∷ transcript ∷ []) chkem_shared_secret_size))

  -- `DeriveHandshakeKeys`: the keys and the initial vectors, the initiator's first.
  unfoldable pub derive_handshake_keys : List ℕ → Result (List ℕ × List ℕ × List ℕ × List ℕ)
  derive_handshake_keys master_secret = sized master_secret chkem_shared_secret_size >> (do
    material ←
        derive_key (domain_separator handshake) master_secret
          (2 * aes_key_size + 2 * aes_nonce_size)
    initiator_key ← slice material 0 aes_key_size
    responder_key ← slice material aes_key_size (2 * aes_key_size)
    initiator_iv ← slice material (2 * aes_key_size) (2 * aes_key_size + aes_nonce_size)
    responder_iv ←
        slice material (2 * aes_key_size + aes_nonce_size) (2 * aes_key_size + 2 * aes_nonce_size)
    ok (initiator_key, responder_key, initiator_iv, responder_iv))

  -- The two halves of a key's output, the initiator's first.
  unfoldable pub derive_halves : Domain → ℕ → List ℕ → Result (List ℕ × List ℕ)
  derive_halves domain size master_secret = sized master_secret chkem_shared_secret_size >> (do
    material ← derive_key (domain_separator domain) master_secret (2 * size)
    first ← slice material 0 size
    second ← slice material size (length material)
    ok (first, second))

  -- `DeriveTrafficKeys`
  unfoldable pub derive_traffic_keys : List ℕ → Result (List ℕ × List ℕ)
  derive_traffic_keys = derive_halves traffic aes_key_size

  -- `DeriveDatagramNoncePrefixes`
  unfoldable pub derive_datagram_nonce_prefixes : List ℕ → Result (List ℕ × List ℕ)
  derive_datagram_nonce_prefixes = derive_halves datagram_nonce datagram_nonce_prefix_size

  -- `DeriveStreamNoncePrefixes`
  unfoldable pub derive_stream_nonce_prefixes : List ℕ → Result (List ℕ × List ℕ)
  derive_stream_nonce_prefixes = derive_halves stream_nonce datagram_nonce_prefix_size

  -- `DeriveResumptionSecret`, where `psk` is the ticket's secret
  unfoldable pub derive_resumption_secret : List ℕ → List ℕ → Result (List ℕ)
  derive_resumption_secret ticket_secret fresh_secret =
      sized ticket_secret chkem_shared_secret_size
      >> (sized fresh_secret chkem_shared_secret_size
          >> derive_key_multiple (domain_separator resumption) (ticket_secret ∷ fresh_secret ∷ [])
              chkem_shared_secret_size)

  -- `DeriveRekeySecret`
  unfoldable pub derive_rekey_secret : List ℕ → List ℕ → Result (List ℕ)
  derive_rekey_secret current_secret additional_data =
      sized current_secret chkem_shared_secret_size
      >> derive_key_multiple (domain_separator rekeying) (current_secret ∷ additional_data ∷ [])
          chkem_shared_secret_size

  -- `DeriveAuthenticatedSecret`
  unfoldable pub derive_authenticated_secret : List ℕ → List ℕ → Result (List ℕ)
  derive_authenticated_secret ephemeral_secret static_secret =
      sized ephemeral_secret chkem_shared_secret_size
      >> (sized static_secret chkem_shared_secret_size
          >> derive_key_multiple (domain_separator authentication)
              (ephemeral_secret ∷ static_secret ∷ []) chkem_shared_secret_size)

  -- `DerivePSKSecret`
  unfoldable pub derive_psk_secret : List ℕ → List ℕ → Result (List ℕ)
  derive_psk_secret master_secret pre_shared =
      sized master_secret chkem_shared_secret_size
      >> (sized pre_shared chkem_shared_secret_size
          >> derive_key_multiple (domain_separator psk) (master_secret ∷ pre_shared ∷ [])
              chkem_shared_secret_size)
