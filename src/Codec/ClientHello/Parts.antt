-- ===== src/Codec/ClientHello/Parts.antt =====
-- The three parts of a ClientHello are read back where they were written.
use quantum_go.Base.{
  ℕ, ◌+◌, ◌*◌, ◌%◌, ◌^◌, ◌≤◌, ◌<◌, ◌≡◌, refl, List, [], ◌∷◌, ◌++◌, length, All, arith, append_assoc,
  length-append, le→ltb,
}
use quantum_go.Base.Go.{ok, slice}
use quantum_go.Base.Bytes.{IsUint16, put_uint16}
use quantum_go.Base.Cursor.{At, At-move, index_read, uint16_read, slice_read}
use quantum_go.Messages.{ClientHello, validate_client_hello, version_bytes}
use quantum_go.Codec.Fields.{
  put_uint16s, put_len_prefixed, put_optional, put_identity, put_session_id,
}
use quantum_go.Codec.Reads.{
  length-put_uint16s, uint16s_read, len_prefixed_read, session_id_read, optional_read,
  identity_read,
}
use quantum_go.Codec.ClientHello.{
  encode_suites, encode_tail, decode_front, decode_suites, decode_tail,
}

-- The Go types of the fields, and the lengths that their prefixes can hold; the rest is what
-- `Validate` demands.
pub record IsClientHello (m : ClientHello) : Type 0 where
  pub suite_fits : IsUint16 m.kem_suite
  pub suites_fit : All IsUint16 m.kem_suites
  pub suite_count : length m.kem_suites ≤ 255
  pub key_size : length m.chkem_public_key < 2 ^ 16
  pub ciphers_fit : All IsUint16 m.cipher_suites
  pub cipher_count : length m.cipher_suites < 2 ^ 16
  pub static_size : length m.chkem_static_ciphertext < 2 ^ 16

-- What a successful `Validate` says of the lengths.
pub record HasLengths (m : ClientHello) : Type 0 where
  pub random_size : length m.random ≡ 32
  pub session_size : length m.session_id ≤ 255
  pub key_present : 0 < length m.chkem_public_key
  pub cipher_present : 0 < length m.cipher_suites
  pub identity_size : length m.psk_identity ≤ 255

pub validate_lengths : (m : ClientHello) → validate_client_hello m ≡ ok tt → HasLengths m
unfolding validate_client_hello
validate_lengths m h = ground arith

pub front_of : ClientHello → ClientHello
front_of m = record m {
  kem_suite = 0;
  kem_suites = [];
  chkem_public_key = [];
  cipher_suites = [];
  chkem_static_ciphertext = [];
  psk_identity = [];
}

pub suites_of : ClientHello → ClientHello
suites_of m = record m { cipher_suites = []; chkem_static_ciphertext = []; psk_identity = [] }

module _ (m : ClientHello) (v : IsClientHello m) (l : HasLengths m) {s : List ℕ} where
  pub decode_front_read :
      (rest : List ℕ)
      → At s 5 (version_bytes m.version ++ (m.random ++ (put_session_id m.session_id ++ rest)))
      → decode_front s ≡ ok (front_of m, 40 + length m.session_id)
  unfolding decode_front front_of
  decode_front_read rest c = rw (
    index_read m.version.major c,
    index_read m.version.minor (At-move (m.version.major ∷ []) 6 refl c),
    random,
    session_id_read m.session_id rest 39 l.session_size (
        At-move m.random 39 (omega (arith, l.random_size))
          (At-move (version_bytes m.version) 7 refl c)),
  )
    where
      random : slice s 7 39 ≡ ok m.random
      random = rw l.random_size at (
          slice_read m.random (put_session_id m.session_id ++ rest)
            (At-move (version_bytes m.version) 7 refl c))

  pub decode_suites_read :
      (rest : List ℕ) (off payload_end : ℕ)
      → At s off (encode_suites m rest)
      → off + 5 + 2 * length m.kem_suites + length m.chkem_public_key ≤ payload_end
      → decode_suites s payload_end (front_of m, off)
        ≡ ok (suites_of m, off + 5 + 2 * length m.kem_suites + length m.chkem_public_key)
  unfolding decode_suites encode_suites front_of suites_of
  decode_suites_read rest off payload_end c fits =
      rw
        (
          le→ltb payload_end (off + 3) (omega arith),
          uint16_read m.kem_suite v.suite_fits c,
          index_read (length m.kem_suites % 256) after_suite,
          small,
          le→ltb payload_end (off + 3 + 2 * length m.kem_suites) (omega arith),
          uint16s_read m.kem_suites (put_len_prefixed m.chkem_public_key ++ rest) (off + 3)
              v.suites_fit after_count,
          len_prefixed_read m.chkem_public_key rest (off + 3 + 2 * length m.kem_suites) payload_end
              v.key_size
              (At-move (put_uint16s m.kem_suites) (off + 3 + 2 * length m.kem_suites)
                (omega (arith, length-put_uint16s m.kem_suites)) after_count)
              (omega arith),
        )
        (ground arith)
    where
      small : length m.kem_suites % 256 ≡ length m.kem_suites
      small = omega (arith, v.suite_count)

      after_suite : At s (off + 2) (
          (length m.kem_suites % 256)
          ∷ (put_uint16s m.kem_suites ++ (put_len_prefixed m.chkem_public_key ++ rest)))
      after_suite = At-move (put_uint16 m.kem_suite) (off + 2) refl c

      after_count :
          At s (off + 3) (put_uint16s m.kem_suites ++ (put_len_prefixed m.chkem_public_key ++ rest))
      after_count = At-move ((length m.kem_suites % 256) ∷ []) (off + 3) (omega arith) after_suite

  pub decode_tail_read :
      (rest : List ℕ) (off payload_end : ℕ)
      → At s off (encode_tail m ++ rest)
      → off + length (encode_tail m) ≡ payload_end
      → decode_tail s payload_end (suites_of m, off) ≡ ok m
  unfolding decode_tail encode_tail suites_of
  decode_tail_read rest off payload_end c fits = rw (
    le→ltb payload_end (off + 2) (omega (arith, size)),
    uint16_read (length m.cipher_suites) v.cipher_count c,
    le→ltb payload_end (off + 2 + 2 * length m.cipher_suites) (omega (arith, size)),
    uint16s_read m.cipher_suites _ (off + 2) v.ciphers_fit after_count,
    optional_read m.chkem_static_ciphertext _ (off + 2 + 2 * length m.cipher_suites) payload_end
        v.static_size after_suites (omega (arith, size)),
    identity_read m.psk_identity rest _ payload_end l.identity_size
        (At-move (put_optional m.chkem_static_ciphertext) _ refl after_suites)
        (omega (arith, size)),
  )
    where
      body : List ℕ
      body = put_optional m.chkem_static_ciphertext ++ (put_identity m.psk_identity ++ rest)

      size :
          off
            + 2
            + 2 * length m.cipher_suites
            + length (put_optional m.chkem_static_ciphertext)
            + length (put_identity m.psk_identity)
          ≡ payload_end
      size = omega (
        arith,
        fits,
        length-append (put_uint16s m.cipher_suites)
            (put_optional m.chkem_static_ciphertext ++ put_identity m.psk_identity),
        length-append (put_optional m.chkem_static_ciphertext) (put_identity m.psk_identity),
        length-put_uint16s m.cipher_suites,
      )

      after_count : At s (off + 2) (put_uint16s m.cipher_suites ++ body)
      after_count =
          rw (append_assoc, append_assoc) at
            (At-move (put_uint16 (length m.cipher_suites)) (off + 2) refl c)

      after_suites : At s (off + 2 + 2 * length m.cipher_suites) body
      after_suites =
          At-move (put_uint16s m.cipher_suites) (off + 2 + 2 * length m.cipher_suites)
            (omega (arith, length-put_uint16s m.cipher_suites)) after_count
