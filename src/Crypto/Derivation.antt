-- ===== src/Crypto/Derivation.antt =====
-- When the key derivations of pkg/crypto/kdf.go succeed, and how long their results are.
use quantum_go.Base.{
  ℕ, ◌*◌, ◌^◌, ◌≤◌, ◌<◌, ◌≡◌, refl, true, false, not, ◌&&◌, List, [], ◌∷◌, ◌++◌, length, All, arith,
}
use quantum_go.Base.Go.{ok, slice_within}
use quantum_go.Base.Bytes.{put_uint32}
use quantum_go.Messages.{is_supported}
use quantum_go.Crypto.{Primitives, IsLawful}
use quantum_go.Crypto.Aead.{new_aead, is_fips_approved}
use quantum_go.Crypto.Kdf.{
  Domain, chkem, rekeying, traffic, domain_separator, safe_uint32, framed, framed_all, absorbed,
  absorbed_list, absorbed_multiple, derive_key, derive_key_multiple, derive_halves,
  derive_traffic_keys, derive_rekey_secret, transcript_hash, derive_chkem_secret,
}

framed_fits : (x : List ℕ) → length x < 2 ^ 32 → (m : List ℕ) × (framed x ≡ ok m)
unfolding framed safe_uint32
framed_fits x h = (put_uint32 (length x) ++ x, ground arith)

domain_fits : (d : Domain) → length (domain_separator d) < 2 ^ 32
unfolding domain_separator
domain_fits Domain.chkem = omega arith
domain_fits Domain.handshake = omega arith
domain_fits Domain.traffic = omega arith
domain_fits Domain.rekeying = omega arith
domain_fits Domain.resumption = omega arith
domain_fits Domain.datagram_nonce = omega arith
domain_fits Domain.authentication = omega arith
domain_fits Domain.psk = omega arith
domain_fits Domain.stream_nonce = omega arith

absorbed_fits :
    (d : Domain) (x : List ℕ)
    → length x < 2 ^ 32
    → (m : List ℕ) × (absorbed (domain_separator d) x ≡ ok m)
unfolding absorbed
absorbed_fits d x h =
    let (a, ea) = framed_fits (domain_separator d) (domain_fits d) in
    let (b, eb) = framed_fits x h in (a ++ b, rw (ea, eb))

framed_all_fits :
    (xs : List (List ℕ)) → All (λ x. length x < 2 ^ 32) xs → (m : List ℕ) × (framed_all xs ≡ ok m)
unfolding framed_all
framed_all_fits [] h = ([], refl)
framed_all_fits (x ∷ xs) (h, hs) =
    let (a, ea) = framed_fits x h in let (b, eb) = framed_all_fits xs hs in (a ++ b, rw (ea, eb))

absorbed_list_fits :
    (xs : List (List ℕ))
    → length xs < 2 ^ 32
    → All (λ x. length x < 2 ^ 32) xs
    → (m : List ℕ) × (absorbed_list xs ≡ ok m)
unfolding absorbed_list safe_uint32
absorbed_list_fits xs h hs =
    let (b, eb) = framed_all_fits xs hs in (put_uint32 (length xs) ++ b, ground (arith, eb))

absorbed_multiple_fits :
    (d : Domain) (xs : List (List ℕ))
    → length xs < 2 ^ 32
    → All (λ x. length x < 2 ^ 32) xs
    → (m : List ℕ) × (absorbed_multiple (domain_separator d) xs ≡ ok m)
unfolding absorbed_multiple
absorbed_multiple_fits d xs h hs =
    let (a, ea) = framed_fits (domain_separator d) (domain_fits d) in
    let (b, eb) = absorbed_list_fits xs h hs in (a ++ b, rw (ea, eb))

module _ (p : Primitives) (laws : IsLawful p) where
  derive_key_out :
      (domain input stream : List ℕ) (n : ℕ)
      → 0 < n
      → n ≤ 2 ^ 20
      → absorbed domain input ≡ ok stream
      → derive_key p domain input n ≡ ok (p.shake256 stream n)
  unfolding derive_key
  derive_key_out domain input stream n h0 h1 e = ground (arith, e)

  -- The two keys, or prefixes, of a direction each that come from a master secret of 32 bytes are always
  -- derived, and have the size that is asked for, for sizes of 1 byte to 512 KiB.
  pub derive_halves-length :
      (d : Domain) (size : ℕ) (master_secret : List ℕ)
      → 0 < size
      → size ≤ 2 ^ 19
      → length master_secret ≡ 32
      → (first : List ℕ) × (second : List ℕ) × (derive_halves p d size master_secret
          ≡ ok (first, second))
        × (length first ≡ size)
        × (length second ≡ size)
  unfolding derive_halves
  derive_halves-length d size master_secret h0 h1 hm =
      let (stream, es) = absorbed_fits d master_secret (omega (arith, hm)) in
      let out = p.shake256 stream (2 * size) in
      let lo : length out ≡ 2 * size = laws.shake256-length stream (2 * size) in
      let (a, ea, la) = slice_within out 0 size (omega arith) (omega (arith, lo)) in
      let (b, eb, lb) = slice_within out size (length out) (omega (arith, lo)) (omega arith) in
      (
        a,
        b,
        ground (
          arith,
          hm,
          derive_key_out (domain_separator d) master_secret stream (2 * size) (omega arith)
              (omega arith) es,
          ea,
          eb,
        ),
        omega (arith, la),
        omega (arith, lb, lo),
      )

  pub derive_traffic_keys-length :
      (master_secret : List ℕ)
      → length master_secret ≡ 32
      → (first : List ℕ) × (second : List ℕ) × (derive_traffic_keys p master_secret
          ≡ ok (first, second))
        × (length first ≡ 32)
        × (length second ≡ 32)
  unfolding derive_traffic_keys
  derive_traffic_keys-length m h = derive_halves-length traffic 32 m (omega arith) (omega arith) h

  pub derive_rekey_secret-length :
      (current additional : List ℕ)
      → length current ≡ 32
      → length additional < 2 ^ 32
      → (secret : List ℕ) × (derive_rekey_secret p current additional ≡ ok secret)
        × (length secret ≡ 32)
  unfolding derive_rekey_secret derive_key_multiple
  derive_rekey_secret-length current additional h ha =
      let (stream, es) =
        absorbed_multiple_fits rekeying (current ∷ additional ∷ []) (omega arith)
          (omega (arith, h), (ha, tt)) in
      (p.shake256 stream 32, ground (arith, h, es), laws.shake256-length stream 32)

  pub transcript_hash-length :
      (xs : List (List ℕ))
      → length xs < 2 ^ 32
      → All (λ x. length x < 2 ^ 32) xs
      → (hash : List ℕ) × (transcript_hash p xs ≡ ok hash) × (length hash ≡ 32)
  unfolding transcript_hash
  transcript_hash-length xs h hs =
      let (stream, es) = absorbed_list_fits xs h hs in
      (p.sha3_256 stream, rw es, laws.sha3_256-length stream)

  pub derive_chkem_secret-length :
      (x m t : List ℕ)
      → length x ≡ 32
      → length m ≡ 32
      → length t ≡ 32
      → (secret : List ℕ) × (derive_chkem_secret p x m t ≡ ok secret) × (length secret ≡ 32)
  unfolding derive_chkem_secret derive_key_multiple
  derive_chkem_secret-length x m t hx hm ht =
      let (stream, es) =
        absorbed_multiple_fits chkem (x ∷ m ∷ t ∷ []) (omega arith)
          (omega (arith, hx), (omega (arith, hm), (omega (arith, ht), tt))) in
      (p.shake256 stream 32, ground (arith, hx, hm, ht, es), laws.shake256-length stream 32)

pub new_aead_made :
    (p : Primitives) (suite : ℕ) (key : List ℕ)
    → p.fips_mode && not (is_fips_approved suite) ≡ false
    → is_supported suite ≡ true
    → length key ≡ 32
    → new_aead p suite key ≡ ok (record { suite = suite; key = key; counter = 0; max_seq = 2 ^ 28 })
unfolding new_aead
new_aead_made p suite key hf hs h = rw (hf, h, hs)
