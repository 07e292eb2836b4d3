-- ===== src/Chkem/Correct.antt =====
-- The KEM is correct, and fills the interface of the sessions' rekeys.
use quantum_go.Base.{
  ℕ, ◌^◌, ◌<◌, ◌≡◌, refl, sym, ap, subst, ◌∙◌, some, List, [], ◌∷◌, ◌++◌, length, take, drop,
  length-append, arith,
}
use quantum_go.Base.Go.{Result, ok, err, panic, slice-middle, slice_end, bind_ok}
use quantum_go.Crypto.{Primitives, IsLawful}
use quantum_go.Crypto.Kdf.{transcript_hash, derive_chkem_secret}
use quantum_go.Crypto.Derivation.{transcript_hash-length, derive_chkem_secret-length}
use quantum_go.Chkem.{
  protocol_version_bytes, role_byte, Curves, AreLawful, KemRole, kem_initiator, kem_responder, peer,
  KeyPair, PublicKey, Ciphertext, ciphertext_of, x25519, parse_x25519_public_key,
  mlkem_decapsulation, parse_mlkem_public_key, public_key, public_key_bytes, parse_public_key,
  ciphertext_bytes, parse_ciphertext, combine, encapsulate, decapsulate, chkem_kem, wrapped,
}
use quantum_go.Session.Rekeying.{IsCorrect}

pub parse-ciphertext_bytes :
    (c : Ciphertext)
    → length c.x25519_ephemeral ≡ 32
    → length c.mlkem_ciphertext ≡ 1568
    → parse_ciphertext (ciphertext_bytes c) ≡ ok c
unfolding parse_ciphertext ciphertext_bytes
parse-ciphertext_bytes c hx hm =
    let front =
      slice-middle [] c.x25519_ephemeral c.mlkem_ciphertext 0 32 refl (omega (arith, hx)) in
    let back =
      slice_end c.x25519_ephemeral c.mlkem_ciphertext 32
        (length (c.x25519_ephemeral ++ c.mlkem_ciphertext)) (sym hx) refl in
    ground (arith, length-append c.x25519_ephemeral c.mlkem_ciphertext, front, back)

role_fits : (role : KemRole) → length (role_byte role ∷ []) < 2 ^ 32
role_fits role = omega arith

peer-peer : (role : KemRole) → peer (peer role) ≡ role
peer-peer kem_initiator = refl
peer-peer kem_responder = refl

ok_same : (k l : PublicKey) → ok k ≡ ok l → k ≡ l
ok_same k l h = ap (λ r. elim r [ ok x ↦ x | err e ↦ k | panic ↦ k ]) h

ok_left :
    (c d : Ciphertext) (s t : List ℕ)
    → Path (Result (Ciphertext × List ℕ)) (ok (c, s)) (ok (d, t))
    → c ≡ d
ok_left c d s t h = ap (λ r. elim r [ ok x ↦ x.0 | err e ↦ c | panic ↦ c ]) h

ok_right :
    (c d : Ciphertext) (s t : List ℕ)
    → Path (Result (Ciphertext × List ℕ)) (ok (c, s)) (ok (d, t))
    → s ≡ t
ok_right c d s t h = ap (λ r. elim r [ ok x ↦ x.1 | err e ↦ s | panic ↦ s ]) h

module _ (e : Curves) (lawful : AreLawful e) where
  pub parse-public_key_bytes :
      (kp : KeyPair)
      → parse_public_key e (public_key_bytes (public_key e kp)) ≡ ok (public_key e kp)
  unfolding parse_public_key public_key_bytes public_key parse_x25519_public_key
      parse_mlkem_public_key
  parse-public_key_bytes kp =
      let a = e.x25519_public kp.x25519_private in
      let b = e.mlkem_public kp.mlkem_private in
      let hx = lawful.x25519_public-length kp.x25519_private in
      let hm = lawful.mlkem_public-length kp.mlkem_private in
      let front = slice-middle [] a b 0 32 refl (omega (arith, hx)) in
      let back = slice_end a b 32 (length (a ++ b)) (sym hx) refl in
      let size = length-append a b in
      ground (arith, size, hx, hm, front, back, lawful.accepts_public kp.mlkem_private)

  transcript_of :
      (p : Primitives)
      → IsLawful p
      → (kp : KeyPair) (role : KemRole) (ephemeral seed : List ℕ)
      → (hash : List ℕ) × (transcript_hash p (
            e.x25519_public kp.x25519_private
            ∷ e.mlkem_public kp.mlkem_private
            ∷ e.x25519_public ephemeral
            ∷ (e.mlkem_encapsulate (e.mlkem_public kp.mlkem_private) seed).0
            ∷ protocol_version_bytes
            ∷ (role_byte role ∷ [])
            ∷ [])
          ≡ ok hash)
        × (length hash ≡ 32)
  transcript_of p laws kp role ephemeral seed = transcript_hash-length p laws _ (omega arith) (
    omega (arith, lawful.x25519_public-length kp.x25519_private),
    (
      omega (arith, lawful.mlkem_public-length kp.mlkem_private),
      (
        omega (arith, lawful.x25519_public-length ephemeral),
        (
          omega (arith, lawful.ciphertext-length (e.mlkem_public kp.mlkem_private) seed),
          (omega arith, (role_fits role, tt)),
        ),
      ),
    ),
  )

  encapsulated :
      (p : Primitives) (kp : KeyPair) (role : KemRole) (ephemeral seed shared hash secret : List ℕ)
      → e.ecdh ephemeral (e.x25519_public kp.x25519_private) ≡ some shared
      → transcript_hash p (
          e.x25519_public kp.x25519_private
          ∷ e.mlkem_public kp.mlkem_private
          ∷ e.x25519_public ephemeral
          ∷ (e.mlkem_encapsulate (e.mlkem_public kp.mlkem_private) seed).0
          ∷ protocol_version_bytes
          ∷ (role_byte role ∷ [])
          ∷ [])
        ≡ ok hash
      → derive_chkem_secret p shared
          (e.mlkem_encapsulate (e.mlkem_public kp.mlkem_private) seed).1
          hash
        ≡ ok secret
      → encapsulate e p (some (public_key e kp)) role ephemeral seed
        ≡ ok (
          ciphertext_of
              (e.x25519_public ephemeral)
              (e.mlkem_encapsulate (e.mlkem_public kp.mlkem_private) seed).0,
          secret,
        )
  unfolding encapsulate combine x25519 public_key
  encapsulated p kp role ephemeral seed shared hash secret h eh es = rw (h, eh, es)

  module _ (p : Primitives) where
    opens_out :
        (kp : KeyPair) (role : KemRole) (ephemeral seed shared secret : List ℕ)
        → wrapped e (x25519 e ephemeral (e.x25519_public kp.x25519_private)) ≡ ok shared
        → combine e p shared
            (e.mlkem_encapsulate (e.mlkem_public kp.mlkem_private) seed).1
            (public_key e kp)
            (ciphertext_of
              (e.x25519_public ephemeral)
              (e.mlkem_encapsulate (e.mlkem_public kp.mlkem_private) seed).0)
            role
          ≡ ok secret
        → decapsulate e p
            (some (
              ciphertext_of
                (e.x25519_public ephemeral)
                (e.mlkem_encapsulate (e.mlkem_public kp.mlkem_private) seed).0))
            (some kp)
            (peer role)
          ≡ ok secret
    unfolding decapsulate parse_x25519_public_key mlkem_decapsulation x25519
    opens_out kp role ephemeral seed shared secret hx hc =
        rw
          (
            lawful.x25519_public-length ephemeral,
            lawful.ciphertext-length (e.mlkem_public kp.mlkem_private) seed,
            lawful.ecdh_comm kp.x25519_private ephemeral,
            hx,
            lawful.decapsulate_encapsulate kp.mlkem_private seed,
            peer-peer role,
          )
          hc

    -- Whatever is encapsulated to a key pair's public key, in a role, is decapsulated by the key pair in the
    -- role of the peer to the same secret, and its bytes parse back to it. The curve and ML-KEM are
    -- assumed to behave as documented.
    pub decapsulate-encapsulate :
        (kp : KeyPair) (role : KemRole) (ephemeral seed : List ℕ) (c : Ciphertext) (secret : List ℕ)
        → encapsulate e p (some (public_key e kp)) role ephemeral seed ≡ ok (c, secret)
        → (parse_ciphertext (ciphertext_bytes c) ≡ ok c)
          × (decapsulate e p (some c) (some kp) (peer role) ≡ ok secret)
    unfolding encapsulate public_key
    decapsulate-encapsulate kp role ephemeral seed c secret h =
        let (shared, ex, rest) =
          bind_ok (wrapped e (x25519 e ephemeral (e.x25519_public kp.x25519_private))) _ (c, secret)
            h in
        let c0 =
          ciphertext_of (e.x25519_public ephemeral)
            (e.mlkem_encapsulate (e.mlkem_public kp.mlkem_private) seed).0 in
        let (s0, es, same) =
          bind_ok
            (combine e p shared (e.mlkem_encapsulate (e.mlkem_public kp.mlkem_private) seed).1
              (public_key e kp) c0 role)
            _ (c, secret) rest in
        let same_c : c0 ≡ c = ok_left c0 c s0 secret same in
        let same_s : s0 ≡ secret = ok_right c0 c s0 secret same in
        (
          subst (λ d. parse_ciphertext (ciphertext_bytes d) ≡ ok d) same_c
              (parse-ciphertext_bytes c0 (lawful.x25519_public-length ephemeral)
                (lawful.ciphertext-length (e.mlkem_public kp.mlkem_private) seed)),
          subst (λ d. decapsulate e p (some d) (some kp) (peer role) ≡ ok secret) same_c
              (opens_out kp role ephemeral seed shared s0 ex es ∙ ap ok same_s),
        )

    -- With an ephemeral key whose Diffie-Hellman value with the public key exists, Encapsulate succeeds,
    -- with a secret of 32 bytes, which the key pair decapsulates in the peer's role.
    pub encapsulate-succeeds :
        (kp : KeyPair) (role : KemRole) (ephemeral seed shared : List ℕ)
        → IsLawful p
        → e.ecdh ephemeral (e.x25519_public kp.x25519_private) ≡ some shared
        → (c : Ciphertext) × (secret : List ℕ) × (encapsulate e p
              (some (public_key e kp))
              role
              ephemeral
              seed
            ≡ ok (c, secret))
          × (length secret ≡ 32)
          × (decapsulate e p (some c) (some kp) (peer role) ≡ ok secret)
    unfolding combine x25519
    encapsulate-succeeds kp role ephemeral seed shared laws h =
        let pk = public_key e kp in
        let enc = e.mlkem_encapsulate (e.mlkem_public kp.mlkem_private) seed in
        let c = ciphertext_of (e.x25519_public ephemeral) (enc.0) in
        let (hash, eh, lh) = transcript_of p laws kp role ephemeral seed in
        let (secret, es, ls) =
          derive_chkem_secret-length p laws shared (enc.1) hash
            (lawful.ecdh-length ephemeral (e.x25519_public kp.x25519_private) shared h)
            (lawful.secret-length (e.mlkem_public kp.mlkem_private) seed) lh in
        let made = encapsulated p kp role ephemeral seed shared hash secret h eh es in
        let (back, opened) = decapsulate-encapsulate kp role ephemeral seed c secret made in
        (c, secret, made, ls, opened)

    -- The suite is a correct KEM for the sessions' rekeys.
    pub chkem_kem-IsCorrect : IsCorrect (chkem_kem e p)
    unfolding chkem_kem
    chkem_kem-IsCorrect kp key coins c secret parses h =
        let same : public_key e kp ≡ key =
          ok_same _ key (sym (parse-public_key_bytes kp) ∙ parses) in
        let (back, opened) =
          decapsulate-encapsulate kp kem_responder (take 32 coins) (drop 32 coins) c secret (
            subst
              (λ k.
                encapsulate e p (some k) kem_responder (take 32 coins) (drop 32 coins)
                ≡ ok (c, secret))
              (sym same) h) in
        (c, back, opened)
