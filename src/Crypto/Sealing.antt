-- ===== src/Crypto/Sealing.antt =====
-- The ciphers of pkg/crypto/aead.go: what a sealed message opens to, and which nonces they use.
use quantum_go.Base.{
  ℕ, ◌+◌, ◌-◌, ◌^◌, ◌≤◌, ◌<◌, ◌≡◌, ◌≢◌, refl, sym, ap, ◌∙◌, subst, List, [], ◌∷◌, ◌++◌, ltb, ◌==◌,
  if◌then◌else◌, Bool-cases, inl, inr, ltb→lt, ltb→le, length, take, get_or, All, take-all,
  length-append, arith,
}
use quantum_go.Base.Go.{
  Result, ok, err, panic, take-append_eq, drop-append_eq, ciphertext_too_short,
}
use quantum_go.Crypto.{Primitives, IsLawful}
use quantum_go.Crypto.Aead.{
  Aead, nonce_of, next_nonce, seal, open_sealed, seal_with_nonce, open_with_nonce, authenticated,
}

nonce_of-length : (n : ℕ) → length (nonce_of n) ≡ 12
unfolding nonce_of
nonce_of-length n = refl

module _ (p : Primitives) (laws : IsLawful p) where
  -- `SealWithNonce` and `OpenWithNonce` are inverse for ciphers of one suite and key.
  pub open-seal_with_nonce :
      (a b : Aead) (nonce plaintext aad : List ℕ)
      → b.suite ≡ a.suite
      → b.key ≡ a.key
      → length nonce ≡ 12
      → (c : List ℕ) × (seal_with_nonce p a nonce plaintext aad ≡ ok c)
        × (open_with_nonce p b nonce c aad ≡ ok plaintext)
  unfolding seal_with_nonce open_with_nonce authenticated
  open-seal_with_nonce a b nonce plaintext aad hs hk h = (
    p.cipher_seal a.suite a.key nonce plaintext aad,
    ground arith,
    ground (
      arith,
      hs,
      hk,
      laws.open_seal a.suite a.key nonce plaintext aad,
      laws.cipher_seal-length a.suite a.key nonce plaintext aad,
    ),
  )

  seal_out :
      (a : Aead) (plaintext aad : List ℕ)
      → a.counter < a.max_seq
      → seal p a plaintext aad ≡ (
        record a { counter = a.counter + 1 },
        ok (nonce_of a.counter ++ p.cipher_seal a.suite a.key (nonce_of a.counter) plaintext aad),
      )
  unfolding seal next_nonce
  seal_out a plaintext aad h = ground (
    arith,
    take-all (length plaintext + 16)
        (p.cipher_seal a.suite a.key (nonce_of a.counter) plaintext aad)
        (omega (arith, laws.cipher_seal-length a.suite a.key (nonce_of a.counter) plaintext aad)),
  )

  -- A cipher with nonces left seals every plaintext, into 28 bytes more, under its next nonce. A cipher
  -- of the same suite and key opens the result, except that it refuses an empty plaintext's as too
  -- short. The ciphers are assumed to behave as documented.
  pub open-seal :
      (a b : Aead) (plaintext aad : List ℕ)
      → b.suite ≡ a.suite
      → b.key ≡ a.key
      → a.counter < a.max_seq
      → (c : List ℕ) × (seal p a plaintext aad ≡ (record a { counter = a.counter + 1 }, ok c))
        × (length c ≡ length plaintext + 28)
        × (open_sealed p b c aad
            ≡ (if length plaintext == 0 then err ciphertext_too_short else ok plaintext))
  unfolding open_sealed authenticated
  open-seal a b plaintext aad hs hk h =
      let n = nonce_of a.counter in
      let c = p.cipher_seal a.suite a.key n plaintext aad in
      let size : length (n ++ c) ≡ length plaintext + 28 = omega (
        arith,
        nonce_of-length a.counter,
        length-append n c,
        laws.cipher_seal-length a.suite a.key n plaintext aad,
      ) in
      (
        n ++ c,
        seal_out a plaintext aad h,
        size,
        ground (
          arith,
          size,
          nonce_of-length a.counter,
          take-append_eq 12 n c (sym (nonce_of-length a.counter)),
          drop-append_eq 12 n c (sym (nonce_of-length a.counter)),
          hs,
          hk,
          laws.open_seal a.suite a.key n plaintext aad,
        ),
      )

abbrev pub Distinct {ℓ} : {A : Type ℓ} → List A → Type ℓ
Distinct [] = Unit
Distinct (x ∷ xs) = All (λ y. x ≢ y) xs × Distinct xs

abbrev pub All-mono {ℓ κ μ} :
    {A : Type ℓ} {P : A → Type κ} {Q : A → Type μ}
    → ((a : A) → P a → Q a)
    → (xs : List A) → All P xs
    → All Q xs
All-mono f [] h = tt
All-mono f (x ∷ xs) (h, hs) = (f x h, All-mono f xs hs)

-- The nonce in front of what was sealed.
unfoldable pub with_nonce : Result (List ℕ) → List (List ℕ) → List (List ℕ)
with_nonce (ok c) rest = take 12 c ∷ rest
with_nonce (err e) rest = rest
with_nonce panic rest = rest

-- The nonces of one message after another, each with its additional data, under one cipher.
unfoldable pub nonces_used : Primitives → Aead → List (List ℕ × List ℕ) → List (List ℕ)
nonces_used p a [] = []
nonces_used p a ((plaintext, aad) ∷ ms) =
    let (a', sealed) = seal p a plaintext aad in with_nonce sealed (nonces_used p a' ms)

-- The nonces of the counters from `low` on, below `high`.
abbrev InRange : ℕ → ℕ → List ℕ → Type 0
InRange low high s = (k : ℕ) × (low ≤ k) × (k < high) × (s ≡ nonce_of k)

nonce_of_cancel : (k l : ℕ) → k < 2 ^ 64 → l < 2 ^ 64 → nonce_of k ≡ nonce_of l → k ≡ l
unfolding nonce_of
nonce_of_cancel k l hk hl e = omega (
  arith,
  ap (λ s. get_or s 4 0) e,
  ap (λ s. get_or s 5 0) e,
  ap (λ s. get_or s 6 0) e,
  ap (λ s. get_or s 7 0) e,
  ap (λ s. get_or s 8 0) e,
  ap (λ s. get_or s 9 0) e,
  ap (λ s. get_or s 10 0) e,
  ap (λ s. get_or s 11 0) e,
)

module _ (p : Primitives) where
  nonces_used_step :
      (a : Aead) (plaintext aad : List ℕ) (ms : List (List ℕ × List ℕ))
      → a.counter < a.max_seq
      → nonces_used p a ((plaintext, aad) ∷ ms)
        ≡ nonce_of a.counter ∷ nonces_used p (record a { counter = a.counter + 1 }) ms
  unfolding nonces_used with_nonce seal next_nonce
  nonces_used_step a plaintext aad ms h = ground (
    arith,
    take-append_eq 12 (nonce_of a.counter)
        (take (length plaintext + 16)
          (p.cipher_seal a.suite a.key (nonce_of a.counter) plaintext aad))
        (sym (nonce_of-length a.counter)),
  )

  nonces_used_end :
      (a : Aead) (plaintext aad : List ℕ) (ms : List (List ℕ × List ℕ))
      → a.max_seq ≤ a.counter
      → nonces_used p a ((plaintext, aad) ∷ ms) ≡ nonces_used p a ms
  unfolding nonces_used with_nonce seal next_nonce
  nonces_used_end a plaintext aad ms h = ground arith

  nonces_used-InRange :
      (a : Aead) (ms : List (List ℕ × List ℕ))
      → All (InRange a.counter a.max_seq) (nonces_used p a ms)
  unfolding nonces_used
  nonces_used-InRange a [] = tt
  nonces_used-InRange a ((plaintext, aad) ∷ ms) = elim (Bool-cases (ltb a.counter a.max_seq)) [
    | inl h ↦
        subst (All (InRange a.counter a.max_seq))
          (sym (nonces_used_step a plaintext aad ms (ltb→lt a.counter a.max_seq h)))
          (
            (a.counter, omega arith, ltb→lt a.counter a.max_seq h, refl),
            All-mono (λ s (k, low, high, e). (k, omega arith, high, e)) _
                (nonces_used-InRange (record a { counter = a.counter + 1 }) ms),
          )
    | inr h ↦
        subst (All (InRange a.counter a.max_seq))
          (sym (nonces_used_end a plaintext aad ms (ltb→le a.counter a.max_seq h)))
          (nonces_used-InRange a ms)
  ]

  -- Whatever messages a cipher seals one after another, no two of them have the same nonce, and no
  -- more are sealed than its limit leaves, for a limit of at most 2^64.
  pub nonces_used-Distinct :
      (a : Aead) (ms : List (List ℕ × List ℕ))
      → a.max_seq ≤ 2 ^ 64
      → Distinct (nonces_used p a ms) × (length (nonces_used p a ms) ≤ a.max_seq - a.counter)
  unfolding nonces_used
  nonces_used-Distinct a [] h = (tt, omega arith)
  nonces_used-Distinct a ((plaintext, aad) ∷ ms) h = elim (Bool-cases (ltb a.counter a.max_seq)) [
    | inl lt ↦
        let (rest, fewer) = nonces_used-Distinct (record a { counter = a.counter + 1 }) ms h in
        let room = ltb→lt a.counter a.max_seq lt in
        subst (λ ns. Distinct ns × (length ns ≤ a.max_seq - a.counter))
          (sym (nonces_used_step a plaintext aad ms room))
          (
            (
              All-mono
                  (λ s (k, low, high, e) same.
                    omega
                      (arith, nonce_of_cancel a.counter k (omega arith) (omega arith) (same ∙ e)))
                  _ (nonces_used-InRange (record a { counter = a.counter + 1 }) ms),
              rest,
            ),
            omega (arith, fewer),
          )
    | inr ge ↦
        subst (λ ns. Distinct ns × (length ns ≤ a.max_seq - a.counter))
          (sym (nonces_used_end a plaintext aad ms (ltb→le a.counter a.max_seq ge)))
          (nonces_used-Distinct a ms h)
  ]
