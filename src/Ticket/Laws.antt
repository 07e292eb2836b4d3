-- ===== src/Ticket/Laws.antt =====
-- Which tickets a manager accepts, and the nonces of what it seals.
use quantum_go.Base.{
  ℕ, ◌*◌, ◌/◌, ◌^◌, ◌<◌, ◌≡◌, refl, sym, ap, ◌∙◌, not, ◌&&◌, some, List, [], ◌∷◌, ◌++◌,
  if◌then◌else◌, Option-cases, inl, inr, subst, length, take, replicate, append-nil, length-append,
  take-all, arith,
}
use quantum_go.Base.Ints.{ℤ, pos, is_above}
use quantum_go.Base.Go.{
  Error, Result, ok, bind_ok, err, panic, invalid_ticket, expired_ticket,
  cipher_suite_not_fips_approved,
}
use quantum_go.Base.Bytes.{put_uint64, put_uint16}
use quantum_go.Crypto.{Primitives, IsLawful}
use quantum_go.Base.Cursor.{
  At, At-start, At-skip, At-move, index_read, uint16_read, uint64_read, slice_read,
}
use quantum_go.Crypto.Aead.{Aead, nonce_of, new_aead, next_nonce, seal, is_fips_approved}
use quantum_go.Crypto.Sealing.{open-seal}
use quantum_go.Ticket.{
  SessionTicket, TicketManager, unix_time, rotate_key, ticket_bytes, age, parse_ticket,
  secret_bytes, encrypt_ticket, decrypt_with_key, decrypt_with_keys, decrypt_ticket,
}

-- A ticket whose fields fit their Go types, created at a time since 1970.
pub record IsTicket (t : SessionTicket) (created : ℕ) : Type 0 where
  pub version_fits : t.version < 2 ^ 8
  pub suite_fits : t.cipher_suite < 2 ^ 16
  pub secret_fits : length t.master_secret ≡ 32
  pub created_at_is : t.created_at ≡ pos created
  pub created_fits : created / 1_000_000_000 < 2 ^ 63

aead_of : List ℕ → Aead
aead_of key = record { suite = 1; key = key; counter = 0; max_seq = 2 ^ 28 }

secret_bytes_id : (secret : List ℕ) → length secret ≡ 32 → secret_bytes secret ≡ secret
secret_bytes_id secret h = rw (h, take-all 32 secret (omega (arith, h))) (append-nil secret)

parse_ticket_read :
    (s secret rest : List ℕ) (version suite unix : ℕ)
    → length s ≡ 43
    → length secret ≡ 32
    → suite < 2 ^ 16
    → unix < 2 ^ 63
    → At s 0 (version ∷ (put_uint16 suite ++ rest))
    → At s 3 (secret ++ (put_uint64 unix ++ []))
    → parse_ticket s
      ≡ ok (
        record {
          version = version;
          cipher_suite = suite;
          master_secret = secret;
          created_at = pos (unix * 1_000_000_000);
        },
        unix,
      )
unfolding parse_ticket
parse_ticket_read s secret rest version suite unix hl hs hsuite hu front back =
    rw
      (
        hl,
        uint64_read unix (omega arith) (At-move secret 35 (omega arith) back),
        index_read version front,
        uint16_read suite hsuite (At-skip (version ∷ []) front),
        rw hs at (slice_read secret (put_uint64 unix ++ []) back),
      )
      (ground arith)

or_nil : Result (List ℕ) → List ℕ
or_nil panic = []
or_nil (err e) = []
or_nil (ok s) = s

rotate_key_ok :
    (tm : TicketManager) (key : List ℕ)
    → length key ≡ 32
    → rotate_key tm key
      ≡ (record tm { previous_key = some tm.current_key; current_key = key }, ok tt)
unfolding rotate_key
rotate_key_ok tm key h = ground arith

ticket_bytes-length :
    (t : SessionTicket) (created unix : ℕ) → IsTicket t created → length (ticket_bytes t unix) ≡ 43
unfolding ticket_bytes
ticket_bytes-length t created unix v = omega (
  arith,
  ap length (secret_bytes_id t.master_secret v.secret_fits),
  length-append (secret_bytes t.master_secret) (put_uint64 unix),
  v.secret_fits,
)

parse-ticket_bytes :
    (t : SessionTicket) (created : ℕ)
    → IsTicket t created
    → parse_ticket (ticket_bytes t (created / 1_000_000_000))
      ≡ ok (
        record t { created_at = pos (created / 1_000_000_000 * 1_000_000_000) },
        created / 1_000_000_000,
      )
unfolding ticket_bytes
parse-ticket_bytes t created v =
    let unix = created / 1_000_000_000 in
    let secret = secret_bytes t.master_secret in
    let s = ticket_bytes t unix in
    let same : secret ≡ t.master_secret = secret_bytes_id t.master_secret v.secret_fits in
    let size = ticket_bytes-length t created unix v in
    parse_ticket_read s t.master_secret _ t.version t.cipher_suite unix size v.secret_fits
      v.suite_fits v.created_fits (At-start s)
      (record { within = omega (arith, size); stands = rw same })

module _ (p : Primitives) where
  new_aead_ok : (key : List ℕ) → length key ≡ 32 → new_aead p 1 key ≡ ok (aead_of key)
  unfolding new_aead aead_of
  new_aead_ok key h = ground (arith, h)

  module _ (laws : IsLawful p) where
    -- What EncryptTicket gives opens under the manager's key.
    encrypt_opens :
        (tm : TicketManager) (t : SessionTicket) (created : ℕ)
        → IsTicket t created
        → length tm.current_key ≡ 32
        → (c : List ℕ) × (encrypt_ticket p tm t ≡ ok c)
          × (decrypt_with_key p c tm.current_key ≡ ok (ticket_bytes t (created / 1_000_000_000)))
    unfolding encrypt_ticket decrypt_with_key aead_of
    encrypt_opens tm t created v h =
        let (c, sealed, size, opens) =
          open-seal p laws (aead_of tm.current_key) (aead_of tm.current_key)
            (ticket_bytes t (created / 1_000_000_000)) [] refl refl (omega arith) in
        (
          c,
          ground (arith, new_aead_ok tm.current_key h, sealed, v.created_at_is),
          ground (
            arith,
            new_aead_ok tm.current_key h,
            opens,
            ticket_bytes-length t created (created / 1_000_000_000) v,
          ),
        )

  -- What a manager that can open a ticket's bytes says of it at a time.
  unfoldable pub verdict : ℤ → SessionTicket → ℕ → ℕ → Result SessionTicket
  verdict lifetime t created now =
      if is_above (age now (created / 1_000_000_000)) lifetime
      then err expired_ticket
      else if p.fips_mode && not (is_fips_approved t.cipher_suite)
      then err cipher_suite_not_fips_approved
      else ok (record t { created_at = pos (created / 1_000_000_000 * 1_000_000_000) })

  opened_verdict :
      (tm : TicketManager) (t : SessionTicket) (created now : ℕ) (c : List ℕ)
      → IsTicket t created
      → decrypt_with_keys p tm c ≡ ok (ticket_bytes t (created / 1_000_000_000))
      → decrypt_ticket p tm now c ≡ verdict tm.lifetime t created now
  unfolding decrypt_ticket verdict
  opened_verdict tm t created now c v h = rw (h, parse-ticket_bytes t created v) (ground arith)

  first_opens :
      (tm : TicketManager) (c plaintext : List ℕ)
      → decrypt_with_key p c tm.current_key ≡ ok plaintext
      → decrypt_with_keys p tm c ≡ ok plaintext
  unfolding decrypt_with_keys
  first_opens tm c plaintext h = elim (Option-cases tm.previous_key) [
    | inl absent ↦ ground (arith, h, absent)
    | inr (key, has) ↦ ground (arith, h, has)
  ]

  second_opens :
      (tm : TicketManager) (c key : List ℕ) (e : Error)
      → decrypt_with_key p c tm.current_key ≡ err e
      → tm.previous_key ≡ some key
      → decrypt_with_keys p tm c ≡ decrypt_with_key p c key
  unfolding decrypt_with_keys
  second_opens tm c key e h has = ground (arith, h, has)

  both_fail :
      (tm : TicketManager) (now : ℕ) (c : List ℕ) {e : Error}
      → decrypt_with_keys p tm c ≡ err e
      → decrypt_ticket p tm now c ≡ err invalid_ticket
  unfolding decrypt_ticket
  both_fail tm now c h = rw h

  new_aead_fresh :
      (suite : ℕ) (key : List ℕ) (a : Aead)
      → new_aead p suite key ≡ ok a
      → a ≡ record { suite = suite; key = key; counter = 0; max_seq = 2 ^ 28 }
  unfolding new_aead
  new_aead_fresh suite key a h = ground arith

  seal_first :
      (suite : ℕ) (key plaintext aad c : List ℕ)
      → (seal p
          (record { suite = suite; key = key; counter = 0; max_seq = 2 ^ 28 })
          plaintext
          aad).1
        ≡ ok c
      → take 12 c ≡ replicate 12 0
  unfolding seal next_nonce nonce_of or_nil
  seal_first suite key plaintext aad c h = ap (λ r. take 12 (or_nil r)) (sym h)

  module _ (laws : IsLawful p) where
    -- A ticket whose fields fit their types, created after 1970, is always sealed, and the manager that
    -- sealed it, whatever its previous key, opens it: it is refused as expired once it is older than the
    -- lifetime, then for its cipher suite in FIPS mode, and is otherwise given back, its creation time cut
    -- to seconds.
    pub decrypt-encrypt_ticket :
        (tm : TicketManager) (t : SessionTicket) (created now : ℕ)
        → IsTicket t created
        → length tm.current_key ≡ 32
        → (c : List ℕ) × (encrypt_ticket p tm t ≡ ok c)
          × (decrypt_ticket p tm now c ≡ verdict tm.lifetime t created now)
    decrypt-encrypt_ticket tm t created now v h =
        let (c, sealed, opens) = encrypt_opens laws tm t created v h in
        (c, sealed, opened_verdict tm t created now c v (first_opens tm c _ opens))

    -- A sealed ticket is read as before after its key was rotated out once, and is invalid after it was
    -- rotated out twice, where neither of the new keys opens it.
    pub rotate_key-decrypt_ticket :
        (tm : TicketManager) (t : SessionTicket) (created now : ℕ) (next last c : List ℕ)
        (d e : Error)
        → IsTicket t created
        → length tm.current_key ≡ 32
        → length next ≡ 32
        → length last ≡ 32
        → encrypt_ticket p tm t ≡ ok c
        → decrypt_with_key p c next ≡ err d
        → decrypt_with_key p c last ≡ err e
        → (decrypt_ticket p (rotate_key tm next).0 now c ≡ verdict tm.lifetime t created now)
          × (decrypt_ticket p (rotate_key (rotate_key tm next).0 last).0 now c ≡ err invalid_ticket)
    rotate_key-decrypt_ticket tm t created now next last c d e v h hn hl sealed fails fails' =
        let (c', sealed', opens) = encrypt_opens laws tm t created v h in
        let same : c' ≡ c = ground (arith, sealed, sealed') in
        let once : TicketManager = record tm {
          previous_key = some tm.current_key;
          current_key = next;
        } in
        let twice : TicketManager = record once { previous_key = some next; current_key = last } in
        rw (rotate_key_ok tm next hn, rotate_key_ok once last hl)
          (
            opened_verdict once t created now c v (
                second_opens once c tm.current_key d fails refl
                ∙ subst
                    (λ x.
                      decrypt_with_key p x tm.current_key
                      ≡ ok (ticket_bytes t (created / 1_000_000_000)))
                    same opens),
            both_fail twice now c (second_opens twice c next e fails' refl ∙ fails),
          )

  -- Every ticket is sealed under the same nonce, 12 zeros: the cipher is new for each ticket.
  pub encrypt_ticket-nonce :
      (tm : TicketManager) (t : SessionTicket) (c : List ℕ)
      → encrypt_ticket p tm t ≡ ok c
      → take 12 c ≡ replicate 12 0
  unfolding encrypt_ticket
  encrypt_ticket-nonce tm t c h =
      let (unix, eu, rest) = bind_ok (unix_time t.created_at) _ c h in
      let (a, ea, sealed) = bind_ok (new_aead p 1 tm.current_key) _ c rest in
      seal_first 1 tm.current_key (ticket_bytes t unix) [] c (
        subst (λ b. (seal p b (ticket_bytes t unix) []).1 ≡ ok c)
          (new_aead_fresh 1 tm.current_key a ea) sealed)
