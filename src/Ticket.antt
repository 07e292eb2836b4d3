-- ===== src/Ticket.antt =====
-- pkg/tunnel/ticket.go: the session tickets. Times are read in nanoseconds since 1970; keys are lists
-- of bytes, and a manager without a previous key has none.
pub mod Laws
mod Tests
use quantum_go.Base.{
  ℕ, ◌+◌, ◌-◌, ◌*◌, ◌/◌, ◌^◌, Bool, not, ◌&&◌, Option, none, some, List, [], ◌∷◌, ◌++◌, ltb, leb,
  ◌==◌, if◌then◌else◌, length, take, drop, replicate, min,
}
use quantum_go.Base.Ints.{ℤ, pos, negsuc, is_zero, is_above}
use quantum_go.Base.Go.{
  Result, ok, err, panic, ◌>>=◌, ◌>>◌, guard, index, slice, uint16_at, uint64_at, invalid_key_size,
  invalid_message, invalid_ticket, expired_ticket, cipher_suite_not_fips_approved,
}
use quantum_go.Base.Bytes.{put_uint16, put_uint64}
use quantum_go.Crypto.{Primitives}
use quantum_go.Crypto.Aead.{new_aead, seal, open_sealed, is_fips_approved}

-- `SessionTicket`
pub record SessionTicket : Type 0 where
  pub version : ℕ
  pub cipher_suite : ℕ
  pub master_secret : List ℕ
  pub created_at : ℤ

-- `TicketManager`
pub record TicketManager : Type 0 where
  pub current_key : List ℕ
  pub previous_key : Option (List ℕ)
  pub lifetime : ℤ

-- `NewTicketManager`
unfoldable pub new_ticket_manager : List ℕ → ℤ → Result TicketManager
new_ticket_manager key lifetime =
    if not (length key == 32)
    then err invalid_key_size
    else ok (record {
      current_key = key;
      previous_key = none;
      lifetime = if is_zero lifetime then pos 86_400_000_000_000 else lifetime;
    })

-- `RotateKey`
unfoldable pub rotate_key : TicketManager → List ℕ → TicketManager × Result (Unit {0})
rotate_key tm new_key =
    if not (length new_key == 32)
    then (tm, err invalid_key_size)
    else (record tm { previous_key = some tm.current_key; current_key = new_key }, ok tt)

-- `CreatedAt.Unix()`, where it is not negative
abbrev pub unix_time : ℤ → Result ℕ
unix_time (pos n) = ok (n / 1_000_000_000)
unix_time (negsuc n) = err invalid_message

-- `copy` into 32 zeroed bytes
abbrev pub secret_bytes : List ℕ → List ℕ
secret_bytes secret = take 32 secret ++ replicate (32 - length secret) 0

-- The 43 bytes of a ticket.
unfoldable pub ticket_bytes : SessionTicket → ℕ → List ℕ
ticket_bytes t unix =
    (t.version ∷ put_uint16 t.cipher_suite) ++ (secret_bytes t.master_secret ++ put_uint64 unix)

-- `time.Since(time.Unix(unix, 0))`, which stops at the ends of an int64
unfoldable pub age : ℕ → ℕ → ℤ
age now unix =
    let created = unix * 1_000_000_000 in
    if leb created now
    then pos (min (now - created) (2 ^ 63 - 1))
    else negsuc (min (created - now - 1) (2 ^ 63 - 1))

-- What a decrypted ticket says.
unfoldable pub parse_ticket : List ℕ → Result (SessionTicket × ℕ)
parse_ticket plaintext = guard (length plaintext == 43) invalid_ticket >> (do
  unix ← uint64_at plaintext 35
  passed ← guard (ltb unix (2 ^ 63)) invalid_ticket
  version ← index plaintext 0
  suite ← uint16_at plaintext 1
  secret ← slice plaintext 3 35
  ok (
    record {
      version = version;
      cipher_suite = suite;
      master_secret = secret;
      created_at = pos (unix * 1_000_000_000);
    },
    unix,
  ))

-- The first result, or the second where the first is an error.
abbrev pub or_else : Result (List ℕ) → Result (List ℕ) → Result (List ℕ)
or_else panic second = panic
or_else (err e) second = second
or_else (ok x) second = ok x

-- Every failure to decrypt is `ErrInvalidTicket`.
abbrev pub as_invalid : Result (List ℕ) → Result (List ℕ)
as_invalid panic = panic
as_invalid (err e) = err invalid_ticket
as_invalid (ok x) = ok x

module _ (p : Primitives) where
  -- `EncryptTicket`: the cipher is new, and is not kept.
  unfoldable pub encrypt_ticket : TicketManager → SessionTicket → Result (List ℕ)
  encrypt_ticket tm ticket = do
    unix ← unix_time ticket.created_at
    aead ← new_aead p 1 tm.current_key
    let (used, sealed) = seal p aead (ticket_bytes ticket unix) [] in sealed

  -- `decryptWithKey`
  unfoldable pub decrypt_with_key : List ℕ → List ℕ → Result (List ℕ)
  decrypt_with_key sealed key = do aead ← new_aead p 1 key; open_sealed p aead sealed []

  -- The attempts with the current and the previous key.
  unfoldable pub decrypt_with_keys : TicketManager → List ℕ → Result (List ℕ)
  decrypt_with_keys tm sealed =
      let first = decrypt_with_key sealed tm.current_key in
      elim tm.previous_key [ none ↦ first | some key ↦ or_else first (decrypt_with_key sealed key) ]

  -- `DecryptTicket`
  unfoldable pub decrypt_ticket : TicketManager → ℕ → List ℕ → Result SessionTicket
  decrypt_ticket tm now sealed = do
    plaintext ← as_invalid (decrypt_with_keys tm sealed)
    parsed ← parse_ticket plaintext
    fresh ← guard (not (is_above (age now parsed.1) tm.lifetime)) expired_ticket
    approved ←
        guard (not (p.fips_mode && not (is_fips_approved parsed.0.cipher_suite)))
          cipher_suite_not_fips_approved
    ok parsed.0
