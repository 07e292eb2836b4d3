-- ===== src/Base/Go.antt =====
-- Go's error returns and run-time panics as one result type, with the slice operations that can
-- panic. A slice is the list of its elements; its capacity is its length, as for the slices that
-- `make([]byte, n)` gives.
use Prim.Native.Nat.{ℕ, zero, suc, ◌+◌, ◌-◌, ◌*◌, ◌≤◌, ◌<◌}
use mathlib.Core.Path.{◌≡◌, refl}
use mathlib.Core.Bool.{Bool, true, false, ◌&&◌}
use mathlib.Core.List.{List, [], ◌∷◌, ◌++◌}
use native.Mathlib.Omega.{arith}
use native.Mathlib.Nat.{zero-add, suc-add}
use quantum_go.Base.Tests.{ltb, leb, if◌then◌else◌}
use quantum_go.Base.Lists.{
  length, take, drop, get_or, length-append, length-take, length-drop, take-append, drop-append,
  take-all,
}

-- The sentinel errors of internal/errors that the modelled code returns, and the errors that the
-- tunnel package declares for itself. `crypto_error` is the wrapper `NewCryptoError`, without the
-- name of the operation.
pub data Error : Type 0 where
  invalid_message message_too_large unsupported_version unsupported_cipher_suite : Error
  invalid_public_key invalid_ciphertext invalid_key_size invalid_state : Error
  authentication_failed replay_detected nonce_exhausted rekey_in_progress tunnel_closed : Error
  reassembler_full eof unexpected_eof : Error
  invalid_nonce ciphertext_too_short cipher_suite_not_fips_approved decryption_failed : Error
  invalid_ticket expired_ticket pool_closed pool_timeout dial_failed context_done : Error
  invalid_private_key bad_point bad_encoding : Error
  crypto_error : Error → Error

pub data Result {ℓ} (X : Type ℓ) : Type ℓ where
  panic : Result X
  err : Error → Result X
  ok : X → Result X

infixl 5 ◌>>=◌ ◌>>◌
abbrev pub ◌>>=◌ {ℓ κ} : {X : Type ℓ} {Y : Type κ} → Result X → (X → Result Y) → Result Y
panic >>= next = panic
err e >>= next = err e
ok x >>= next = next x

abbrev pub ◌>>◌ {ℓ} : {Y : Type ℓ} → Result (Unit {0}) → Result Y → Result Y
first >> next = first >>= λ done. next

-- `if !passed { return e }`
abbrev pub guard : (passed : Bool) (e : Error) → Result (Unit {0})
guard false e = err e
guard true e = ok tt

-- A method that computes something that may fail, and then acts on its state. Where the computation
-- fails, the state stays as it is.
abbrev pub commit {ℓ κ μ} :
    {S : Type ℓ} {X : Type κ} {Y : Type μ} → S → Result X → (X → S × Result Y) → S × Result Y
commit s panic next = (s, panic)
commit s (err e) next = (s, err e)
commit s (ok x) next = next x

-- A method that calls another method of its receiver, and goes on where that succeeds.
abbrev pub follow {ℓ κ μ} :
    {S : Type ℓ} {X : Type κ} {Y : Type μ} → S × Result X → (S → X → S × Result Y) → S × Result Y
follow (s, panic) next = (s, panic)
follow (s, err e) next = (s, err e)
follow (s, ok x) next = next s x

-- `s[i]`
unfoldable pub index : List ℕ → ℕ → Result ℕ
index s i = if ltb i (length s) then ok (get_or s i 0) else panic

-- `s[lo:hi]`
unfoldable pub slice : List ℕ → ℕ → ℕ → Result (List ℕ)
slice s lo hi = if leb lo hi && leb hi (length s) then ok (take (hi - lo) (drop lo s)) else panic

-- `binary.BigEndian.Uint16(s[off:])`, and its wider kin
unfoldable pub uint16_at : List ℕ → ℕ → Result ℕ
uint16_at s off = do a ← index s off; b ← index s (off + 1); ok (a * 256 + b)

unfoldable pub uint32_at : List ℕ → ℕ → Result ℕ
uint32_at s off = do a ← uint16_at s off; b ← uint16_at s (off + 2); ok (a * 65536 + b)

unfoldable pub uint64_at : List ℕ → ℕ → Result ℕ
uint64_at s off = do a ← uint32_at s off; b ← uint32_at s (off + 4); ok (a * 4294967296 + b)

-- What holds of the state before a computation and after the action holds after both.
pub commit_keeps {ℓ κ μ ν} :
    {S : Type ℓ} {X : Type κ} {Y : Type μ} (Q : S → Type ν) (s : S) (r : Result X)
    (next : X → S × Result Y)
    → Q s
    → ((x : X) → Q ((next x).0))
    → Q ((commit s r next).0)
commit_keeps Q s panic next q h = q
commit_keeps Q s (err e) next q h = q
commit_keeps Q s (ok x) next q h = h x

pub follow_keeps {ℓ κ μ ν} :
    {S : Type ℓ} {X : Type κ} {Y : Type μ} (Q : S → Type ν) (r : S × Result X)
    (next : S → X → S × Result Y)
    → Q (r.0)
    → ((s : S) (x : X) → Q s → Q ((next s x).0))
    → Q ((follow r next).0)
follow_keeps Q (s, panic) next q h = q
follow_keeps Q (s, err e) next q h = q
follow_keeps Q (s, ok x) next q h = h s x q

-- A chain that succeeds has links that succeed.
pub bind_ok {ℓ κ} :
    {X : Type ℓ} {Y : Type κ} (first : Result X) (next : X → Result Y) (y : Y)
    → (first >>= next) ≡ ok y
    → (x : X) × (first ≡ ok x) × (next x ≡ ok y)
bind_ok panic next y h = absurd (ground arith)
bind_ok (err e) next y h = absurd (ground arith)
bind_ok (ok x) next y h = (x, refl, h)

pub drop-add {ℓ} : {A : Type ℓ} (n m : ℕ) (xs : List A) → drop (n + m) xs ≡ drop m (drop n xs)
drop-add zero m xs = rw zero-add
drop-add (suc n) zero [] = rw suc-add
drop-add (suc n) (suc m) [] = rw suc-add
drop-add (suc n) m (x ∷ xs) = rw suc-add (drop-add n m xs)

module _ {ℓ} {A : Type ℓ} where
  pub take-append_eq : (n : ℕ) (xs ys : List A) → n ≡ length xs → take n (xs ++ ys) ≡ xs
  take-append_eq n xs ys h = rw h (take-append xs ys)

  pub drop-append_eq : (n : ℕ) (xs ys : List A) → n ≡ length xs → drop n (xs ++ ys) ≡ ys
  drop-append_eq n xs ys h = rw h (drop-append xs ys)

-- The middle of a buffer.
pub slice-middle :
    (front mid rest : List ℕ) (lo hi : ℕ)
    → lo ≡ length front
    → hi ≡ length front + length mid
    → slice (front ++ (mid ++ rest)) lo hi ≡ ok mid
unfolding slice
slice-middle front mid rest lo hi hlo hhi = ground (
  arith,
  length-append front (mid ++ rest),
  length-append mid rest,
  drop-append_eq lo front (mid ++ rest) hlo,
  take-append_eq (hi - lo) mid rest (omega arith),
)

-- The end of a buffer.
pub slice_end :
    (front rest : List ℕ) (lo hi : ℕ)
    → lo ≡ length front
    → hi ≡ length (front ++ rest)
    → slice (front ++ rest) lo hi ≡ ok rest
unfolding slice
slice_end front rest lo hi hlo hhi =
    ground
      (arith, length-append front rest, drop-append_eq lo front rest hlo, take-all (hi - lo) rest)

-- A slice within bounds never panics, and has the length that its bounds say.
pub slice_within :
    (s : List ℕ) (lo hi : ℕ)
    → lo ≤ hi
    → hi ≤ length s
    → (part : List ℕ) × (slice s lo hi ≡ ok part) × (length part ≡ hi - lo)
unfolding slice
slice_within s lo hi h k = (
  take (hi - lo) (drop lo s),
  ground arith,
  omega (arith, length-take (hi - lo) (drop lo s), length-drop lo s),
)

-- Reads within bounds do not panic.
pub index_within : (s : List ℕ) (i : ℕ) → i < length s → (b : ℕ) × (index s i ≡ ok b)
unfolding index
index_within s i h = (get_or s i 0, ground arith)

pub uint16_within : (s : List ℕ) (off : ℕ) → off + 1 < length s → (n : ℕ) × (uint16_at s off ≡ ok n)
unfolding uint16_at index
uint16_within s off h = (get_or s off 0 * 256 + get_or s (off + 1) 0, ground arith)

pub uint32_within : (s : List ℕ) (off : ℕ) → off + 3 < length s → (n : ℕ) × (uint32_at s off ≡ ok n)
unfolding uint32_at
uint32_within s off h =
    let (a, ea) = uint16_within s off (omega arith) in
    let (b, eb) = uint16_within s (off + 2) (omega arith) in (a * 65536 + b, ground (arith, ea, eb))

pub uint64_within : (s : List ℕ) (off : ℕ) → off + 7 < length s → (n : ℕ) × (uint64_at s off ≡ ok n)
unfolding uint64_at
uint64_within s off h =
    let (a, ea) = uint32_within s off (omega arith) in
    let (b, eb) = uint32_within s (off + 4) (omega arith) in
    (a * 4294967296 + b, ground (arith, ea, eb))
