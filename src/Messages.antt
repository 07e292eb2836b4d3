-- ===== src/Messages.antt =====
-- pkg/protocol/messages.go and version.go: the handshake messages and their validation, with the
-- cipher suites of internal/constants. Byte strings and identifiers are lists of numbers.
use quantum_go.Base.{
  ℕ, Bool, true, not, ◌&&◌, ◌||◌, List, [], ◌∷◌, ltb, ◌==◌, if◌then◌else◌, length, get_or,
}
use quantum_go.Base.Go.{
  Result, ◌>>◌, guard, invalid_message, unsupported_version, unsupported_cipher_suite,
  invalid_public_key, invalid_ciphertext,
}

-- `Version`
pub record Version : Type 0 where
  pub major : ℕ
  pub minor : ℕ

-- `Current`
abbrev pub current : Version
current = record { major = 6; minor = 0 }

-- `IsCompatible`
abbrev pub is_compatible : Version → Version → Bool
is_compatible v other = v.major == other.major

-- `Bytes` and `ParseVersion`
abbrev pub version_bytes : Version → List ℕ
version_bytes v = v.major ∷ v.minor ∷ []

abbrev pub parse_version : List ℕ → Version
parse_version bytes =
    if ltb (length bytes) 2
    then record { major = 0; minor = 0 }
    else record { major = get_or bytes 0 0; minor = get_or bytes 1 0 }

-- `MessageType`
abbrev pub type_client_hello : ℕ
type_client_hello = 0x01

abbrev pub type_server_hello : ℕ
type_server_hello = 0x02

abbrev pub type_client_finished : ℕ
type_client_finished = 0x03

abbrev pub type_server_finished : ℕ
type_server_finished = 0x04

abbrev pub type_hello_retry_request : ℕ
type_hello_retry_request = 0x05

abbrev pub type_data : ℕ
type_data = 0x10

abbrev pub type_rekey : ℕ
type_rekey = 0x11

abbrev pub type_alert : ℕ
type_alert = 0xF0

-- `CipherSuite.IsSupported`: AES-256-GCM and ChaCha20-Poly1305
abbrev pub is_supported : ℕ → Bool
is_supported cs = cs == 0x0001 || cs == 0x0002

-- `ClientHello`
pub record ClientHello : Type 0 where
  pub version : Version
  pub random : List ℕ
  pub session_id : List ℕ
  pub kem_suite : ℕ
  pub kem_suites : List ℕ
  pub chkem_public_key : List ℕ
  pub cipher_suites : List ℕ
  pub chkem_static_ciphertext : List ℕ
  pub psk_identity : List ℕ

-- `ServerHello`
pub record ServerHello : Type 0 where
  pub version : Version
  pub random : List ℕ
  pub session_id : List ℕ
  pub kem_suite : ℕ
  pub chkem_ciphertext : List ℕ
  pub cipher_suite : ℕ

-- `HelloRetryRequest`
pub record HelloRetryRequest : Type 0 where
  pub version : Version
  pub kem_suite : ℕ

abbrev pub max_session_id_len : ℕ
max_session_id_len = 255

-- `constants.MaxPSKIdentitySize`
abbrev pub max_psk_identity_size : ℕ
max_psk_identity_size = 255

-- `HeaderSize`
abbrev pub header_size : ℕ
header_size = 5

-- The loop over the offered cipher suites.
abbrev pub all_supported : List ℕ → Bool
all_supported [] = true
all_supported (cs ∷ suites) = is_supported cs && all_supported suites

-- `ClientHello.Validate`
unfoldable pub validate_client_hello : ClientHello → Result (Unit {0})
validate_client_hello m = do
  guard (is_compatible m.version current) unsupported_version
  guard (length m.random == 32) invalid_message
  guard (not (length m.chkem_public_key == 0)) invalid_public_key
  guard (not (ltb max_session_id_len (length m.session_id))) invalid_message
  guard (not (length m.cipher_suites == 0)) invalid_message
  guard (all_supported m.cipher_suites) unsupported_cipher_suite
  guard (not (ltb max_psk_identity_size (length m.psk_identity))) invalid_message

-- `ServerHello.Validate`
unfoldable pub validate_server_hello : ServerHello → Result (Unit {0})
validate_server_hello m = do
  guard (is_compatible m.version current) unsupported_version
  guard (length m.random == 32) invalid_message
  guard (not (ltb max_session_id_len (length m.session_id))) invalid_message
  guard (not (length m.chkem_ciphertext == 0)) invalid_ciphertext
  guard (is_supported m.cipher_suite) unsupported_cipher_suite
