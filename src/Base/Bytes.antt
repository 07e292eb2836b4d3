-- ===== src/Base/Bytes.antt =====
-- Big-endian integers of 2, 4 and 8 bytes, as `binary.BigEndian` writes them.
use Prim.Native.Nat.{ℕ, ◌/◌, ◌%◌, ◌^◌, ◌<◌}
use mathlib.Core.List.{List, [], ◌∷◌, ◌++◌}

abbrev pub IsByte : ℕ → Type 0
IsByte b = b < 256

abbrev pub IsUint16 : ℕ → Type 0
IsUint16 n = n < 2 ^ 16

abbrev pub IsUint32 : ℕ → Type 0
IsUint32 n = n < 2 ^ 32

abbrev pub IsUint64 : ℕ → Type 0
IsUint64 n = n < 2 ^ 64

-- `PutUint16`, `PutUint32`, `PutUint64`
abbrev pub put_uint16 : ℕ → List ℕ
put_uint16 n = (n / 256 % 256) ∷ (n % 256) ∷ []

abbrev pub put_uint32 : ℕ → List ℕ
put_uint32 n = put_uint16 (n / 65536 % 65536) ++ put_uint16 (n % 65536)

abbrev pub put_uint64 : ℕ → List ℕ
put_uint64 n = put_uint32 (n / 4294967296 % 4294967296) ++ put_uint32 (n % 4294967296)
