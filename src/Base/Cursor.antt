-- ===== src/Base/Cursor.antt =====
-- A reading position in a buffer: what stands there, and what the reads at it give.
use Prim.Native.Nat.{ℕ, ◌+◌, ◌-◌, ◌/◌, ◌%◌, ◌≤◌}
use mathlib.Core.Path.{◌≡◌, refl, sym, ap, ◌∙◌}
use mathlib.Core.List.{List, ◌∷◌, ◌++◌}
use native.Mathlib.Omega.{arith}
use quantum_go.Base.Lists.{
  length, drop, get_or, length-append, length-drop, get_or-drop, drop-append,
}
use quantum_go.Base.Bytes.{IsUint16, IsUint32, IsUint64, put_uint16, put_uint32, put_uint64}
use quantum_go.Base.Go.{ok, index, slice, uint16_at, uint32_at, uint64_at, drop-add, take-append_eq}

-- `rest` is what stands in `s` from `off` on.
pub record At (s : List ℕ) (off : ℕ) (rest : List ℕ) : Type 0 where
  pub within : off ≤ length s
  pub stands : drop off s ≡ rest

module _ {s : List ℕ} {off : ℕ} where
  pub At-length : {rest : List ℕ} → At s off rest → off + length rest ≡ length s
  At-length c = omega (arith, c.within, length-drop off s, ap length c.stands)

  pub At-skip : (xs : List ℕ) {rest : List ℕ} → At s off (xs ++ rest) → At s (off + length xs) rest
  At-skip xs {rest} c = record {
    within = omega (arith, At-length c, length-append xs rest);
    stands = drop-add off (length xs) s ∙ rw c.stands (drop-append xs rest);
  }

  get_or-At : {rest : List ℕ} → At s off rest → (i : ℕ) → get_or s (off + i) 0 ≡ get_or rest i 0
  get_or-At c i = sym (get_or-drop off i s 0) ∙ rw c.stands

  get_or-At_zero : {rest : List ℕ} → At s off rest → get_or s off 0 ≡ get_or rest 0 0
  get_or-At_zero c = same (off + 0) off (omega arith) ∙ get_or-At c 0
    where
      same : (a b : ℕ) → a ≡ b → get_or s b 0 ≡ get_or s a 0
      same a b e = rw e

  pub index_read : (x : ℕ) {rest : List ℕ} → At s off (x ∷ rest) → index s off ≡ ok x
  unfolding index
  index_read x c = ground (arith, At-length c, get_or-At_zero c)

  pub uint16_read :
      (v : ℕ) {rest : List ℕ}
      → IsUint16 v
      → At s off (put_uint16 v ++ rest)
      → uint16_at s off ≡ ok v
  unfolding uint16_at index
  uint16_read v h c = ground (arith, At-length c, get_or-At_zero c, get_or-At c 1)

  pub slice_read :
      (xs rest : List ℕ) → At s off (xs ++ rest) → slice s off (off + length xs) ≡ ok xs
  unfolding slice
  slice_read xs rest c = ground (
    arith,
    At-length c,
    length-append xs rest,
    c.stands,
    take-append_eq (off + length xs - off) xs rest,
  )

module _ {s : List ℕ} {off : ℕ} where
  pub uint32_read :
      (v : ℕ) {rest : List ℕ}
      → IsUint32 v
      → At s off (put_uint32 v ++ rest)
      → uint32_at s off ≡ ok v
  unfolding uint32_at
  uint32_read v {rest} h c =
      rw
        (
          uint16_read (v / 65536 % 65536) (omega arith) c,
          uint16_read (v % 65536) (omega arith) (At-skip (put_uint16 (v / 65536 % 65536)) c),
        )
        (ground arith)

module _ {s : List ℕ} {off : ℕ} where
  pub uint64_read :
      (v : ℕ) {rest : List ℕ}
      → IsUint64 v
      → At s off (put_uint64 v ++ rest)
      → uint64_at s off ≡ ok v
  unfolding uint64_at
  uint64_read v {rest} h c =
      rw
        (
          uint32_read (v / 4294967296 % 4294967296) (omega arith) c,
          uint32_read (v % 4294967296) (omega arith)
              (At-skip (put_uint32 (v / 4294967296 % 4294967296)) c),
        )
        (ground arith)

module _ {s : List ℕ} {off : ℕ} where
  -- Skipping bytes to an offset that is written otherwise.
  pub At-move :
      (xs : List ℕ) {rest : List ℕ} (off' : ℕ)
      → off' ≡ off + length xs
      → At s off (xs ++ rest)
      → At s off' rest
  At-move xs off' e c = rw e (At-skip xs c)

-- The position before the first byte.
pub At-start : (s : List ℕ) → At s 0 s
At-start s = record { within = omega arith; stands = refl }
