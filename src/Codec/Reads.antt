-- ===== src/Codec/Reads.antt =====
-- Each field is read back at the position where it was written.
use quantum_go.Base.{
  ℕ, ◌+◌, ◌*◌, ◌%◌, ◌^◌, ◌≤◌, ◌<◌, ◌≡◌, refl, List, [], ◌∷◌, ◌++◌, length, All, arith, le→ltb,
}
use quantum_go.Base.Go.{ok}
use quantum_go.Base.Bytes.{IsUint16, put_uint16}
use quantum_go.Base.Cursor.{At, At-move, index_read, uint16_read, slice_read}
use quantum_go.Codec.Fields.{
  put_uint16s, uint16s_at, put_len_prefixed, read_len_prefixed, put_optional, read_optional,
  put_identity, read_label, read_identity, put_session_id, read_session_id,
}

pub length-put_uint16s : (ns : List ℕ) → length (put_uint16s ns) ≡ 2 * length ns
length-put_uint16s [] = omega arith
length-put_uint16s (n ∷ ns) = omega (arith, length-put_uint16s ns)

module _ {s : List ℕ} where
  pub uint16s_read :
      (ns rest : List ℕ) (off : ℕ)
      → All IsUint16 ns
      → At s off (put_uint16s ns ++ rest)
      → uint16s_at s off (length ns) ≡ ok ns
  unfolding uint16s_at
  uint16s_read [] rest off h c = refl
  uint16s_read (n ∷ ns) rest off (h, hs) c = rw (
    uint16_read n h c,
    uint16s_read ns rest (off + 2) hs (At-move (put_uint16 n) (off + 2) refl c),
  )

  pub len_prefixed_read :
      (xs rest : List ℕ) (off payload_end : ℕ)
      → length xs < 2 ^ 16
      → At s off (put_len_prefixed xs ++ rest)
      → off + 2 + length xs ≤ payload_end
      → read_len_prefixed s off payload_end ≡ ok (xs, off + 2 + length xs)
  unfolding read_len_prefixed
  len_prefixed_read xs rest off payload_end h c fits = rw (
    le→ltb payload_end (off + 2) (omega arith),
    uint16_read (length xs) h c,
    le→ltb payload_end (off + 2 + length xs) fits,
    slice_read xs rest (At-move (put_uint16 (length xs)) (off + 2) refl c),
  )

  pub session_id_read :
      (xs rest : List ℕ) (off : ℕ)
      → length xs ≤ 255
      → At s off (put_session_id xs ++ rest)
      → read_session_id s off ≡ ok (xs, off + 1 + length xs)
  unfolding read_session_id
  session_id_read [] rest off h c = rw (index_read 0 c) (ground arith)
  session_id_read (x ∷ xs) rest off h c =
      rw
        (
          index_read (length (x ∷ xs) % 256) c,
          small,
          slice_read (x ∷ xs) rest (At-move (length (x ∷ xs) % 256 ∷ []) (off + 1) refl c),
        )
        (ground arith)
    where
      small : length (x ∷ xs) % 256 ≡ length (x ∷ xs)
      small = omega arith

module _ {s : List ℕ} where
  pub optional_read :
      (xs rest : List ℕ) (off payload_end : ℕ)
      → length xs < 2 ^ 16
      → At s off (put_optional xs ++ rest)
      → off + length (put_optional xs) ≤ payload_end
      → read_optional s off payload_end ≡ ok (xs, off + length (put_optional xs))
  unfolding read_optional
  optional_read [] rest off payload_end h c fits = rw (index_read 0 c) (ground arith)
  optional_read (x ∷ xs) rest off payload_end h c fits =
      rw
        (
          index_read 1 c,
          len_prefixed_read (x ∷ xs) rest (off + 1) payload_end h
              (At-move (1 ∷ []) (off + 1) refl c) (omega arith),
        )
        (ground arith)

  pub identity_read :
      (xs rest : List ℕ) (off payload_end : ℕ)
      → length xs ≤ 255
      → At s off (put_identity xs ++ rest)
      → off + length (put_identity xs) ≤ payload_end
      → read_identity s off payload_end ≡ ok xs
  unfolding read_identity read_label
  identity_read [] rest off payload_end h c fits = rw (index_read 0 c) (ground arith)
  identity_read (x ∷ xs) rest off payload_end h c fits =
      rw
        (
          index_read 1 c,
          index_read (length (x ∷ xs) % 256) (At-move (1 ∷ []) (off + 1) refl c),
          small,
          slice_read (x ∷ xs) rest
              (At-move (1 ∷ (length (x ∷ xs) % 256) ∷ []) (off + 1 + 1) (omega arith) c),
        )
        (ground arith)
    where
      small : length (x ∷ xs) % 256 ≡ length (x ∷ xs)
      small = omega arith
