-- ===== src/Cookie/Laws.antt =====
-- Which cookies an endpoint accepts.
use quantum_go.Base.{
  ℕ, ◌-◌, ◌%◌, ◌^◌, ◌≤◌, ◌<◌, ◌≡◌, refl, true, List, [], ◌∷◌, leb, ==_refl, length, take-all, arith,
}
use quantum_go.Base.Go.{ok, index, uint16_at, uint32_at, uint64_at}
use quantum_go.Base.Bytes.{put_uint64}
use quantum_go.Handshake.Machine.{bytes_equal}
use quantum_go.Cookie.{issue, verify}

pub bytes_equal_refl : (xs : List ℕ) → bytes_equal xs xs ≡ true
bytes_equal_refl [] = refl
bytes_equal_refl (x ∷ xs) = rw (==_refl x) (bytes_equal_refl xs)

stamp_read : (now : ℕ) → now < 2 ^ 64 → uint64_at (put_uint64 (now % 2 ^ 64)) 0 ≡ ok now
unfolding uint64_at uint32_at uint16_at index
stamp_read now h = ground arith

module _ (mac : List ℕ → List ℕ → List ℕ) where
  -- A cookie is accepted from the address that it was issued to for exactly 10 seconds: with a MAC of
  -- 32 bytes, an issue time that fits an int64, and a clock that does not run backwards.
  pub verify-issue :
      (issued now : ℕ) (addr : List ℕ)
      → ((a stamp : List ℕ) → length (mac a stamp) ≡ 32)
      → issued < 2 ^ 63
      → issued ≤ now
      → verify mac now addr (issue mac issued addr) ≡ ok (leb (now - issued) 10_000_000_000)
  unfolding verify issue
  verify-issue issued now addr size h le =
      rw
        (
          take-all 32 (mac addr (put_uint64 (issued % 2 ^ 64)))
              (omega (arith, size addr (put_uint64 (issued % 2 ^ 64)))),
          size addr (put_uint64 (issued % 2 ^ 64)),
          bytes_equal_refl (mac addr (put_uint64 (issued % 2 ^ 64))),
          stamp_read issued (omega arith),
        )
        (ground arith)
