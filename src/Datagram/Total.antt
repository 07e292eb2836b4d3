-- ===== src/Datagram/Total.antt =====
-- The parsers on any input: they never panic, and what they accept is well formed.
use quantum_go.Base.{
  ℕ, ◌+◌, ◌≤◌, ◌<◌, ◌≡◌, false, List, [], ltb, ◌==◌, if◌then◌else◌, length, arith, Bool-cases, inl,
  inr, ◌⊎◌,
}
use quantum_go.Base.Go.{
  Result, Error, ok, err, panic, invalid_message, slice, index_within, uint16_within, uint32_within,
  uint64_within, slice_within,
}
use quantum_go.Datagram.{
  Header, HandshakeHeader, frame_handshake, parse_header, parse_header_body, parse_fragment,
  parse_handshake, parse_retry,
}

-- Too short a datagram is an invalid message; any other has a header.
pub parse_header_cases :
    (bytes : List ℕ)
    → ((length bytes < 14) × (parse_header bytes ≡ err invalid_message))
      ⊎ ((h : Header) × (14 ≤ length bytes) × (parse_header bytes ≡ ok h))
unfolding parse_header
parse_header_cases bytes = elim (Bool-cases (ltb (length bytes) 14)) [
  | inl short ↦ inl (ground arith, rw short)
  | inr long ↦
      let enough : 14 ≤ length bytes = ground arith in
      let (t, et) = index_within bytes 0 (omega arith) in
      let (e, ee) = index_within bytes 1 (omega arith) in
      let (r, er) = uint32_within bytes 2 (omega arith) in
      let (s, es) = uint64_within bytes 6 (omega arith) in
      inr (
        record { frame_type = t; epoch = e; recv_index = r; seq = s },
        enough,
        rw (long, et, ee, er, es),
      )
]

-- What `ParseDatagramHandshake` may return on these bytes: an error, or a HANDSHAKE header with
-- its fragment, the lengths of which agree with each other and with the datagram.
abbrev pub IsParsed : ℕ → Result (HandshakeHeader × List ℕ) → Type 0
IsParsed size (ok (h, fragment)) =
    (h.base.frame_type ≡ frame_handshake)
    × (length fragment ≡ h.frag_length)
    × (h.frag_offset + h.frag_length ≤ h.total_length)
    × (26 + length h.cookie + length fragment ≤ size)
IsParsed size (err e) = Unit
IsParsed size panic = ⊥

parse_fragment-IsParsed :
    (h : HandshakeHeader) (rest : List ℕ) (size : ℕ)
    → h.base.frame_type ≡ frame_handshake
    → 26 + length h.cookie + length rest ≤ size
    → IsParsed size (parse_fragment h rest)
unfolding parse_fragment
parse_fragment-IsParsed h rest size typed fits =
    elim (Bool-cases (ltb (length rest) h.frag_length)) [
      | inl short ↦ rw short tt
      | inr long ↦
          let (f, ef, lf) = slice_within rest 0 h.frag_length (omega arith) (ground arith) in
          rw (long, ef)
            (elim (Bool-cases (ltb h.total_length (h.frag_offset + h.frag_length))) [
              | inl beyond ↦ rw beyond tt
              | inr within ↦ rw within (typed, omega arith, ground arith, ground arith)
            ])
    ]

cookie_within :
    (bytes : List ℕ) (n : ℕ)
    → 26 + n ≤ length bytes
    → (c : List ℕ) × ((if ltb 0 n then slice bytes 26 (26 + n) else ok []) ≡ ok c) × (length c ≡ n)
cookie_within bytes n h = elim (Bool-cases (ltb 0 n)) [
  | inl some_bytes ↦
      let (c, ec, lc) = slice_within bytes 26 (26 + n) (omega arith) h in
      (c, rw some_bytes ec, omega arith)
  | inr no_bytes ↦ ([], rw no_bytes, ground arith)
]

-- On any bytes, `ParseDatagramHandshake` does not panic, and what it accepts is a HANDSHAKE frame whose
-- lengths agree with each other and with the datagram.
pub parse_handshake-IsParsed : (bytes : List ℕ) → IsParsed (length bytes) (parse_handshake bytes)
unfolding parse_handshake
parse_handshake-IsParsed bytes = elim (parse_header_cases bytes) [
  | inl (short, e) ↦ rw e tt
  | inr (base, enough, e) ↦ rw e (elim (Bool-cases (base.frame_type == 1)) [
    | inr other ↦ rw other tt
    | inl typed ↦ rw typed (elim (Bool-cases (ltb (length bytes) 26)) [
      | inl short ↦ rw short tt
      | inr long ↦
          let size : 26 ≤ length bytes = ground arith in
          let (sender, e1) = uint32_within bytes 14 (omega arith) in
          let (msg, e2) = index_within bytes 18 (omega arith) in
          let (off, e3) = uint16_within bytes 19 (omega arith) in
          let (len, e4) = uint16_within bytes 21 (omega arith) in
          let (total, e5) = uint16_within bytes 23 (omega arith) in
          let (n, e6) = index_within bytes 25 (omega arith) in
          rw (long, e1, e2, e3, e4, e5, e6)
            (elim (Bool-cases (ltb (length bytes) (26 + n))) [
              | inl cut ↦ rw cut tt
              | inr whole ↦
                  let (c, e7, l7) = cookie_within bytes n (ground arith) in
                  let (rest, e8, l8) =
                    slice_within bytes (26 + n) (length bytes) (ground arith) (omega arith) in
                  rw (whole, e7, e8)
                    (parse_fragment-IsParsed _ rest (length bytes) (ground arith)
                      (omega (arith, cut_le n whole)))
            ])
    ])
  ])
]
  where
    cut_le : (n : ℕ) → ltb (length bytes) (26 + n) ≡ false → 26 + n ≤ length bytes
    cut_le n h = ground arith

-- `ParseDatagramRetry` never panics: it returns an error, or a cookie that is all of the datagram but
-- its 14-byte header.
pub parse_retry_cases :
    (bytes : List ℕ)
    → ((e : Error) × (parse_retry bytes ≡ err e))
      ⊎ ((recv_index : ℕ) × (cookie : List ℕ) × (parse_retry bytes ≡ ok (recv_index, cookie))
          × (14 + length cookie ≡ length bytes))
unfolding parse_retry parse_header_body
parse_retry_cases bytes = elim (parse_header_cases bytes) [
  | inl (short, e) ↦ inl (invalid_message, rw e)
  | inr (h, enough, e) ↦
      let (body, eb, lb) = slice_within bytes 14 (length bytes) enough (omega arith) in
      elim (Bool-cases (h.frame_type == 4)) [
        | inl typed ↦ inr (h.recv_index, body, rw (e, eb, typed), omega arith)
        | inr other ↦ inl (invalid_message, rw (e, eb, other))
      ]
]
