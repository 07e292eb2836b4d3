-- ===== src/Codec/Records/Framing.antt =====
-- `ReadMessage` on a stream: it takes exactly one message off, and bounds what it allocates.
use quantum_go.Base.{
  ℕ, ◌+◌, ◌≤◌, ◌<◌, ◌≡◌, refl, false, List, [], ◌∷◌, ◌++◌, ltb, ◌==◌, if◌then◌else◌, length, take,
  drop, get_or, arith, append_assoc, length-append, length-take, append-nil, ◌∙◌, zero, suc,
  take-append-drop, le→ltb, inl, inr, Bool-cases, ◌⊎◌,
}
use quantum_go.Base.Go.{
  Result, Error, eof, unexpected_eof, ok, err, panic, ◌>>=◌, index, uint16_at, uint32_at,
  uint32_within, take-append_eq, drop-append_eq,
}
use quantum_go.Base.Bytes.{put_uint32}
use quantum_go.Base.Cursor.{uint32_read}
use quantum_go.Codec.Records.{read_full, read_message}

-- A message as the encoders write it: type, length of the payload, payload.
abbrev pub frame : ℕ → List ℕ → List ℕ
frame t payload = t ∷ (put_uint32 (length payload) ++ payload)

read_full-append :
    (n : ℕ) (xs rest : List ℕ) → length xs ≡ n → read_full n (xs ++ rest) ≡ ok (xs, rest)
read_full-append n xs rest h = rw (
  le→ltb (length (xs ++ rest)) n (omega (arith, length-append xs rest)),
  take-append_eq n xs rest (omega arith),
  drop-append_eq n xs rest (omega arith),
)

payload_read :
    (payload rest : List ℕ)
    → (if ltb 0 (length payload)
        then read_full (length payload) (payload ++ rest)
        else ok ([], payload ++ rest))
      ≡ ok (payload, rest)
payload_read [] rest = ground arith
payload_read (x ∷ payload) rest =
    rw (read_full-append (length (x ∷ payload)) (x ∷ payload) rest refl) (ground arith)

-- On a stream that starts with a message of at most `MaxMessageSize` payload bytes, `ReadMessage`
-- returns that message and leaves the rest of the stream.
pub read_message-frame :
    (t : ℕ) (payload rest : List ℕ)
    → length payload ≤ 65536
    → read_message (frame t payload ++ rest) ≡ ok (frame t payload, rest)
unfolding read_message
read_message-frame t payload rest h = rw (
  read_full-append 5 (t ∷ put_uint32 (length payload)) (payload ++ rest) refl,
  uint32_read {s = t ∷ put_uint32 (length payload)} {off = 1} (length payload) {rest = []}
      (omega arith) (record { within = omega arith; stands = refl }),
  le→ltb 65536 (length payload) h,
  payload_read payload rest,
)

-- What `ReadMessage` may return on this stream: an error, or a message of at most 5 + 65536 bytes,
-- as long as its header declares, and the rest of the stream behind it.
abbrev pub IsRead : List ℕ → Result (List ℕ × List ℕ) → Type 0
IsRead stream (ok (message, rest)) =
    (message ++ rest ≡ stream)
    × (length message ≤ 65541)
    × ((n : ℕ) × (uint32_at message 1 ≡ ok n) × (length message ≡ 5 + n))
IsRead stream (err e) = Unit
IsRead stream panic = ⊥

read_full_cases :
    (n : ℕ) (stream : List ℕ)
    → ((e : Error) × (read_full n stream ≡ err e))
      ⊎ ((xs : List ℕ) × (rest : List ℕ) × (read_full n stream ≡ ok (xs, rest))
          × (xs ++ rest ≡ stream)
          × (length xs ≡ n))
read_full_cases n stream = elim (Bool-cases (ltb (length stream) n)) [
  | inr enough ↦ inr (
    take n stream,
    drop n stream,
    rw enough,
    take-append-drop n stream,
    omega (arith, length-take n stream, enough_left enough),
  )
  | inl short ↦ elim (Bool-cases (length stream == 0)) [
    | inl none_left ↦ inl (eof, rw (short, none_left))
    | inr some_left ↦ inl (unexpected_eof, rw (short, some_left))
  ]
]
  where
    enough_left : ltb (length stream) n ≡ false → n ≤ length stream
    enough_left h = ground arith

get_or-append : (xs rest : List ℕ) (i : ℕ) → i < length xs → get_or (xs ++ rest) i 0 ≡ get_or xs i 0
get_or-append [] rest i h = absurd (omega arith)
get_or-append (x ∷ xs) rest zero h = refl
get_or-append (x ∷ xs) rest (suc i) h = get_or-append xs rest i (omega arith)

index_front :
    (front rest : List ℕ) (i : ℕ) → i < length front → index (front ++ rest) i ≡ index front i
unfolding index
index_front front rest i h = ground (arith, length-append front rest, get_or-append front rest i)

length_field_front :
    (front rest : List ℕ) (n : ℕ)
    → length front ≡ 5
    → uint32_at front 1 ≡ ok n
    → uint32_at (front ++ rest) 1 ≡ ok n
unfolding uint32_at uint16_at
length_field_front front rest n h e =
    rw
      (
        index_front front rest 1 (omega arith),
        index_front front rest 2 (omega arith),
        index_front front rest 3 (omega arith),
        index_front front rest 4 (omega arith),
      )
      e

-- The second half of `ReadMessage`.
payload_IsRead :
    {stream : List ℕ} (header rest : List ℕ) (n : ℕ)
    → header ++ rest ≡ stream
    → length header ≡ 5
    → uint32_at header 1 ≡ ok n
    → n ≤ 65536
    → IsRead stream (do
      (payload, rest') ← if ltb 0 n then read_full n rest else ok ([], rest)
      ok (header ++ payload, rest'))
payload_IsRead header rest n splits size e small = elim (Bool-cases (ltb 0 n)) [
  | inr no_payload ↦ rw no_payload (
    rw (append-nil header) splits,
    omega (arith, length-append header []),
    (n, length_field_front header [] n size e, ground (arith, length-append header [])),
  )
  | inl some_payload ↦ rw some_payload (elim (read_full_cases n rest) [
    | inl (x, h) ↦ rw h tt
    | inr (payload, rest', h, rejoins, payload_size) ↦ rw h (
      append_assoc header payload rest' ∙ (rw rejoins splits),
      omega (arith, length-append header payload),
      (n, length_field_front header payload n size e, omega (arith, length-append header payload)),
    )
  ])
]

-- `ReadMessage` never panics. What it returns splits the stream at the end of the message that the
-- header declares, and the message has at most 5 + 65536 bytes.
pub read_message-IsRead : (stream : List ℕ) → IsRead stream (read_message stream)
unfolding read_message
read_message-IsRead stream = elim (read_full_cases 5 stream) [
  | inl (e, h) ↦ rw h tt
  | inr (header, rest, h, splits, size) ↦
      let (n, en) = uint32_within header 1 (omega arith) in
      rw (h, en)
        (elim (Bool-cases (ltb 65536 n)) [
          | inl large ↦ rw large tt
          | inr small ↦ rw small (payload_IsRead header rest n splits size en (ground arith))
        ])
]
