-- ===== src/Fragment/Split.antt =====
-- The frames of a message tile it: each fits the MTU and is parsed back to the next part of the
-- message.
use quantum_go.Base.{
  ℕ, zero, suc, ◌+◌, ◌-◌, ◌%◌, ◌^◌, ◌≤◌, ◌<◌, ◌≡◌, refl, sym, ap, ◌∙◌, Bool, true, false, ◌&&◌,
  ◌||◌, List, [], ◌∷◌, ◌++◌, ltb, ◌==◌, if◌then◌else◌, length, replicate, arith, length-append,
  length-replicate, append-nil, lt→ltb, le→ltb, Bool-cases, inl, inr, subst,
}
use quantum_go.Base.Go.{Result, ok, err, panic, slice, slice_within}
use quantum_go.Datagram.{
  HandshakeHeader, IsHandshakeHeader, frame_handshake, encode_header, encode_extension,
  encode_handshake, parse_handshake,
}
use quantum_go.Datagram.RoundTrip.{parse_handshake-encode_handshake}
use quantum_go.Fragment.{
  datagram_mtu, fragment_header, pad_frame, fragment_loop, fragment_handshake,
}

-- The frame carries the part of the message that starts at `off`, under the sequence number `seq`.
pub record IsFrame (base : HandshakeHeader) (msg : List ℕ) (pad : Bool) (off seq : ℕ)
    (frame part : List ℕ) : Type 0 where
  pub header : HandshakeHeader
  pub parses : parse_handshake frame ≡ ok (header, part)
  pub some_part : 0 < length part
  pub is_part : slice msg off (off + length part) ≡ ok part
  pub offset_kept : header.frag_offset ≡ off
  pub total_kept : header.total_length ≡ length msg
  pub seq_kept : header.base.seq ≡ seq
  pub type_kept : header.msg_type ≡ base.msg_type
  pub sender_kept : header.sender_index ≡ base.sender_index
  pub cookie_kept : header.cookie ≡ base.cookie
  pub fits_mtu : length frame ≤ 1200
  pub uniform : pad ≡ true → length frame ≡ 1200

-- The frames carry the message from `off` to its end, part by part, under increasing sequence
-- numbers.
abbrev pub Tiles : HandshakeHeader → List ℕ → Bool → ℕ → ℕ → List (List ℕ) → Type 0
Tiles base msg pad off seq [] = off ≡ length msg
Tiles base msg pad off seq (frame ∷ frames) =
    (part : List ℕ) × IsFrame base msg pad off seq frame part
    × Tiles base msg pad (off + length part) ((seq + 1) % 2 ^ 64) frames

wire_frame : HandshakeHeader → List ℕ → List ℕ
wire_frame h fragment =
    encode_header (record h.base { frame_type = frame_handshake })
    ++ (encode_extension h ++ (h.cookie ++ fragment))

encode_wire :
    (h : HandshakeHeader) (fragment : List ℕ)
    → length h.cookie ≤ 255
    → encode_handshake h fragment ≡ ok (wire_frame h fragment)
unfolding encode_handshake wire_frame
encode_wire h fragment small = ground arith

length-wire_frame :
    (h : HandshakeHeader) (fragment : List ℕ)
    → length (wire_frame h fragment) ≡ 26 + length h.cookie + length fragment
unfolding wire_frame encode_header encode_extension
length-wire_frame h fragment = omega (arith, length-append h.cookie fragment)

value_or : {A : Type 0} → A → Result A → A
value_or a (ok x) = x
value_or a (err e) = a
value_or a panic = a

-- The frame that the encoder makes is parsed back under any padding.
parse-wire_frame :
    (h : HandshakeHeader) (fragment zeros : List ℕ)
    → IsHandshakeHeader h
    → length h.cookie ≤ 255
    → h.frag_length ≡ length fragment
    → h.frag_offset + h.frag_length ≤ h.total_length
    → parse_handshake (wire_frame h fragment ++ zeros)
      ≡ ok (record h { base = record h.base { frame_type = frame_handshake } }, fragment)
unfolding value_or
parse-wire_frame h fragment zeros v small e le =
    let (bytes, encodes, parses) = parse_handshake-encode_handshake h fragment zeros v small e le in
    let same : wire_frame h fragment ≡ bytes =
      ap (value_or []) (sym (encode_wire h fragment small) ∙ encodes) in
    rw same parses

padding : Bool → List ℕ → List ℕ
padding pad frame =
    if pad && ltb (length frame) datagram_mtu then replicate (datagram_mtu - length frame) 0 else []

pad_frame_lem : (pad : Bool) (frame : List ℕ) → pad_frame pad frame ≡ frame ++ padding pad frame
unfolding pad_frame padding
pad_frame_lem pad frame = elim (Bool-cases (pad && ltb (length frame) 1200)) [
  | inl h ↦ rw h
  | inr h ↦ rw h (sym (append-nil frame))
]

length-pad_frame :
    (pad : Bool) (frame : List ℕ)
    → length frame ≤ 1200
    → (length (pad_frame pad frame) ≤ 1200) × (pad ≡ true → length (pad_frame pad frame) ≡ 1200)
unfolding pad_frame
length-pad_frame true frame h = elim (Bool-cases (ltb (length frame) 1200)) [
  | inl short ↦ rw short (omega (arith, grown), λ p. omega (arith, grown))
  | inr full ↦ rw full (h, λ p. ground arith)
]
  where
    grown : length (frame ++ replicate (1200 - length frame) 0) ≡ 1200
    grown = omega (
      arith,
      length-append frame (replicate (1200 - length frame) 0),
      length-replicate {A = ℕ} (1200 - length frame) 0,
    )
length-pad_frame false frame h = (h, λ p. ground arith)

module _ (base : HandshakeHeader) (msg : List ℕ) (pad : Bool) (v : IsHandshakeHeader base)
    (small : length base.cookie ≤ 255) (bounded : length msg ≤ 4096) where
  frame_lem :
      (off end seq : ℕ) (part : List ℕ)
      → off < end
      → end ≤ length msg
      → 26 + length base.cookie + (end - off) ≤ 1200
      → seq < 2 ^ 64
      → slice msg off end ≡ ok part
      → length part ≡ end - off
      → IsFrame base msg pad off seq
          (pad_frame pad (wire_frame (fragment_header base (length msg) off end seq) part))
          part
  frame_lem off end seq part some_end within fits seq_fits is_slice size = record {
    header = record h { base = record h.base { frame_type = frame_handshake } };
    parses =
        rw (pad_frame_lem pad wire)
          (parse-wire_frame h part (padding pad wire) h_fits small (omega arith) (omega arith));
    some_part = omega arith;
    is_part = rw stop is_slice;
    offset_kept = omega arith;
    total_kept = omega arith;
    seq_kept = refl;
    type_kept = refl;
    sender_kept = refl;
    cookie_kept = refl;
    fits_mtu = (length-pad_frame pad wire wire_fits).0;
    uniform = (length-pad_frame pad wire wire_fits).1;
  }
    where
      h : HandshakeHeader
      h = fragment_header base (length msg) off end seq

      wire : List ℕ
      wire = wire_frame h part

      stop : off + length part ≡ end
      stop = omega arith

      wire_fits : length wire ≤ 1200
      wire_fits = omega (arith, length-wire_frame h part)

      h_fits : IsHandshakeHeader h
      h_fits = record {
        base_fits = record {
          frame_type_fits = v.base_fits.frame_type_fits;
          epoch_fits = v.base_fits.epoch_fits;
          recv_index_fits = v.base_fits.recv_index_fits;
          seq_fits = seq_fits;
        };
        sender_index_fits = v.sender_index_fits;
        msg_type_fits = v.msg_type_fits;
        frag_offset_fits = omega arith;
        frag_length_fits = omega arith;
        total_length_fits = omega arith;
      }

  loop_done :
      (fuel max_frag off seq : ℕ)
      → length msg ≤ off
      → fragment_loop (suc fuel) base msg pad max_frag off seq ≡ ok []
  unfolding fragment_loop
  loop_done fuel max_frag off seq h = rw (le→ltb off (length msg) h)

  loop_step :
      (fuel max_frag off end seq : ℕ) (part : List ℕ) (frames : List (List ℕ))
      → off < length msg
      → (if ltb (length msg) (off + max_frag) then length msg else off + max_frag) ≡ end
      → slice msg off end ≡ ok part
      → fragment_loop fuel base msg pad max_frag (off + max_frag) ((seq + 1) % 2 ^ 64) ≡ ok frames
      → fragment_loop (suc fuel) base msg pad max_frag off seq
        ≡ ok (
            pad_frame pad (wire_frame (fragment_header base (length msg) off end seq) part)
            ∷ frames)
  unfolding fragment_loop
  loop_step fuel max_frag off end seq part frames more e is_slice rest = rw (
    lt→ltb off (length msg) more,
    e,
    is_slice,
    encode_wire (fragment_header base (length msg) off end seq) part small,
    rest,
  )

  loop-Tiles :
      (fuel max_frag off seq : ℕ)
      → 0 < max_frag
      → 26 + length base.cookie + max_frag ≤ 1200
      → seq < 2 ^ 64
      → off ≤ length msg
      → length msg < fuel + off
      → (frames : List (List ℕ)) × (fragment_loop fuel base msg pad max_frag off seq ≡ ok frames)
        × Tiles base msg pad off seq frames
  loop-Tiles zero max_frag off seq some_frag fits seq_fits le enough = absurd (omega arith)
  loop-Tiles (suc fuel) max_frag off seq some_frag fits seq_fits le enough =
      elim (Bool-cases (ltb off (length msg))) [
        | inr done ↦ ([], loop_done fuel max_frag off seq (ground arith), ground arith)
        | inl more ↦ elim (Bool-cases (ltb (length msg) (off + max_frag))) [
          | inr inside ↦
              let reach : off + max_frag ≤ length msg = ground arith in
              let (part, is_slice, size) =
                slice_within msg off (off + max_frag) (omega arith) reach in
              let (frames, runs, tiles) =
                loop-Tiles fuel max_frag (off + max_frag) ((seq + 1) % 2 ^ 64) some_frag fits
                  (omega arith) reach (omega arith) in
              let same : off + max_frag ≡ off + length part = omega arith in
              (
                _,
                loop_step fuel max_frag off (off + max_frag) seq part frames (ground arith)
                    (rw inside) is_slice runs,
                (
                  part,
                  frame_lem off (off + max_frag) seq part (omega arith) reach (omega arith) seq_fits
                      is_slice size,
                  subst (λ o. Tiles base msg pad o ((seq + 1) % 2 ^ 64) frames) same tiles,
                ),
              )
          | inl last ↦
              let before : off < length msg = ground arith in
              let beyond : length msg < off + max_frag = ground arith in
              let (part, is_slice, size) = slice_within msg off (length msg) le (omega arith) in
              (
                _,
                loop_step fuel max_frag off (length msg) seq part [] before (rw last) is_slice
                    (ends fuel max_frag off ((seq + 1) % 2 ^ 64) (omega arith) (omega arith)),
                (
                  part,
                  frame_lem off (length msg) seq part before (omega arith) (omega arith) seq_fits
                      is_slice size,
                  omega arith,
                ),
              )
        ]
      ]
    where
      ends :
          (fuel max_frag off seq : ℕ)
          → 0 < fuel
          → length msg ≤ off + max_frag
          → fragment_loop fuel base msg pad max_frag (off + max_frag) seq ≡ ok []
      ends zero max_frag off seq h k = absurd (omega arith)
      ends (suc fuel) max_frag off seq h k = loop_done fuel max_frag (off + max_frag) seq k

-- A message of 1 to 4096 bytes is always split: the loop ends, each frame fits the MTU (and fills it
-- when padding is on), and the frames are parsed back to consecutive parts of the message that
-- end where it ends. The header's fields fit their Go types, and the cookie its length byte.
pub fragment_handshake-Tiles :
    (base : HandshakeHeader) (msg : List ℕ) (pad : Bool)
    → IsHandshakeHeader base
    → length base.cookie ≤ 255
    → 0 < length msg
    → length msg ≤ 4096
    → (frames : List (List ℕ)) × (fragment_handshake base msg pad ≡ ok frames)
      × Tiles base msg pad 0 base.base.seq frames
unfolding fragment_handshake
fragment_handshake-Tiles base msg pad v small some_msg bounded =
    let (frames, runs, tiles) =
      loop-Tiles base msg pad v small bounded (suc (length msg))
        (1200 - 14 - 12 - length base.cookie) 0 base.base.seq (omega arith) (omega arith)
        v.base_fits.seq_fits (omega arith) (omega arith) in
    (frames, rw (sized, lt→ltb 0 (1200 - 14 - 12 - length base.cookie) (omega arith)) runs, tiles)
  where
    sized : (length msg == 0 || ltb 4096 (length msg)) ≡ false
    sized = ground arith
