-- ===== src/Reassembly/EndToEnd.antt =====
-- From the fragmenter to the reassembler: the frames of a message, received in order by a new
-- reassembler, complete that message.
use quantum_go.Base.{
  ℕ, ◌+◌, ◌/◌, ◌%◌, ◌^◌, ◌≤◌, ◌<◌, ◌≡◌, refl, sym, ap, ◌∙◌, Bool, false, List, [], ◌∷◌, ltb,
  ==_refl, if◌then◌else◌, length, arith, Bool-cases, inl, inr, le→ltb, ltb→le, ltb→lt,
}
use quantum_go.Base.Go.{Result, ok, err, panic, invalid_message}
use quantum_go.Datagram.{HandshakeHeader, IsHandshakeHeader, parse_handshake}
use quantum_go.Datagram.Total.{IsParsed, parse_handshake-IsParsed}
use quantum_go.Fragment.Split.{Tiles, fragment_handshake-Tiles}
use quantum_go.Fragment.{fragment_handshake}
use quantum_go.Reassembly.{
  Key, Buffer, Reassembler, Outcome, complete, incomplete, rejected, new_buffer, ingest,
  drop_expired, evict_expired, finish, with_buffer, add,
}
use quantum_go.Reassembly.Message.{
  IsPart, new_buffer-IsBuffer, new_buffer-Assembles, complete_buf, test_bit-clear,
}
use quantum_go.Reassembly.Progress.{Holds, slice-IsPart, ingest-Holds, Holds-counts}

-- What the endpoint of pkg/tunnel/datagram.go does with a HANDSHAKE frame that its cookie gate lets
-- through: it parses it, and adds what the parser accepts.
unfoldable pub deliver :
    Reassembler → ℕ → ℕ → Result (HandshakeHeader × List ℕ) → Reassembler × Outcome
deliver r now src (ok (h, part)) = add r now src h part
deliver r now src (err e) = (r, rejected e)
deliver r now src panic = (r, rejected invalid_message)

unfoldable pub receive : Reassembler → ℕ → ℕ → List (List ℕ) → List Outcome
receive r now src [] = []
receive r now src (frame ∷ frames) =
    let (r', out) = deliver r now src (parse_handshake frame) in out ∷ receive r' now src frames

-- The last outcome is the message, and nothing is delivered before.
abbrev pub Completes : List ℕ → List Outcome → Type 0
Completes m [] = ⊥
Completes m (out ∷ []) = out ≡ complete m
Completes m (out ∷ next ∷ outs) = (out ≡ incomplete) × Completes m (next ∷ outs)

module _ (src now : ℕ) (key : Key) (r : Reassembler) where
  -- The reassembler with one buffer, of the given source and key.
  abbrev with_one : Buffer → Reassembler
  with_one fb = record r { by_source = (src, (key, fb) ∷ []) ∷ [] }

  -- How a reassembler takes the next part of a message into the buffer `fb`.
  abbrev TakesNext : Reassembler → Buffer → Type 0
  TakesNext r' fb =
      (h : HandshakeHeader) (part : List ℕ) (off : ℕ)
      → h.frag_offset ≡ off
      → h.sender_index ≡ key.sender
      → h.msg_type ≡ key.msg
      → h.total_length ≡ fb.total
      → h.frag_length ≡ length part
      → off + length part ≤ fb.total
      → add r' now src h part ≡ (
          if ltb (ingest fb off part).covered_n (ingest fb off part).total
          then (with_one (ingest fb off part), incomplete)
          else (record r { by_source = [] }, complete (ingest fb off part).buf))

  with_one-TakesNext :
      (fb : Buffer)
      → fb.created_at ≡ now
      → 0 < fb.total
      → fb.total ≤ r.max_message_size
      → TakesNext (with_one fb) fb
  unfolding add evict_expired drop_expired with_buffer finish
  with_one-TakesNext fb fresh pos le h part off e0 e1 e2 e3 e4 fits =
      ground (arith, ==_refl src, ==_refl key.sender, ==_refl key.msg)

  first-TakesNext :
      (total : ℕ)
      → r.by_source ≡ []
      → 0 < r.max_sources
      → 0 < r.max_concurrent_per_source
      → 0 < total
      → total ≤ r.max_message_size
      → TakesNext r (new_buffer total now)
  unfolding add evict_expired with_buffer finish new_buffer
  first-TakesNext total none_yet sources room pos le h part off e0 e1 e2 e3 e4 fits =
      ground (arith, ==_refl src, ==_refl key.sender, ==_refl key.msg)

Completes-cons :
    (m : List ℕ) (outs : List Outcome) → Completes m outs → Completes m (incomplete ∷ outs)
Completes-cons m [] h = elim h [ ]
Completes-cons m (out ∷ outs) h = (refl, h)

receive_nothing : (r : Reassembler) (now src : ℕ) → receive r now src [] ≡ []
unfolding receive
receive_nothing r now src = refl

receive_step :
    (r r' : Reassembler) (now src : ℕ) (out : Outcome) (frame : List ℕ) (frames : List (List ℕ))
    → deliver r now src (parse_handshake frame) ≡ (r', out)
    → receive r now src (frame ∷ frames) ≡ out ∷ receive r' now src frames
unfolding receive
receive_step r r' now src out frame frames e = ap (λ d. d.1 ∷ receive d.0 now src frames) e

no_more :
    (base : HandshakeHeader) (m : List ℕ) (pad : Bool) (off seq : ℕ) (frames : List (List ℕ))
    → length m ≤ off
    → Tiles base m pad off seq frames
    → frames ≡ []
no_more base m pad off seq [] h tiles = refl
no_more base m pad off seq (frame ∷ frames) h (part, f, tiles) =
    absurd (omega (arith, f.some_part, (slice-IsPart m off part f.is_part).within))

frag_length_lem :
    (frame part : List ℕ) (h : HandshakeHeader)
    → parse_handshake frame ≡ ok (h, part)
    → h.frag_length ≡ length part
frag_length_lem frame part h e =
    let parsed : IsParsed (length frame) (ok (h, part)) =
      rw e at (parse_handshake-IsParsed frame) in
    sym parsed.1

module _ (src now : ℕ) (base : HandshakeHeader) (m : List ℕ) (pad : Bool) (r : Reassembler)
    (sized : length m ≤ r.max_message_size) where
  abbrev key_of_base : Key
  key_of_base = record { sender = base.sender_index; msg = base.msg_type }

  Tiles-Completes :
      (frames : List (List ℕ)) (r' : Reassembler) (fb : Buffer) (off seq : ℕ)
      → TakesNext src now key_of_base r r' fb
      → Holds fb m now off
      → off < length m
      → Tiles base m pad off seq frames
      → Completes m (receive r' now src frames)
  unfolding deliver
  Tiles-Completes [] r' fb off seq takes h lt e = absurd (omega arith)
  Tiles-Completes (frame ∷ frames) r' fb off seq takes h lt (part, f, tiles) =
      elim (Bool-cases (ltb (off + length part) (length m))) [
        | inl missing ↦
            rw
              (receive_step r' (with_one src now key_of_base r fb') now src incomplete frame frames
                (delivers ∙ rw (counts, missing)))
              (Completes-cons m _ (
                Tiles-Completes frames (with_one src now key_of_base r fb') fb' (off + length part)
                  ((seq + 1) % 2 ^ 64)
                  (with_one-TakesNext src now key_of_base r fb' held.fresh held.formed.total_pos
                    (omega (arith, held.assembles.same_total, sized)))
                  held (ltb→lt (off + length part) (length m) missing) tiles))
        | inr whole ↦
            rw
              (
                receive_step r' (record r { by_source = [] }) now src (complete fb'.buf) frame
                    frames (delivers ∙ rw (counts, whole)),
                no_more base m pad (off + length part) ((seq + 1) % 2 ^ 64) frames
                    (ltb→le (off + length part) (length m) whole) tiles,
                receive_nothing (record r { by_source = [] }) now src,
              )
              (ap complete (complete_buf fb' m held.formed held.assembles (full whole)))
      ]
    where
      p : IsPart m off part
      p = slice-IsPart m off part f.is_part

      fb' : Buffer
      fb' = ingest fb off part

      held : Holds fb' m now (off + length part)
      held = ingest-Holds fb m now off part h p

      counts : ltb fb'.covered_n fb'.total ≡ ltb (off + length part) (length m)
      counts = Holds-counts fb' m now (off + length part) held p.within

      full : ltb (off + length part) (length m) ≡ false → fb'.total ≤ fb'.covered_n
      full e = ltb→le fb'.covered_n fb'.total (counts ∙ e)

      delivers : deliver r' now src (parse_handshake frame) ≡ (
          if ltb fb'.covered_n fb'.total
          then (with_one src now key_of_base r fb', incomplete)
          else (record r { by_source = [] }, complete fb'.buf))
      delivers = rw f.parses (
          takes f.header part off f.offset_kept f.sender_kept f.type_kept
            (f.total_kept ∙ sym h.assembles.same_total)
            (frag_length_lem frame part f.header f.parses)
            (omega (arith, p.within, h.assembles.same_total)))

-- A reassembler without buffers, and with room for one, that receives the frames of a message in
-- order at one time delivers the message with the last of them, and nothing before.
receive-Completes :
    (r : Reassembler) (now src : ℕ) (base : HandshakeHeader) (m : List ℕ) (pad : Bool) (seq : ℕ)
    (frames : List (List ℕ))
    → r.by_source ≡ []
    → 0 < r.max_sources
    → 0 < r.max_concurrent_per_source
    → 0 < length m
    → length m ≤ r.max_message_size
    → Tiles base m pad 0 seq frames
    → Completes m (receive r now src frames)
receive-Completes r now src base m pad seq frames none_yet sources room pos sized tiles =
    Tiles-Completes src now base m pad r sized frames r (new_buffer (length m) now) 0 seq
      (first-TakesNext src now _ r (length m) none_yet sources room pos sized)
      (record {
        formed = new_buffer-IsBuffer (length m) now pos;
        assembles = new_buffer-Assembles m now;
        fresh = unfold new_buffer in refl;
        covers = λ i.
            unfold new_buffer in
            (test_bit-clear ((length m + 63) / 64) i ∙ sym (le→ltb i 0 (omega arith)));
      })
      pos tiles

-- A message of 1 to 4096 bytes that is split, under a header whose fields fit their Go types and a
-- cookie of at most 255 bytes, is delivered by a reassembler without buffers that has room for a
-- message of its size and receives the frames in order at one time: with the last frame, and nothing
-- before.
pub fragment_handshake-Completes :
    (r : Reassembler) (now src : ℕ) (base : HandshakeHeader) (m : List ℕ) (pad : Bool)
    → r.by_source ≡ []
    → 0 < r.max_sources
    → 0 < r.max_concurrent_per_source
    → length m ≤ r.max_message_size
    → IsHandshakeHeader base
    → length base.cookie ≤ 255
    → 0 < length m
    → length m ≤ 4096
    → (frames : List (List ℕ)) × (fragment_handshake base m pad ≡ ok frames)
      × Completes m (receive r now src frames)
fragment_handshake-Completes r now src base m pad none_yet sources room sized v small pos bounded =
    let (frames, runs, tiles) = fragment_handshake-Tiles base m pad v small pos bounded in
    (
      frames,
      runs,
      receive-Completes r now src base m pad base.base.seq frames none_yet sources room pos sized
          tiles,
    )
