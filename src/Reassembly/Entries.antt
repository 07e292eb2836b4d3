-- ===== src/Reassembly/Entries.antt =====
-- What holds of every buffer in the reassembler. Each operation only drops buffers, makes the
-- buffer of the fragment's message, or ingests the fragment into it, so a predicate that the last
-- two give holds of all buffers again.
use quantum_go.Base.{
  ℕ, ◌+◌, ◌≤◌, ◌≡◌, refl, false, not, ◌||◌, List, [], ◌∷◌, ltb, leb, ◌==◌, if◌then◌else◌, length,
  All, arith, Bool-cases, Option-cases, inl, inr, ==_iff, ltb→le,
}
use quantum_go.Base.Maps.{lookup, insert, delete, ℕ_eq, All-insert, All-delete, All-lookup}
use quantum_go.Datagram.{HandshakeHeader}
use quantum_go.Reassembly.{
  Key, Key_eq, Buffer, Buffers, Reassembler, Outcome, complete, new_buffer, ingest, is_expired,
  drop_expired, evict_expired, oldest_key, evict_oldest, finish, with_buffer, add, drop_source,
}

abbrev pub key_of : HandshakeHeader → Key
key_of h = record { sender = h.sender_index; msg = h.msg_type }

module _ (P : ℕ → Key × Buffer → Type 0) where
  abbrev pub Entries : List (ℕ × Buffers) → Type 0
  Entries = All (λ e. All (P e.0) e.1)

  -- A completed message is that of a buffer with the predicate, and all of it is covered.
  abbrev pub IsOutcome : ℕ → Key → Outcome → Type 0
  IsOutcome src key (complete m) =
      (fb : Buffer) × P src (key, fb) × (fb.total ≤ fb.covered_n) × (m ≡ fb.buf)
  IsOutcome src key _ = Unit

  abbrev pub IsKept : ℕ → Key → Reassembler × Outcome → Type 0
  IsKept src key (r, out) = Entries r.by_source × IsOutcome src key out

  drop_expired-All :
      (now timeout s : ℕ) (bufs : Buffers)
      → All (P s) bufs
      → All (P s) (drop_expired now timeout bufs)
  unfolding drop_expired
  drop_expired-All now timeout s [] h = tt
  drop_expired-All now timeout s ((k, fb) ∷ bufs) (p, h) =
      elim (Bool-cases (is_expired now timeout fb)) [
        | inl old ↦ rw old (drop_expired-All now timeout s bufs h)
        | inr young ↦ rw young (p, drop_expired-All now timeout s bufs h)
      ]

  pub evict_expired-Entries :
      (now timeout : ℕ) (sources : List (ℕ × Buffers))
      → Entries sources
      → Entries (evict_expired now timeout sources)
  unfolding evict_expired
  evict_expired-Entries now timeout [] h = tt
  evict_expired-Entries now timeout ((s, bufs) ∷ sources) (p, h) =
      elim (Bool-cases (length (drop_expired now timeout bufs) == 0)) [
        | inl empty ↦ rw empty (evict_expired-Entries now timeout sources h)
        | inr rest ↦
            rw rest
              (drop_expired-All now timeout s bufs p, evict_expired-Entries now timeout sources h)
      ]

  evict_oldest-All : (s : ℕ) (bufs : Buffers) → All (P s) bufs → All (P s) (evict_oldest bufs)
  unfolding evict_oldest
  evict_oldest-All s bufs h = elim (Option-cases (oldest_key bufs)) [
    | inl e ↦ rw (e, evict_oldest) h
    | inr ((k, t), e) ↦ rw (e, evict_oldest) (All-delete (P s) k bufs h)
  ]

  finish-IsKept :
      (r : Reassembler) (src : ℕ) (bufs : Buffers) (key : Key) (fb : Buffer)
      → Entries r.by_source
      → All (P src) bufs
      → P src (key, fb)
      → IsKept src key (finish r src bufs key fb)
  unfolding finish
  finish-IsKept r src bufs key fb hr hb p = elim (Bool-cases (ltb fb.covered_n fb.total)) [
    | inl more ↦ rw more (
      All-insert (λ e. All (P e.0) e.1) src _ r.by_source (All-insert (P src) key fb bufs p hb) hr,
      tt,
    )
    | inr full ↦ rw full (kept, (fb, p, ltb→le fb.covered_n fb.total full, refl))
  ]
    where
      kept : Entries (
          if length (delete key bufs) == 0
          then delete src r.by_source
          else insert src (delete key bufs) r.by_source)
      kept = elim (Bool-cases (length (delete key bufs) == 0)) [
        | inl none_left ↦ rw none_left (All-delete (λ e. All (P e.0) e.1) src r.by_source hr)
        | inr some_left ↦ rw some_left (
            All-insert (λ e. All (P e.0) e.1) src _ r.by_source (All-delete (P src) key bufs hb) hr)
      ]

  module _ (now src : ℕ) (h : HandshakeHeader) (fragment : List ℕ) where
    -- What the fragment makes of its buffer keeps the predicate.
    abbrev pub Makes : Type 0
    Makes = P src (key_of h, ingest (new_buffer h.total_length now) h.frag_offset fragment)

    abbrev pub Takes : Type 0
    Takes =
        (fb : Buffer)
        → P src (key_of h, fb)
        → fb.total ≡ h.total_length
        → P src (key_of h, ingest fb h.frag_offset fragment)

    with_buffer-IsKept :
        (r : Reassembler) (bufs : Buffers)
        → Makes
        → Takes
        → Entries r.by_source
        → All (P src) bufs
        → IsKept src (key_of h) (with_buffer r now src bufs h fragment)
    unfolding with_buffer
    with_buffer-IsKept r bufs makes takes hr hb = elim (Option-cases (lookup (key_of h) bufs)) [
      | inl e ↦
          rw (e, with_buffer)
            (elim (Bool-cases (leb r.max_concurrent_per_source (length bufs))) [
              | inl full ↦
                  rw full
                    (finish-IsKept r src _ (key_of h) _ hr (evict_oldest-All src bufs hb) makes)
              | inr room ↦ rw room (finish-IsKept r src bufs (key_of h) _ hr hb makes)
            ])
      | inr (fb, e) ↦
          rw (e, with_buffer)
            (elim (Bool-cases (fb.total == h.total_length)) [
              | inl same ↦ rw same (
                  finish-IsKept r src bufs (key_of h) _ hr hb (
                    takes fb (All-lookup (P src) (key_of h) fb bufs hb e)
                      ((==_iff fb.total h.total_length).0 same)))
              | inr other ↦ rw other (hr, tt)
            ])
    ]

    -- `Add` keeps a predicate that the fragment's buffer has again.
    pub add-IsKept :
        (r : Reassembler)
        → ((h.total_length == 0 || ltb r.max_message_size h.total_length) ≡ false
            → h.frag_offset + length fragment ≤ h.total_length
            → Makes × Takes)
        → Entries r.by_source
        → IsKept src (key_of h) (add r now src h fragment)
    unfolding add
    add-IsKept r step hr =
        elim (Bool-cases (h.total_length == 0 || ltb r.max_message_size h.total_length)) [
          | inl bad ↦ rw bad (hr, tt)
          | inr sized ↦
              rw sized
                (elim (Bool-cases (
                  ltb h.total_length (h.frag_offset + h.frag_length)
                  || not (h.frag_length == length fragment))) [
                    | inl bad ↦ rw bad (hr, tt)
                    | inr fits ↦
                        let made = step sized (ground arith) in
                        rw fits
                          (elim (Option-cases
                            (lookup src (evict_expired now r.timeout r.by_source))) [
                              | inl e ↦
                                  rw e
                                    (elim (Bool-cases (
                                      leb r.max_sources
                                        (length (evict_expired now r.timeout r.by_source)))) [
                                          | inl full ↦ rw full (
                                            evict_expired-Entries now r.timeout r.by_source hr,
                                            tt,
                                          )
                                          | inr room ↦ rw room (
                                              with_buffer-IsKept _ [] made.0 made.1
                                                (evict_expired-Entries now r.timeout r.by_source hr)
                                                tt)
                                        ])
                              | inr (bufs, e) ↦ rw e (
                                  with_buffer-IsKept _ bufs made.0 made.1
                                    (evict_expired-Entries now r.timeout r.by_source hr)
                                    (All-lookup (λ s. All (P s.0) s.1) src bufs _
                                      (evict_expired-Entries now r.timeout r.by_source hr) e))
                            ])
                  ])
        ]

  pub drop_source-Entries :
      (r : Reassembler) (src : ℕ) → Entries r.by_source → Entries (drop_source r src).by_source
  unfolding drop_source
  drop_source-Entries r src h = All-delete (λ e. All (P e.0) e.1) src r.by_source h
