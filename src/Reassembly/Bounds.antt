-- ===== src/Reassembly/Bounds.antt =====
-- The memory bounds of the reassembler: how many sources, how many buffers of a source, and how
-- long each buffer.
use quantum_go.Base.{
  ℕ, ◌≤◌, ◌<◌, ◌≡◌, ◌⊎◌, sym, Bool, true, false, Option, none, some, List, [], ◌∷◌, ltb, leb, ◌==◌,
  length, All, arith, Bool-cases, Option-cases, inl, inr,
}
use quantum_go.Base.Maps.{
  lookup, insert, delete, ℕ_eq, All-insert, All-delete, length-insert, length-insert_present,
  length-delete, length-delete_present,
}
use quantum_go.Datagram.{HandshakeHeader}
use quantum_go.Reassembly.{
  Key, Key_eq, Buffer, Buffers, Reassembler, new_buffer, ingest, drop_expired, evict_expired,
  oldest_key, older, evict_oldest, finish, with_buffer,
}
use quantum_go.Reassembly.Entries.{key_of}

-- Each source holds at most `c` buffers.
abbrev pub AreSmall : ℕ → List (ℕ × Buffers) → Type 0
AreSmall c = All (λ e. length e.1 ≤ c)

length-drop_expired :
    (now timeout : ℕ) (bufs : Buffers) → length (drop_expired now timeout bufs) ≤ length bufs
unfolding drop_expired
length-drop_expired now timeout [] = omega arith
length-drop_expired now timeout ((k, fb) ∷ bufs) =
    ground (arith, length-drop_expired now timeout bufs)

length-evict_expired :
    (now timeout : ℕ) (sources : List (ℕ × Buffers))
    → length (evict_expired now timeout sources) ≤ length sources
unfolding evict_expired
length-evict_expired now timeout [] = omega arith
length-evict_expired now timeout ((s, bufs) ∷ sources) =
    ground (arith, length-evict_expired now timeout sources)

evict_expired-AreSmall :
    (c now timeout : ℕ) (sources : List (ℕ × Buffers))
    → AreSmall c sources
    → AreSmall c (evict_expired now timeout sources)
unfolding evict_expired
evict_expired-AreSmall c now timeout [] h = tt
evict_expired-AreSmall c now timeout ((s, bufs) ∷ sources) (p, h) =
    elim (Bool-cases (length (drop_expired now timeout bufs) == 0)) [
      | inl empty ↦ rw empty (evict_expired-AreSmall c now timeout sources h)
      | inr rest ↦ rw rest (
        omega (arith, length-drop_expired now timeout bufs),
        evict_expired-AreSmall c now timeout sources h,
      )
    ]

older_cases :
    (a x : Key × ℕ) (o : Option (Key × ℕ)) → older a o ≡ some x → (x.0 ≡ a.0) ⊎ (o ≡ some x)
older_cases (k, t) x none h = ground arith
older_cases (k, t) x (some (j, u)) h = ground arith

older-ne-none : (a : Key × ℕ) (o : Option (Key × ℕ)) → ¬ (older a o ≡ none)
older-ne-none (k, t) none h = ground arith
older-ne-none (k, t) (some (j, u)) h = ground arith

-- The oldest key stands in the map.
oldest_key-present :
    (bufs : Buffers) (k : Key) (t : ℕ)
    → oldest_key bufs ≡ some (k, t)
    → (fb : Buffer) × (lookup k bufs ≡ some fb)
unfolding oldest_key
oldest_key-present [] k t h = cc
oldest_key-present ((j, fb) ∷ bufs) k t h = elim (Bool-cases (Key_eq.beq j k)) [
  | inl same ↦ (fb, rw same)
  | inr other ↦ elim (older_cases (j, fb.created_at) (k, t) (oldest_key bufs) h) [
    | inl e ↦ absurd (clash (Key_eq.beq j k) other ((Key_eq.beq_iff j k).1 (sym e)))
    | inr e ↦ let (found, p) = oldest_key-present bufs k t e in (found, rw other p)
  ]
]
  where
    clash : (b : Bool) → b ≡ false → b ≡ true → ⊥
    clash b p q = cc

length-evict_oldest : (bufs : Buffers) → 0 < length bufs → length (evict_oldest bufs) < length bufs
unfolding evict_oldest
length-evict_oldest bufs h = elim (Option-cases (oldest_key bufs)) [
  | inl e ↦ absurd (nonempty bufs h e)
  | inr ((k, t), e) ↦
      let (fb, found) = oldest_key-present bufs k t e in
      rw (e, evict_oldest) (length-delete_present k fb bufs found)
]
  where
    nonempty : (bufs : Buffers) → 0 < length bufs → ¬ (oldest_key bufs ≡ none)
    nonempty [] h e = absurd (omega arith)
    nonempty ((k, fb) ∷ bufs) h e =
        older-ne-none (k, fb.created_at) (oldest_key bufs) (unfold oldest_key in e)

-- The caps on sources and on the buffers of a source.
pub record IsSmall (r : Reassembler) : Type 0 where
  pub few_sources : length r.by_source ≤ r.max_sources
  pub few_buffers : AreSmall r.max_concurrent_per_source r.by_source
  pub concurrent_pos : 0 < r.max_concurrent_per_source

-- A source that is there, or room for a new one.
abbrev pub HasSlot : Reassembler → ℕ → Type 0
HasSlot r src =
    ((bufs : Buffers) × (lookup src r.by_source ≡ some bufs)) ⊎ (length r.by_source < r.max_sources)

length-insert_slot :
    (r : Reassembler) (src : ℕ) (bufs : Buffers)
    → IsSmall r
    → HasSlot r src
    → length (insert src bufs r.by_source) ≤ r.max_sources
length-insert_slot r src bufs v (inl (old, e)) =
    omega (arith, v.few_sources, length-insert_present src bufs old r.by_source e)
length-insert_slot r src bufs v (inr room) = omega (arith, length-insert src bufs r.by_source)

finish-IsSmall :
    (r : Reassembler) (src : ℕ) (bufs : Buffers) (key : Key) (fb : Buffer)
    → IsSmall r
    → HasSlot r src
    → length (insert key fb bufs) ≤ r.max_concurrent_per_source
    → length bufs ≤ r.max_concurrent_per_source
    → IsSmall (finish r src bufs key fb).0
unfolding finish
finish-IsSmall r src bufs key fb v slot fits small = elim (Bool-cases (ltb fb.covered_n fb.total)) [
  | inl more ↦ rw more (record {
    few_sources = length-insert_slot r src _ v slot;
    few_buffers = All-insert _ src _ r.by_source fits v.few_buffers;
    concurrent_pos = v.concurrent_pos;
  })
  | inr full ↦ rw full (elim (Bool-cases (length (delete key bufs) == 0)) [
    | inl none_left ↦ rw none_left (record {
      few_sources = omega (arith, v.few_sources, length-delete src r.by_source);
      few_buffers = All-delete _ src r.by_source v.few_buffers;
      concurrent_pos = v.concurrent_pos;
    })
    | inr some_left ↦ rw some_left (record {
      few_sources = length-insert_slot r src _ v slot;
      few_buffers =
          All-insert _ src _ r.by_source (omega (arith, length-delete key bufs)) v.few_buffers;
      concurrent_pos = v.concurrent_pos;
    })
  ])
]

module _ (r : Reassembler) (now src : ℕ) (h : HandshakeHeader) (fragment : List ℕ) where
  pub with_buffer-IsSmall :
      (bufs : Buffers)
      → IsSmall r
      → HasSlot r src
      → length bufs ≤ r.max_concurrent_per_source
      → IsSmall (with_buffer r now src bufs h fragment).0
  unfolding with_buffer
  with_buffer-IsSmall bufs v slot small = elim (Option-cases (lookup (key_of h) bufs)) [
    | inl e ↦
        rw (e, with_buffer)
          (elim (Bool-cases (leb r.max_concurrent_per_source (length bufs))) [
            | inl full ↦
                let fewer = length-evict_oldest bufs (ground (arith, v.concurrent_pos)) in
                rw full (
                  finish-IsSmall r src (evict_oldest bufs) (key_of h) _ v slot
                    (omega (arith, length-insert (key_of h) (made) (evict_oldest bufs), fewer))
                    (omega (arith, fewer)))
            | inr room ↦ rw room (
                finish-IsSmall r src bufs (key_of h) _ v slot
                  (ground (arith, length-insert (key_of h) made bufs)) small)
          ])
    | inr (fb, e) ↦
        rw (e, with_buffer)
          (elim (Bool-cases (fb.total == h.total_length)) [
            | inl same ↦ rw same (
                finish-IsSmall r src bufs (key_of h) _ v slot
                  (omega (
                    arith,
                    length-insert_present (key_of h) (ingest fb h.frag_offset fragment) fb bufs e,
                  ))
                  small)
            | inr other ↦ rw other v
          ])
  ]
    where
      made : Buffer
      made = ingest (new_buffer h.total_length now) h.frag_offset fragment

  pub swept-IsSmall :
      IsSmall r → IsSmall (record r { by_source = evict_expired now r.timeout r.by_source })
  swept-IsSmall v = record {
    few_sources = omega (arith, v.few_sources, length-evict_expired now r.timeout r.by_source);
    few_buffers =
        evict_expired-AreSmall r.max_concurrent_per_source now r.timeout r.by_source v.few_buffers;
    concurrent_pos = v.concurrent_pos;
  }
