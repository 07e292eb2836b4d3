-- ===== src/Reassembly/Memory.antt =====
-- The memory bound of the reassembler as one invariant of its operations.
use quantum_go.Base.{
  ℕ, ◌+◌, ◌≤◌, ◌<◌, ◌≡◌, false, not, ◌||◌, List, ltb, leb, ◌==◌, length, arith, Bool-cases,
  Option-cases, inl, inr,
}
use quantum_go.Base.Maps.{lookup, ℕ_eq, All-delete, All-lookup, length-delete}
use quantum_go.Datagram.{HandshakeHeader}
use quantum_go.Reassembly.{
  Key, Buffer, Reassembler, new_reassembler, new_buffer, ingest, finish, with_buffer, evict_expired,
  add, drop_source,
}
use quantum_go.Reassembly.Message.{IsBuffer, new_buffer-IsBuffer, ingest-IsBuffer}
use quantum_go.Reassembly.Entries.{Entries, Makes, Takes, add-IsKept}
use quantum_go.Reassembly.Bounds.{IsSmall, with_buffer-IsSmall, swept-IsSmall}

add-IsSmall :
    (r : Reassembler) (now src : ℕ) (h : HandshakeHeader) (fragment : List ℕ)
    → IsSmall r
    → IsSmall (add r now src h fragment).0
unfolding add
add-IsSmall r now src h fragment v =
    elim (Bool-cases (h.total_length == 0 || ltb r.max_message_size h.total_length)) [
      | inl bad ↦ rw bad v
      | inr sized ↦
          rw sized
            (elim (Bool-cases (
              ltb h.total_length (h.frag_offset + h.frag_length)
              || not (h.frag_length == length fragment))) [
                | inl bad ↦ rw bad v
                | inr fits ↦
                    let sv = swept-IsSmall r now src h fragment v in
                    let sources = evict_expired now r.timeout r.by_source in
                    rw fits (elim (Option-cases (lookup src sources)) [
                      | inl e ↦ rw e (elim (Bool-cases (leb r.max_sources (length sources))) [
                        | inl full ↦ rw full sv
                        | inr room ↦ rw room (
                            with_buffer-IsSmall _ now src h fragment _ sv (inr (ground arith))
                              (omega arith))
                      ])
                      | inr (bufs, e) ↦ rw e (
                          with_buffer-IsSmall _ now src h fragment bufs sv (inl (bufs, e)) (
                            All-lookup (λ s. length s.1 ≤ r.max_concurrent_per_source) src bufs
                              sources sv.few_buffers e))
                    ])
              ])
    ]

-- A well-formed buffer of at most `size` bytes.
abbrev pub IsSized : ℕ → ℕ → Key × Buffer → Type 0
IsSized size src e = IsBuffer e.1 × (e.1.total ≤ size)

-- The whole of the reassembler's memory: at most `max_sources` sources, of each at most
-- `max_concurrent_per_source` buffers, each well formed and of at most `max_message_size` bytes.
pub record IsBounded (r : Reassembler) : Type 0 where
  pub small : IsSmall r
  pub sized : Entries (IsSized r.max_message_size) r.by_source

add-sizes :
    (r : Reassembler) (now src : ℕ) (h : HandshakeHeader) (fragment : List ℕ)
    → ((add r now src h fragment).0.max_message_size ≡ r.max_message_size)
unfolding add with_buffer finish
add-sizes r now src h fragment = ground arith

-- A new reassembler is within its bounds.
pub new_reassembler-IsBounded :
    (max_concurrent max_size timeout : ℕ)
    → IsBounded (new_reassembler max_concurrent max_size timeout)
unfolding new_reassembler
new_reassembler-IsBounded max_concurrent max_size timeout = record {
  small = record { few_sources = omega arith; few_buffers = tt; concurrent_pos = ground arith };
  sized = tt;
}

-- `Add` keeps the bounds of a reassembler that is within them, whatever fragment arrives from whatever source.
pub add-IsBounded :
    (r : Reassembler) (now src : ℕ) (h : HandshakeHeader) (fragment : List ℕ)
    → IsBounded r
    → IsBounded (add r now src h fragment).0
add-IsBounded r now src h fragment v = record {
  small = add-IsSmall r now src h fragment v.small;
  sized =
      rw (add-sizes r now src h fragment)
        (add-IsKept (IsSized r.max_message_size) now src h fragment r steps v.sized).0;
}
  where
    steps :
        (h.total_length == 0 || ltb r.max_message_size h.total_length) ≡ false
        → h.frag_offset + length fragment ≤ h.total_length
        → Makes (IsSized r.max_message_size) now src h fragment
          × Takes (IsSized r.max_message_size) now src h fragment
    steps sized fits =
        let pos : 0 < h.total_length = ground arith in
        (
          (
            ingest-IsBuffer _ h.frag_offset fragment (new_buffer-IsBuffer h.total_length now pos)
                (unfold new_buffer in fits),
            unfold ingest new_buffer in ground arith,
          ),
          λ fb p e. (
            ingest-IsBuffer fb h.frag_offset fragment p.0 (omega (arith, fits, e)),
            unfold ingest in p.1,
          ),
        )

-- `Drop` keeps the bounds of a reassembler that is within them.
pub drop_source-IsBounded :
    (r : Reassembler) (src : ℕ) → IsBounded r → IsBounded (drop_source r src)
unfolding drop_source
drop_source-IsBounded r src v = record {
  small = record {
    few_sources = omega (arith, v.small.few_sources, length-delete src r.by_source);
    few_buffers = All-delete _ src r.by_source v.small.few_buffers;
    concurrent_pos = v.small.concurrent_pos;
  };
  sized = All-delete _ src r.by_source v.sized;
}
