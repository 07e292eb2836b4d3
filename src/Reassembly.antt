-- ===== src/Reassembly.antt =====
-- pkg/tunnel/reassembly.go: the bounded reassembly of handshake messages. `Add` and `Drop` run
-- under the reassembler's mutex, so each is one step on its maps. A source string is only
-- compared, and is a number here; the clock's reading is an argument, in nanoseconds.
pub mod Ingest
pub mod Message
pub mod Entries
pub mod Bounds
pub mod Memory
pub mod Delivery
pub mod Progress
pub mod EndToEnd
mod Tests
use quantum_go.Base.{
  ℕ, zero, suc, ◌+◌, ◌-◌, ◌*◌, ◌/◌, Bool, true, false, not, ◌&&◌, ◌||◌, Option, none, some, List,
  [], ◌∷◌, ◌++◌, ◌≡◌, ◌↔◌, ltb, leb, ◌==◌, if◌then◌else◌, length, replicate, take, drop, arith,
  ==_iff,
}
use quantum_go.Base.Go.{Error, invalid_message, message_too_large, reassembler_full}
use quantum_go.Base.Maps.{Eq, ℕ_eq, lookup, insert, delete}
use quantum_go.Datagram.{HandshakeHeader}
use quantum_go.Replay.{set_bit, test_bit}

-- `reasmKey`
pub record Key : Type 0 where
  pub sender : ℕ
  pub msg : ℕ

pub Key-eq_iff : (a b : Key) → ((a.sender == b.sender && a.msg == b.msg) ≡ true) ↔ (a ≡ b)
Key-eq_iff a b = ground arith

instance abbrev pub Key_eq : Eq Key
Key_eq = record { beq = λ a b. a.sender == b.sender && a.msg == b.msg; beq_iff = Key-eq_iff }

-- `fragmentBuffer`: `covered` is a bitset over the bytes of `buf`.
pub record Buffer : Type 0 where
  pub total : ℕ
  pub buf : List ℕ
  pub covered : List ℕ
  pub covered_n : ℕ
  pub created_at : ℕ

abbrev pub Buffers : Type 0
Buffers = List (Key × Buffer)

-- `Reassembler`
pub record Reassembler : Type 0 where
  pub by_source : List (ℕ × Buffers)
  pub max_sources : ℕ
  pub max_concurrent_per_source : ℕ
  pub max_message_size : ℕ
  pub timeout : ℕ

-- `NewReassembler`; 0 stands for every argument that is not positive.
unfoldable pub new_reassembler : ℕ → ℕ → ℕ → Reassembler
new_reassembler max_concurrent max_size timeout = record {
  by_source = [];
  max_sources = 1024;
  max_concurrent_per_source = if max_concurrent == 0 then 4 else max_concurrent;
  max_message_size = if max_size == 0 then 4096 else max_size;
  timeout = if timeout == 0 then 10_000_000_000 else timeout;
}

-- The buffer that `Add` makes for the first fragment of a message.
unfoldable pub new_buffer : ℕ → ℕ → Buffer
new_buffer total now = record {
  total = total;
  buf = replicate total 0;
  covered = replicate ((total + 63) / 64) 0;
  covered_n = 0;
  created_at = now;
}

-- `copy(buf[off:off+len(fragment)], fragment)`
unfoldable pub copy_at : ℕ → List ℕ → List ℕ → List ℕ
copy_at off buf fragment = take off buf ++ (fragment ++ drop (off + length fragment) buf)

-- The loop that marks the bytes `i` to `i + n - 1`: the bitset and its count.
unfoldable pub cover_loop : ℕ → ℕ → List ℕ → ℕ → List ℕ × ℕ
cover_loop zero i covered count = (covered, count)
cover_loop (suc n) i covered count =
    cover_loop n (i + 1) (if test_bit covered i then covered else set_bit covered i)
      (if test_bit covered i then count else count + 1)

unfoldable pub ingest : Buffer → ℕ → List ℕ → Buffer
ingest fb off fragment =
    let marked = cover_loop (length fragment) off fb.covered fb.covered_n in
    record fb { buf = copy_at off fb.buf fragment; covered = marked.0; covered_n = marked.1 }

-- `createdAt.Before(now - timeout)`
abbrev pub is_expired : ℕ → ℕ → Buffer → Bool
is_expired now timeout fb = ltb (fb.created_at + timeout) now

unfoldable pub drop_expired : ℕ → ℕ → Buffers → Buffers
drop_expired now timeout [] = []
drop_expired now timeout ((k, fb) ∷ bufs) =
    let rest = drop_expired now timeout bufs in
    if is_expired now timeout fb then rest else (k, fb) ∷ rest

-- `evictExpiredLocked`: a source with no buffer left goes too.
unfoldable pub evict_expired : ℕ → ℕ → List (ℕ × Buffers) → List (ℕ × Buffers)
evict_expired now timeout [] = []
evict_expired now timeout ((src, bufs) ∷ sources) =
    let rest = evict_expired now timeout sources in
    let kept = drop_expired now timeout bufs in
    if length kept == 0 then rest else (src, kept) ∷ rest

-- The older of two buffers, the first if they are of one age.
abbrev pub older : Key × ℕ → Option (Key × ℕ) → Option (Key × ℕ)
older (k, t) none = some (k, t)
older (k, t) (some (j, u)) = if ltb u t then some (j, u) else some (k, t)

-- The key that `evictOldestLocked` finds. Of buffers of one age Go takes the one that its map
-- yields first, the model the one that stands first.
unfoldable pub oldest_key : Buffers → Option (Key × ℕ)
oldest_key [] = none
oldest_key ((k, fb) ∷ bufs) = older (k, fb.created_at) (oldest_key bufs)

unfoldable pub evict_oldest : Buffers → Buffers
evict_oldest bufs = elim (oldest_key bufs) [ none ↦ bufs | some (k, t) ↦ delete k bufs ]

-- What `Add` returns.
pub data Outcome : Type 0 where
  complete : List ℕ → Outcome
  incomplete : Outcome
  rejected : Error → Outcome

-- The end of `Add`: ingest into the buffer, and take it out if it is complete.
unfoldable pub finish : Reassembler → ℕ → Buffers → Key → Buffer → Reassembler × Outcome
finish r src bufs key fb =
    if ltb fb.covered_n fb.total
    then (record r { by_source = insert src (insert key fb bufs) r.by_source }, incomplete)
    else (let left = delete key bufs in
        let sources =
          if length left == 0 then delete src r.by_source else insert src left r.by_source in
        (record r { by_source = sources }, complete fb.buf))

-- The middle of `Add`: the buffer of the message, made if it is not there.
unfoldable pub with_buffer :
    Reassembler → ℕ → ℕ → Buffers → HandshakeHeader → List ℕ → Reassembler × Outcome
with_buffer r now src bufs h fragment =
    let key : Key = record { sender = h.sender_index; msg = h.msg_type } in
    elim (lookup key bufs) [
      | none ↦
          let room =
            if leb r.max_concurrent_per_source (length bufs) then evict_oldest bufs else bufs in
          finish r src room key (ingest (new_buffer h.total_length now) h.frag_offset fragment)
      | some fb ↦
          if fb.total == h.total_length
          then finish r src bufs key (ingest fb h.frag_offset fragment)
          else (r, rejected invalid_message)
    ]

-- `Add`
unfoldable pub add : Reassembler → ℕ → ℕ → HandshakeHeader → List ℕ → Reassembler × Outcome
add r now src h fragment =
    if h.total_length == 0 || ltb r.max_message_size h.total_length
    then (r, rejected message_too_large)
    else if ltb h.total_length (h.frag_offset + h.frag_length)
        || not (h.frag_length == length fragment)
    then (r, rejected invalid_message)
    else (let swept = record r { by_source = evict_expired now r.timeout r.by_source } in
        elim (lookup src swept.by_source) [
          | none ↦
              if leb swept.max_sources (length swept.by_source)
              then (swept, rejected reassembler_full)
              else with_buffer swept now src [] h fragment
          | some bufs ↦ with_buffer swept now src bufs h fragment
        ])

-- `Drop`
unfoldable pub drop_source : Reassembler → ℕ → Reassembler
drop_source r src = record r { by_source = delete src r.by_source }

-- `sourceCount`
unfoldable pub source_count : Reassembler → ℕ
source_count r = length r.by_source
