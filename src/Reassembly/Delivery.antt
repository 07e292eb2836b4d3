-- ===== src/Reassembly/Delivery.antt =====
-- What the reassembler delivers: under any traffic, hostile sources and other messages included,
-- a message that completes is the message whose parts were sent under its source and key.
use quantum_go.Base.{
  ℕ, ◌+◌, ◌≤◌, ◌≡◌, ◌∙◌, false, ◌||◌, List, [], ◌∷◌, ltb, ◌==◌, length, All, arith,
}
use quantum_go.Datagram.{HandshakeHeader}
use quantum_go.Reassembly.{
  Key, Buffer, Reassembler, Outcome, complete, incomplete, rejected, new_buffer, add,
}
use quantum_go.Reassembly.Message.{
  IsBuffer, Assembles, IsPart, new_buffer-IsBuffer, new_buffer-Assembles, ingest-IsBuffer,
  ingest-Assembles, complete_buf,
}
use quantum_go.Reassembly.Entries.{key_of, Entries, IsOutcome, Makes, Takes, add-IsKept}

-- One call of `Add`: the clock, the source, the header and the fragment.
pub record Arrival : Type 0 where
  pub now : ℕ
  pub src : ℕ
  pub header : HandshakeHeader
  pub fragment : List ℕ

-- `Add` on one arrival after another, with what each call returned.
unfoldable pub add_all : Reassembler → List Arrival → List (Arrival × Outcome)
add_all r [] = []
add_all r (a ∷ arrivals) =
    let (r', out) = add r a.now a.src a.header a.fragment in (a, out) ∷ add_all r' arrivals

module _ (src : ℕ) (key : Key) (m : List ℕ) where
  -- An arrival under the source and key carries a part of `m`, and says its length.
  abbrev pub Carries : Arrival → Type 0
  Carries a =
      a.src ≡ src
      → key_of a.header ≡ key
      → (a.header.total_length ≡ length m) × IsPart m a.header.frag_offset a.fragment

  -- A buffer under the source and key assembles `m`.
  abbrev pub IsOurs : ℕ → Key × Buffer → Type 0
  IsOurs s e = IsBuffer e.1 × (s ≡ src → e.0 ≡ key → Assembles e.1 m)

  -- What completes under the source and key is `m`.
  abbrev pub Delivers : Arrival × Outcome → Type 0
  Delivers (a, complete msg) = a.src ≡ src → key_of a.header ≡ key → msg ≡ m
  Delivers (a, _) = Unit

  outcome-Delivers :
      (a : Arrival) (out : Outcome)
      → IsOutcome IsOurs a.src (key_of a.header) out
      → Delivers (a, out)
  outcome-Delivers a (complete msg) (fb, (v, assembles), full, e) =
      λ p q. e ∙ complete_buf fb m v (assembles p q) full
  outcome-Delivers a incomplete h = tt
  outcome-Delivers a (rejected x) h = tt

  Assembles-new : (total now : ℕ) → total ≡ length m → Assembles (new_buffer total now) m
  Assembles-new total now e = rw e (new_buffer-Assembles m now)

  arrival_steps :
      (a : Arrival) (limit : ℕ)
      → Carries a
      → (a.header.total_length == 0 || ltb limit a.header.total_length) ≡ false
      → a.header.frag_offset + length a.fragment ≤ a.header.total_length
      → Makes IsOurs a.now a.src a.header a.fragment × Takes IsOurs a.now a.src a.header a.fragment
  arrival_steps a limit carries sized fits =
      let h = a.header in
      let fresh = new_buffer-IsBuffer h.total_length a.now (ground arith) in
      (
        (
          ingest-IsBuffer _ h.frag_offset a.fragment fresh (unfold new_buffer in fits),
          λ p q.
              ingest-Assembles _ m h.frag_offset a.fragment fresh
                (Assembles-new h.total_length a.now (carries p q).0) (carries p q).1,
        ),
        λ fb v e. (
          ingest-IsBuffer fb h.frag_offset a.fragment v.0 (omega (arith, fits, e)),
          λ p q. ingest-Assembles fb m h.frag_offset a.fragment v.0 (v.1 p q) (carries p q).1,
        ),
      )

  add_all-Delivers_from :
      (r : Reassembler) (arrivals : List Arrival)
      → Entries IsOurs r.by_source
      → All Carries arrivals
      → All Delivers (add_all r arrivals)
  unfolding add_all
  add_all-Delivers_from r [] h c = tt
  add_all-Delivers_from r (a ∷ arrivals) h (c, cs) =
      let kept =
        add-IsKept IsOurs a.now a.src a.header a.fragment r (arrival_steps a r.max_message_size c)
          h in
      (
        outcome-Delivers a _ kept.1,
        add_all-Delivers_from (add r a.now a.src a.header a.fragment).0 arrivals kept.0 cs,
      )

  -- From an empty reassembler on, whatever else arrives: if each fragment under one source and
  -- key is a part of the message `m`, in any order and with any repetition or overlap, then a
  -- message that completes under that source and key is `m`.
  pub add_all-Delivers :
      (r : Reassembler) (arrivals : List Arrival)
      → r.by_source ≡ []
      → All Carries arrivals
      → All Delivers (add_all r arrivals)
  add_all-Delivers r arrivals e c = add_all-Delivers_from r arrivals (rw e tt) c
