-- ===== src/Reassembly/Progress.antt =====
-- How far a buffer has come when the parts of a message are ingested in order.
use quantum_go.Base.{
  ℕ, zero, suc, ◌+◌, ◌-◌, ◌≤◌, ◌<◌, ◌≡◌, refl, ◌∙◌, true, false, List, [], ◌∷◌, ltb, length, take,
  drop, get_or, arith, Bool-cases, inl, inr, le→ltb, ltb→le, ltb→lt, get_or-drop,
}
use quantum_go.Base.Go.{ok, slice}
use quantum_go.Replay.{test_bit}
use quantum_go.Reassembly.{Buffer, ingest}
use quantum_go.Reassembly.Ingest.{all_covered}
use quantum_go.Reassembly.Message.{
  IsBuffer, Assembles, IsPart, ingest-IsBuffer, ingest-Assembles, ingest-test, full_counts,
}

-- A buffer that holds the message up to `off`, and nothing behind it.
pub record Holds (fb : Buffer) (m : List ℕ) (now off : ℕ) : Type 0 where
  pub formed : IsBuffer fb
  pub assembles : Assembles fb m
  pub fresh : fb.created_at ≡ now
  pub covers : (i : ℕ) → test_bit fb.covered i ≡ ltb i off

get_or-take : (n i : ℕ) (xs : List ℕ) → i < n → get_or (take n xs) i 0 ≡ get_or xs i 0
get_or-take zero i xs h = absurd (omega arith)
get_or-take (suc n) i [] h = refl
get_or-take (suc n) zero (x ∷ xs) h = refl
get_or-take (suc n) (suc i) (x ∷ xs) h = get_or-take n i xs (omega arith)

pub slice-IsPart :
    (m : List ℕ) (off : ℕ) (part : List ℕ)
    → slice m off (off + length part) ≡ ok part
    → IsPart m off part
unfolding slice
slice-IsPart m off part h = record {
  within = within;
  bytes = λ i lt.
      rw same_part (get_or-take (off + length part - off) i (drop off m) (omega arith))
      ∙ get_or-drop off i m 0;
}
  where
    within : off + length part ≤ length m
    within = ground arith

    same_part : part ≡ take (off + length part - off) (drop off m)
    same_part = ground arith

-- The next part extends what a buffer holds.
pub ingest-Holds :
    (fb : Buffer) (m : List ℕ) (now off : ℕ) (part : List ℕ)
    → Holds fb m now off
    → IsPart m off part
    → Holds (ingest fb off part) m now (off + length part)
ingest-Holds fb m now off part h p = record {
  formed = ingest-IsBuffer fb off part h.formed fits;
  assembles = ingest-Assembles fb m off part h.formed h.assembles p;
  fresh = unfold ingest in h.fresh;
  covers = λ i. ground (arith, ingest-test fb off part i h.formed fits, h.covers i);
}
  where
    fits : off + length part ≤ fb.total
    fits = omega (arith, p.within, h.assembles.same_total)

-- A buffer counts as incomplete exactly while something of the message is missing.
pub Holds-counts :
    (fb : Buffer) (m : List ℕ) (now off : ℕ)
    → Holds fb m now off
    → off ≤ length m
    → ltb fb.covered_n fb.total ≡ ltb off (length m)
Holds-counts fb m now off h le = elim (Bool-cases (ltb off (length m))) [
  | inl missing ↦ elim (Bool-cases (ltb fb.covered_n fb.total)) [
    | inl few ↦ rw (few, missing)
    | inr all ↦ absurd (absent (ltb→lt off (length m) missing) (ltb→le fb.covered_n fb.total all))
  ]
  | inr whole ↦
      rw whole
        (le→ltb fb.covered_n fb.total (omega (arith, full_counts fb h.formed (covered whole))))
]
  where
    absent : off < length m → fb.total ≤ fb.covered_n → ⊥
    absent lt full =
        let marked =
          all_covered fb.covered fb.total off (omega (arith, h.formed.counted))
            (omega (arith, h.assembles.same_total)) in
        ground (arith, marked, h.covers off)

    covered : ltb off (length m) ≡ false → (i : ℕ) → i < fb.total → test_bit fb.covered i ≡ true
    covered whole i lt = ground (arith, h.covers i, h.assembles.same_total)
