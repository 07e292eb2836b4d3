-- ===== src/Reassembly/Ingest.antt =====
-- One buffer: the coverage bitset counts the bytes that are covered, the covered bytes are those
-- of the message, and a buffer that counts them all holds the message.
use quantum_go.Base.{
  ℕ, zero, suc, ◌+◌, ◌-◌, ◌*◌, ◌/◌, ◌≤◌, ◌<◌, ◌≡◌, refl, ◌∙◌, true, false, ◌&&◌, List, [], ◌∷◌,
  ◌++◌, ltb, leb, ◌==◌, if◌then◌else◌, length, get_or, take, drop, arith, length-append,
  length-take, length-drop, get_or-drop, Bool-cases, inl, inr, length-set,
}
use quantum_go.Replay.{set_bit, test_bit}
use quantum_go.Replay.Shift.{test_bit_lem, window_bit-set_bit}
use quantum_go.Reassembly.{copy_at, cover_loop}

-- How many of the bytes 0 to `n - 1` are covered.
abbrev pub covered_below : List ℕ → ℕ → ℕ
covered_below covered zero = 0
covered_below covered (suc n) = (if test_bit covered n then 1 else 0) + covered_below covered n

pub covered_below-le : (covered : List ℕ) (n : ℕ) → covered_below covered n ≤ n
covered_below-le covered zero = omega arith
covered_below-le covered (suc n) = ground (arith, covered_below-le covered n)

same_test : (i j : ℕ) (covered : List ℕ) → i ≡ j → test_bit covered i ≡ test_bit covered j
same_test i j covered e = rw e

-- All counted means all covered.
pub all_covered :
    (covered : List ℕ) (n i : ℕ) → n ≤ covered_below covered n → i < n → test_bit covered i ≡ true
all_covered covered zero i h lt = absurd (omega arith)
all_covered covered (suc n) i h lt =
    ground (arith, covered_below-le covered n, all_covered covered n i, same_test i n covered)

length-set_bit : (covered : List ℕ) (p : ℕ) → length (set_bit covered p) ≡ length covered
unfolding set_bit
length-set_bit covered p = length-set covered (p / 64) _

test_bit-set_bit :
    (covered : List ℕ) (p q : ℕ)
    → p / 64 < length covered
    → test_bit (set_bit covered p) q ≡ (if q == p then true else test_bit covered q)
test_bit-set_bit covered p q h =
    rw
      (test_bit_lem (set_bit covered p) q, window_bit-set_bit covered p q h, test_bit_lem covered q)
      (ground arith)

covered_below-set_bit :
    (covered : List ℕ) (p n : ℕ)
    → p / 64 < length covered
    → test_bit covered p ≡ false
    → covered_below (set_bit covered p) n ≡ covered_below covered n + (if ltb p n then 1 else 0)
covered_below-set_bit covered p zero h e = ground arith
covered_below-set_bit covered p (suc n) h e =
    ground (arith, test_bit-set_bit covered p n h, covered_below-set_bit covered p n h e)

-- What the marking loop leaves: the bytes `i` to `i + n - 1` are covered too, and the count is
-- again the number of covered bytes.
pub record IsMarked (covered : List ℕ) (n i total : ℕ) (marked : List ℕ × ℕ) : Type 0 where
  pub same_length : length marked.0 ≡ length covered
  pub counted : marked.1 ≡ covered_below marked.0 total
  pub test :
      (q : ℕ)
      → test_bit marked.0 q ≡ (if leb i q && ltb q (i + n) then true else test_bit covered q)

pub cover_loop-IsMarked :
    (n i total : ℕ) (covered : List ℕ) (count : ℕ)
    → i + n ≤ total
    → total ≤ 64 * length covered
    → count ≡ covered_below covered total
    → IsMarked covered n i total (cover_loop n i covered count)
unfolding cover_loop
cover_loop-IsMarked zero i total covered count h fits e = record {
  same_length = refl;
  counted = e;
  test = λ q. ground arith;
}
cover_loop-IsMarked (suc n) i total covered count h fits e =
    elim (Bool-cases (test_bit covered i)) [
      | inl old ↦ rw old (
          let m = cover_loop-IsMarked n (i + 1) total covered count (omega arith) fits e in
          record {
            same_length = m.same_length;
            counted = m.counted;
            test = λ q. ground (arith, m.test q, old, same_test i q covered);
          })
      | inr new ↦ rw new (
          let m =
            cover_loop-IsMarked n (i + 1) total (set_bit covered i) (count + 1) (omega arith)
              (omega (arith, length-set_bit covered i))
              (ground (arith, covered_below-set_bit covered i total)) in
          record {
            same_length = m.same_length ∙ length-set_bit covered i;
            counted = m.counted;
            test = λ q. ground (arith, m.test q, test_bit-set_bit covered i q);
          })
    ]

-- `copy` writes the fragment at its offset and leaves the rest.
get_or-append :
    (xs ys : List ℕ) (i : ℕ)
    → get_or (xs ++ ys) i 0
      ≡ (if ltb i (length xs) then get_or xs i 0 else get_or ys (i - length xs) 0)
get_or-append [] ys i = ground arith
get_or-append (x ∷ xs) ys zero = ground arith
get_or-append (x ∷ xs) ys (suc i) = ground (arith, get_or-append xs ys i)

get_or-take : (n i : ℕ) (xs : List ℕ) → i < n → get_or (take n xs) i 0 ≡ get_or xs i 0
get_or-take zero i xs h = elim h [ ]
get_or-take (suc n) i [] h = refl
get_or-take (suc n) zero (x ∷ xs) h = refl
get_or-take (suc n) (suc i) (x ∷ xs) h = get_or-take n i xs (omega arith)

pub length-copy_at :
    (off : ℕ) (buf fragment : List ℕ)
    → off + length fragment ≤ length buf
    → length (copy_at off buf fragment) ≡ length buf
unfolding copy_at
length-copy_at off buf fragment h = omega (
  arith,
  length-append (take off buf) (fragment ++ drop (off + length fragment) buf),
  length-append fragment (drop (off + length fragment) buf),
  length-take off buf,
  length-drop (off + length fragment) buf,
)

pub get_or-copy_at :
    (off : ℕ) (buf fragment : List ℕ) (i : ℕ)
    → off + length fragment ≤ length buf
    → get_or (copy_at off buf fragment) i 0 ≡ (
        if leb off i && ltb i (off + length fragment)
        then get_or fragment (i - off) 0
        else get_or buf i 0)
unfolding copy_at
get_or-copy_at off buf fragment i h = ground (
  arith,
  length-take off buf,
  get_or-append (take off buf) (fragment ++ drop (off + length fragment) buf) i,
  get_or-append fragment (drop (off + length fragment) buf) (i - off),
  get_or-take off i buf,
  get_or-drop (off + length fragment) (i - off - length fragment) buf 0,
  same_index (off + length fragment + (i - off - length fragment)) i buf,
)
  where
    same_index : (a b : ℕ) (xs : List ℕ) → a ≡ b → get_or xs a 0 ≡ get_or xs b 0
    same_index a b xs e = rw e
