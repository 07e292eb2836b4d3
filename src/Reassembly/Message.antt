-- ===== src/Reassembly/Message.antt =====
-- One buffer against the message that it assembles.
use quantum_go.Base.{
  ℕ, zero, suc, ◌+◌, ◌-◌, ◌*◌, ◌/◌, ◌%◌, ◌≤◌, ◌<◌, ◌≡◌, refl, sym, ◌∙◌, true, false, ◌&&◌, List, [],
  ◌∷◌, ltb, leb, if◌then◌else◌, length, get_or, replicate, arith, length-replicate,
  get_or-replicate,
}
use quantum_go.Base.Bits.{bit-zero}
use quantum_go.Replay.{test_bit}
use quantum_go.Replay.Shift.{test_bit_lem}
use quantum_go.Reassembly.{Buffer, new_buffer, cover_loop, ingest}
use quantum_go.Reassembly.Ingest.{
  covered_below, all_covered, IsMarked, cover_loop-IsMarked, length-copy_at, get_or-copy_at,
}

-- The buffer is well formed: its count is the number of bytes that its bitset covers.
pub record IsBuffer (fb : Buffer) : Type 0 where
  pub total_pos : 0 < fb.total
  pub buf_size : length fb.buf ≡ fb.total
  pub covered_size : fb.total ≤ 64 * length fb.covered
  pub counted : fb.covered_n ≡ covered_below fb.covered fb.total

-- Its covered bytes are those of the message `m`.
pub record Assembles (fb : Buffer) (m : List ℕ) : Type 0 where
  pub same_total : fb.total ≡ length m
  pub agrees :
      (i : ℕ) → i < length m → test_bit fb.covered i ≡ true → get_or fb.buf i 0 ≡ get_or m i 0

-- `fragment` is the part of `m` from `off` on.
pub record IsPart (m : List ℕ) (off : ℕ) (fragment : List ℕ) : Type 0 where
  pub within : off + length fragment ≤ length m
  pub bytes : (i : ℕ) → i < length fragment → get_or fragment i 0 ≡ get_or m (off + i) 0

pub test_bit-clear : (n i : ℕ) → test_bit (replicate n 0) i ≡ false
test_bit-clear n i =
    rw (test_bit_lem (replicate n 0) i, get_or-replicate {A = ℕ} n (i / 64) 0)
      (ground (arith, bit-zero (i % 64)))

covered_below-clear : (n k : ℕ) → covered_below (replicate n 0) k ≡ 0
covered_below-clear n zero = refl
covered_below-clear n (suc k) = ground (arith, test_bit-clear n k, covered_below-clear n k)

pub new_buffer-IsBuffer : (total now : ℕ) → 0 < total → IsBuffer (new_buffer total now)
unfolding new_buffer
new_buffer-IsBuffer total now h = record {
  total_pos = h;
  buf_size = length-replicate total 0;
  covered_size = rw length-replicate (omega arith);
  counted = sym (covered_below-clear ((total + 63) / 64) total);
}

pub new_buffer-Assembles : (m : List ℕ) (now : ℕ) → Assembles (new_buffer (length m) now) m
unfolding new_buffer
new_buffer-Assembles m now = record {
  same_total = refl;
  agrees = λ i h t. cc (t, test_bit-clear ((length m + 63) / 64) i);
}

marked :
    (fb : Buffer) (off : ℕ) (fragment : List ℕ)
    → IsBuffer fb
    → off + length fragment ≤ fb.total
    → IsMarked fb.covered
        (length fragment)
        off
        fb.total
        (cover_loop (length fragment) off fb.covered fb.covered_n)
marked fb off fragment v h =
    cover_loop-IsMarked (length fragment) off fb.total fb.covered fb.covered_n h v.covered_size
      v.counted

-- Ingesting any fragment within bounds keeps the buffer well formed, overlaps included.
pub ingest-IsBuffer :
    (fb : Buffer) (off : ℕ) (fragment : List ℕ)
    → IsBuffer fb
    → off + length fragment ≤ fb.total
    → IsBuffer (ingest fb off fragment)
unfolding ingest
ingest-IsBuffer fb off fragment v h =
    let m = marked fb off fragment v h in
    record {
      total_pos = v.total_pos;
      buf_size = length-copy_at off fb.buf fragment (omega (arith, v.buf_size)) ∙ v.buf_size;
      covered_size = omega (arith, v.covered_size, m.same_length);
      counted = m.counted;
    }

-- Ingesting a part of the message keeps to the message, and covers exactly that part more.
pub ingest-Assembles :
    (fb : Buffer) (m : List ℕ) (off : ℕ) (fragment : List ℕ)
    → IsBuffer fb
    → Assembles fb m
    → IsPart m off fragment
    → Assembles (ingest fb off fragment) m
unfolding ingest
ingest-Assembles fb m off fragment v a p = record {
  same_total = a.same_total;
  agrees = λ i h t. ground (
    arith,
    v.buf_size,
    a.same_total,
    a.agrees i,
    p.within,
    p.bytes (i - off),
    get_or-copy_at off fb.buf fragment i,
    (marked fb off fragment v (omega (arith, a.same_total, p.within))).test i,
    same_index (off + (i - off)) i m,
    t,
  );
}
  where
    same_index : (a b : ℕ) (xs : List ℕ) → a ≡ b → get_or xs a 0 ≡ get_or xs b 0
    same_index a b xs e = rw e

-- The bytes that are covered after a fragment: those before, and the fragment's.
pub ingest-test :
    (fb : Buffer) (off : ℕ) (fragment : List ℕ) (i : ℕ)
    → IsBuffer fb
    → off + length fragment ≤ fb.total
    → test_bit (ingest fb off fragment).covered i
      ≡ (if leb off i && ltb i (off + length fragment) then true else test_bit fb.covered i)
unfolding ingest
ingest-test fb off fragment i v h = (marked fb off fragment v h).test i

list_ext :
    (xs ys : List ℕ)
    → length xs ≡ length ys
    → ((i : ℕ) → i < length ys → get_or xs i 0 ≡ get_or ys i 0)
    → xs ≡ ys
list_ext [] [] e h = refl
list_ext [] (y ∷ ys) e h = absurd (omega arith)
list_ext (x ∷ xs) [] e h = absurd (omega arith)
list_ext (x ∷ xs) (y ∷ ys) e h =
    cc (h 0 (omega arith), list_ext xs ys (omega arith) (λ i lt. h (suc i) (omega arith)))

-- A buffer that counts as complete holds the message.
pub complete_buf :
    (fb : Buffer) (m : List ℕ) → IsBuffer fb → Assembles fb m → fb.total ≤ fb.covered_n → fb.buf ≡ m
complete_buf fb m v a full = list_ext fb.buf m (v.buf_size ∙ a.same_total) (λ i lt.
    a.agrees i lt
      (all_covered fb.covered fb.total i (omega (arith, v.counted)) (omega (arith, a.same_total))))

-- A buffer whose bytes are all covered counts as complete.
covered_below-full :
    (covered : List ℕ) (n : ℕ)
    → ((i : ℕ) → i < n → test_bit covered i ≡ true)
    → covered_below covered n ≡ n
covered_below-full covered zero h = refl
covered_below-full covered (suc n) h =
    ground (arith, h n (omega arith), covered_below-full covered n (λ i lt. h i (omega arith)))

pub full_counts :
    (fb : Buffer)
    → IsBuffer fb
    → ((i : ℕ) → i < fb.total → test_bit fb.covered i ≡ true)
    → fb.covered_n ≡ fb.total
full_counts fb v h = v.counted ∙ covered_below-full fb.covered fb.total h
