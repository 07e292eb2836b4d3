-- ===== src/Replay/Shift.antt =====
-- What `setBit`, `testBit` and `advance` do to the single bits of the window.
use quantum_go.Base.{
  ℕ, zero, suc, ◌+◌, ◌-◌, ◌*◌, ◌/◌, ◌%◌, ◌^◌, ◌≤◌, ◌<◌, ◌≡◌, refl, ◌∙◌, ap, true, false, not, List,
  [], ◌∷◌, ltb, leb, ◌==◌, if◌then◌else◌, length, get_or, set, arith, length-set, get_or-set_self,
  get_or-set_ne, Bool-cases, inl, inr, subst, ℕ_discrete, lt→ltb,
}
use quantum_go.Base.Bits.{
  bit, bit-le, bit-bit_or, bit-zero, bit-shr, bit-shl_lt, bit-shl_add, bit-cut, bit-beyond,
  bit-pow_self, bit-pow_ne, bit_and-pow,
}
use quantum_go.Replay.{set_bit, test_bit, shifted_word, shift_loop, clear, advance}
use native.Mathlib.Nat.{one-le-pow}
use Prim.Native.Nat.{bit_or}

-- Bit `p` of the window.
abbrev pub window_bit : List ℕ → ℕ → ℕ
window_bit bitmap p = bit (get_or bitmap (p / 64) 0) (p % 64)

-- Each word is a uint64.
abbrev pub AreWords : List ℕ → Type 0
AreWords bitmap = (i : ℕ) → get_or bitmap i 0 < 2 ^ 64

pub pow_pos : (k : ℕ) → 0 < 2 ^ k
pow_pos k = one-le-pow k 2 (omega arith)

pub length-shift_loop :
    (n ws bs : ℕ) (bitmap : List ℕ) → length (shift_loop n ws bs bitmap) ≡ length bitmap
unfolding shift_loop
length-shift_loop zero ws bs bitmap = refl
length-shift_loop (suc n) ws bs bitmap =
    length-shift_loop n ws bs _ ∙ length-set bitmap n (shifted_word bitmap ws bs n)

shifted_word-set :
    (bitmap : List ℕ) (ws bs i n v : ℕ)
    → i < n
    → shifted_word (set bitmap n v) ws bs i ≡ shifted_word bitmap ws bs i
unfolding shifted_word
shifted_word-set bitmap ws bs i n v h = rw (
  get_or-set_ne bitmap n (i - ws) v 0 (omega arith),
  get_or-set_ne bitmap n (i - ws - 1) v 0 (omega arith),
)

-- The loop works in place and downwards, so each word is computed from words not yet written.
pub get_or-shift_loop :
    (n ws bs : ℕ) (bitmap : List ℕ) (i : ℕ)
    → n ≤ length bitmap
    → get_or (shift_loop n ws bs bitmap) i 0
      ≡ (if ltb i n then shifted_word bitmap ws bs i else get_or bitmap i 0)
unfolding shift_loop
get_or-shift_loop zero ws bs bitmap i h = ground arith
get_or-shift_loop (suc n) ws bs bitmap i h =
    let v = shifted_word bitmap ws bs n in
    ground (
      arith,
      length-set bitmap n v,
      get_or-shift_loop n ws bs (set bitmap n v) i,
      shifted_word-set bitmap ws bs i n v,
      get_or-set_self bitmap n v 0,
      get_or-set_ne bitmap n i v 0,
    )

-- `testBit` tests the bit.
pub test_bit_lem : (bitmap : List ℕ) (p : ℕ) → test_bit bitmap p ≡ (window_bit bitmap p == 1)
unfolding test_bit
test_bit_lem bitmap p =
    let w = get_or bitmap (p / 64) 0 in
    rw (bit_and-pow w (p % 64)) (pick (bit w (p % 64)) (bit-le w (p % 64)))
  where
    pick : (b : ℕ) → b ≤ 1 → not (b * 2 ^ (p % 64) == 0) ≡ (b == 1)
    pick zero h = ground arith
    pick (suc zero) h = ground (arith, pow_pos (p % 64))
    pick (suc (suc b)) h = absurd (omega arith)

same_word :
    (w p q : ℕ)
    → bit (bit_or w (2 ^ (p % 64))) (q % 64) ≡ (if q % 64 == p % 64 then 1 else bit w (q % 64))
same_word w p q = rw (bit-bit_or w (2 ^ (p % 64)) (q % 64)) (elim (ℕ_discrete (q % 64) (p % 64)) [
  | yes e ↦ rw e (ground (arith, bit-pow_self (p % 64), bit-le w (p % 64)))
  | no e ↦ ground (arith, bit-pow_ne (p % 64) (q % 64) e)
])

-- `setBit` sets its bit and leaves the others.
pub window_bit-set_bit :
    (bitmap : List ℕ) (p q : ℕ)
    → p / 64 < length bitmap
    → window_bit (set_bit bitmap p) q ≡ (if q == p then 1 else window_bit bitmap q)
unfolding set_bit
window_bit-set_bit bitmap p q h =
    let w = get_or bitmap (p / 64) 0 in
    let v = bit_or w (2 ^ (p % 64)) in
    elim (ℕ_discrete (p / 64) (q / 64)) [
      | yes e ↦ rw (← e, get_or-set_self bitmap (p / 64) v 0 h, same_word w p q) (ground arith)
      | no e ↦ rw (get_or-set_ne bitmap (p / 64) (q / 64) v 0 e) (ground arith)
    ]

-- `(w << k) | (prev >> (64 - k))` at bit `j`.
low_part :
    (w k j : ℕ)
    → k < 64
    → j < 64
    → bit (w * 2 ^ k % 2 ^ 64) j ≡ (if ltb j k then 0 else bit w (j - k))
low_part w k j hk hj = rw (bit-cut (w * 2 ^ k) 64 j hj) (elim (Bool-cases (ltb j k)) [
  | inl below ↦ rw below (bit-shl_lt w k j (ground arith))
  | inr above ↦
      rw above
        (subst (λ i. bit (w * 2 ^ k) i ≡ bit w (j - k)) (index above) (bit-shl_add w k (j - k)))
])
  where
    index : ltb j k ≡ false → k + (j - k) ≡ j
    index h = ground arith

high_part :
    (prev k j : ℕ)
    → k < 64
    → prev < 2 ^ 64
    → bit (prev / 2 ^ (64 - k)) j ≡ (if ltb j k then bit prev (64 + j - k) else 0)
high_part prev k j hk hp = rw (bit-shr prev (64 - k) j) (elim (Bool-cases (ltb j k)) [
  | inl below ↦ rw below (ap (bit prev) (index below))
  | inr above ↦ rw above (bit-beyond prev 64 (64 - k + j) hp (ground arith))
])
  where
    index : ltb j k ≡ true → 64 - k + j ≡ 64 + j - k
    index h = ground arith

-- Where word `i`, digit `j` of the shifted bitmap comes from.
bit-shifted_word :
    (bitmap : List ℕ) (ws bs i j : ℕ)
    → AreWords bitmap
    → bs < 64
    → j < 64
    → bit (shifted_word bitmap ws bs i) j ≡ (
        if ltb i ws
        then 0
        else if leb bs j
        then bit (get_or bitmap (i - ws) 0) (j - bs)
        else if ltb ws i
        then bit (get_or bitmap (i - ws - 1) 0) (64 + j - bs)
        else 0)
unfolding shifted_word
bit-shifted_word bitmap ws bs i j words hb hj =
    let w = get_or bitmap (i - ws) 0 in
    let prev = get_or bitmap (i - ws - 1) 0 in
    ground (
      arith,
      bit-zero j,
      low_part w bs j hb hj,
      high_part prev bs j hb (words (i - ws - 1)),
      bit-bit_or (w * 2 ^ bs % 2 ^ 64) (prev / 2 ^ (64 - bs)) j,
    )

at_index :
    (bitmap : List ℕ) (p i j : ℕ)
    → p / 64 ≡ i
    → p % 64 ≡ j
    → window_bit bitmap p ≡ bit (get_or bitmap i 0) j
at_index bitmap p i j hi hj = rw (hi, hj)

-- The loop of `advance` moves bit `p` to bit `p + delta` and shifts in zeros.
pub window_bit-shift_loop :
    (bitmap : List ℕ) (delta p : ℕ)
    → AreWords bitmap
    → p / 64 < length bitmap
    → window_bit (shift_loop (length bitmap) (delta / 64) (delta % 64) bitmap) p
      ≡ (if ltb p delta then 0 else window_bit bitmap (p - delta))
window_bit-shift_loop bitmap delta p words hp =
    rw
      (
        get_or-shift_loop (length bitmap) (delta / 64) (delta % 64) bitmap (p / 64) (omega arith),
        lt→ltb (p / 64) (length bitmap) hp,
        bit-shifted_word bitmap (delta / 64) (delta % 64) (p / 64) (p % 64) words (omega arith)
            (omega arith),
      )
      (ground (
        arith,
        at_index bitmap (p - delta) (p / 64 - delta / 64) (p % 64 - delta % 64),
        at_index bitmap (p - delta) (p / 64 - delta / 64 - 1) (64 + p % 64 - delta % 64),
      ))

pub get_or-clear : (bitmap : List ℕ) (i : ℕ) → get_or (clear bitmap) i 0 ≡ 0
unfolding clear
get_or-clear [] i = refl
get_or-clear (w ∷ ws) zero = refl
get_or-clear (w ∷ ws) (suc i) = get_or-clear ws i

length-clear : (bitmap : List ℕ) → length (clear bitmap) ≡ length bitmap
unfolding clear
length-clear [] = refl
length-clear (w ∷ ws) = ap suc (length-clear ws)

pub length-advance :
    (bitmap : List ℕ) (size delta : ℕ) → length (advance bitmap size delta) ≡ length bitmap
unfolding advance
length-advance bitmap size delta =
    ground (
      arith,
      length-clear bitmap,
      length-shift_loop (length bitmap) (delta / 64) (delta % 64) bitmap,
    )

-- `advance` moves bit `p` to bit `p + delta`, shifts in zeros, and drops what leaves the window.
pub window_bit-advance :
    (bitmap : List ℕ) (size delta p : ℕ)
    → size ≡ 64 * length bitmap
    → AreWords bitmap
    → p < size
    → window_bit (advance bitmap size delta) p
      ≡ (if ltb p delta then 0 else window_bit bitmap (p - delta))
unfolding advance
window_bit-advance bitmap size delta p width words hp = ground (
  arith,
  at_index (clear bitmap) p (p / 64) (p % 64) refl refl,
  get_or-clear bitmap (p / 64),
  bit-zero (p % 64),
  window_bit-shift_loop bitmap delta p words,
)
