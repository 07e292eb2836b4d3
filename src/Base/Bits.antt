-- ===== src/Base/Bits.antt =====
-- The binary digits of a machine word, and what Go's `|`, `&`, `<<` and `>>` do to them.
use Prim.Native.Nat.{
  ℕ, zero, suc, ◌+◌, ◌*◌, ◌/◌, ◌%◌, ◌^◌, ◌≤◌, ◌<◌, min, max, bit_or, bit_and, digits, bitwise,
  bit_and-bitwise, bit_or-bitwise,
}
use mathlib.Core.Path.{◌≡◌, refl, sym, ap, subst}
use mathlib.Core.Logic.{◌≢◌}
use native.Mathlib.Omega.{arith}
use native.Mathlib.Nat.{
  le_refl, pow-suc, div-div-eq-div-mul, mul_comm, div-one, zero-add, suc-add, mod-eq-sub-mul-div,
  mul-div-le,
}

-- Bit `i` of `w`, 0 or 1.
abbrev pub bit : ℕ → ℕ → ℕ
bit w zero = w % 2
bit w (suc i) = bit (w / 2) i

-- The library's recursion on fuel, for any digit operation `op` with `left` for a used-up number.
module _ (left : ℕ → ℕ) (op : ℕ → ℕ → ℕ) where
  digits_fuel :
      (fuel fuel' x y : ℕ)
      → x ≤ fuel
      → x ≤ fuel'
      → digits left op fuel x y ≡ digits left op fuel' x y
  digits_fuel zero zero x y h k = refl
  digits_fuel zero (suc fuel') zero y h k = refl
  digits_fuel (suc fuel) zero zero y h k = refl
  digits_fuel (suc fuel) (suc fuel') zero y h k = refl
  digits_fuel zero (suc fuel') (suc x) y h k = absurd (omega arith)
  digits_fuel (suc fuel) zero (suc x) y h k = absurd (omega arith)
  digits_fuel (suc fuel) (suc fuel') (suc x) y h k =
      rw (digits_fuel fuel fuel' (suc x / 2) (y / 2) (omega arith) (omega arith))

  last_digit :
      (x y : ℕ)
      → op (suc x % 2) (y % 2) + 2 * bitwise left op (suc x / 2) (y / 2) ≡ bitwise left op (suc x) y
  last_digit x y =
      omega
        (arith, digits_fuel x (suc x / 2) (suc x / 2) (y / 2) (omega arith) (le_refl (suc x / 2)))

or_halves : (x y : ℕ) → max (x % 2) (y % 2) + 2 * bit_or (x / 2) (y / 2) ≡ bit_or x y
or_halves zero y = simp bit_or-bitwise (omega arith)
or_halves (suc x) y = simp bit_or-bitwise (last_digit (λ v. v) max x y)

and_halves : (x y : ℕ) → min (x % 2) (y % 2) + 2 * bit_and (x / 2) (y / 2) ≡ bit_and x y
and_halves zero y = simp bit_and-bitwise (omega arith)
and_halves (suc x) y = simp bit_and-bitwise (last_digit (λ v. 0) min x y)

-- A binary digit is 0 or 1.
pub bit-le : (w i : ℕ) → bit w i ≤ 1
bit-le w zero = omega arith
bit-le w (suc i) = bit-le (w / 2) i

half_or : (a b : ℕ) → bit_or a b / 2 ≡ bit_or (a / 2) (b / 2)
half_or a b = omega (arith, or_halves a b)

-- `a | b` has the digits of `a` and of `b`.
pub bit-bit_or : (a b i : ℕ) → bit (bit_or a b) i ≡ max (bit a i) (bit b i)
bit-bit_or a b zero = omega (arith, or_halves a b)
bit-bit_or a b (suc i) = rw half_or (bit-bit_or (a / 2) (b / 2) i)

pub bit-zero : (i : ℕ) → bit 0 i ≡ 0
bit-zero zero = refl
bit-zero (suc i) = bit-zero i

half_pow : (w k : ℕ) → w / 2 ^ suc k ≡ w / 2 / 2 ^ k
half_pow w k = rw (pow-suc 2 k, mul_comm (2 ^ k) 2, ← div-div-eq-div-mul w 2 (2 ^ k))

-- `w >> k`
pub bit-shr : (w k i : ℕ) → bit (w / 2 ^ k) i ≡ bit w (k + i)
bit-shr w zero i = rw (zero-add, div-one)
bit-shr w (suc k) i = rw (suc-add, half_pow w k) (bit-shr (w / 2) k i)

half_shl : (w k : ℕ) → w * 2 ^ suc k / 2 ≡ w * 2 ^ k
half_shl w k = rw (pow-suc 2 k) (omega arith)

-- `w << k`, before it is cut to the word's width
pub bit-shl_lt : (w k i : ℕ) → i < k → bit (w * 2 ^ k) i ≡ 0
bit-shl_lt w zero i h = elim h [ ]
bit-shl_lt w (suc k) zero h = rw (pow-suc 2 k) (omega arith)
bit-shl_lt w (suc k) (suc i) h = rw (half_shl w k) (bit-shl_lt w k i (omega arith))

times_one : (w : ℕ) → w * 2 ^ 0 ≡ w
times_one w = omega arith

pub bit-shl_add : (w k i : ℕ) → bit (w * 2 ^ k) (k + i) ≡ bit w i
bit-shl_add w zero i = rw (zero-add, times_one w)
bit-shl_add w (suc k) i =
    rw suc-add (subst (λ v. bit v (k + i) ≡ bit w i) (sym (half_shl w k)) (bit-shl_add w k i))

-- Cutting to `n` digits keeps those below `n`.
half_cut : (w n : ℕ) → w % 2 ^ suc n / 2 ≡ w / 2 % 2 ^ n
half_cut w n =
    rw (pow-suc 2 n, mod-eq-sub-mul-div w (2 ^ n * 2), mod-eq-sub-mul-div (w / 2) (2 ^ n))
      (rw (div-div-eq-div-mul w 2 (2 ^ n), mul_comm 2 (2 ^ n)) (omega arith))

pub bit-cut : (w n i : ℕ) → i < n → bit (w % 2 ^ n) i ≡ bit w i
bit-cut w zero i h = elim h [ ]
bit-cut w (suc n) zero h =
    rw (pow-suc 2 n, mod-eq-sub-mul-div w (2 ^ n * 2)) (omega (arith, mul-div-le w (2 ^ n * 2)))
bit-cut w (suc n) (suc i) h = rw (half_cut w n) (bit-cut (w / 2) n i (omega arith))

only_zero : (w : ℕ) → w < 2 ^ 0 → w ≡ 0
only_zero w h = omega arith

pub bit-beyond : (w n i : ℕ) → w < 2 ^ n → n ≤ i → bit w i ≡ 0
bit-beyond w zero i h p = rw (only_zero w h) (bit-zero i)
bit-beyond w (suc n) zero h p = absurd (omega arith)
bit-beyond w (suc n) (suc i) h p = bit-beyond (w / 2) n i (omega (arith, pow-suc 2 n)) (omega arith)

half_pow_self : (k : ℕ) → 2 ^ suc k / 2 ≡ 2 ^ k
half_pow_self k = rw (pow-suc 2 k) (omega arith)

pub bit-pow_self : (k : ℕ) → bit (2 ^ k) k ≡ 1
bit-pow_self zero = refl
bit-pow_self (suc k) = rw half_pow_self (bit-pow_self k)

pub bit-pow_ne : (k i : ℕ) → i ≢ k → bit (2 ^ k) i ≡ 0
bit-pow_ne zero zero h = absurd (h refl)
bit-pow_ne zero (suc i) h = bit-zero i
bit-pow_ne (suc k) zero h = rw (pow-suc 2 k) (omega arith)
bit-pow_ne (suc k) (suc i) h = rw half_pow_self (bit-pow_ne k i (λ e. h (ap suc e)))

-- Nothing is left of `w & 0`, by recursion on a bound of `w`.
and_nothing : (bound w : ℕ) → w ≤ bound → bit_and w 0 ≡ 0
and_nothing zero (suc w) h = absurd (omega arith)
and_nothing (suc bound) (suc w) h =
    omega (arith, and_nothing bound (suc w / 2) (omega arith), and_halves (suc w) 0)
and_nothing bound zero h = refl

-- `w & (1 << k)` isolates bit `k`.
pub bit_and-pow : (w k : ℕ) → bit_and w (2 ^ k) ≡ bit w k * 2 ^ k
bit_and-pow w zero = omega (arith, and_halves w 1, and_nothing (w / 2) (w / 2) (le_refl _))
bit_and-pow w (suc k) =
    rw (← and_halves w (2 ^ suc k), half_pow_self k, bit_and-pow (w / 2) k, pow-suc 2 k)
      (omega arith)

-- The digits of `a | b` fit where those of `a` and `b` fit.
pub bit_or-lt : (n a b : ℕ) → a < 2 ^ n → b < 2 ^ n → bit_or a b < 2 ^ n
bit_or-lt zero a b ha hb = rw (only_zero a ha, only_zero b hb) (omega arith)
bit_or-lt (suc n) a b ha hb = omega (
  arith,
  or_halves a b,
  pow-suc 2 n,
  bit_or-lt n (a / 2) (b / 2) (omega (arith, pow-suc 2 n)) (omega (arith, pow-suc 2 n)),
)
