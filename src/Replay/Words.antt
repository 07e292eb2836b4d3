-- ===== src/Replay/Words.antt =====
-- The words of the window stay uint64 values.
use quantum_go.Base.{
  ℕ, suc, ◌-◌, ◌*◌, ◌/◌, ◌%◌, ◌^◌, ◌≤◌, ◌<◌, List, length, get_or, set, arith, length-set,
  get_or-set_self, get_or-set_ne, get_or-beyond, ℕ_discrete,
}
use quantum_go.Base.Bits.{bit_or-lt}
use quantum_go.Replay.{set_bit, shifted_word, advance}
use native.Mathlib.Nat.{div-le_self, pow-le-pow_right, pow-suc}
use Prim.Native.Nat.{bit_or}
use quantum_go.Replay.Shift.{AreWords, pow_pos, get_or-shift_loop, get_or-clear}

power_lt : (k : ℕ) → k < 64 → 2 ^ k < 2 ^ 64
power_lt k h =
    let doubled : 2 ^ suc k ≤ 2 ^ 64 = pow-le-pow_right (omega arith) h in
    omega (arith, doubled, pow-suc 2 k, pow_pos k)

-- Every word stays a uint64.
pub set_bit-AreWords : (bitmap : List ℕ) (p : ℕ) → AreWords bitmap → AreWords (set_bit bitmap p)
unfolding set_bit
set_bit-AreWords bitmap p words i =
    let w = get_or bitmap (p / 64) 0 in
    let v = bit_or w (2 ^ (p % 64)) in
    let small : v < 2 ^ 64 =
      bit_or-lt 64 w (2 ^ (p % 64)) (words (p / 64)) (power_lt (p % 64) (omega arith)) in
    elim (ℕ_discrete (p / 64) i) [
      | yes e ↦ rw (← e) (
          ground (
            arith,
            get_or-set_self bitmap (p / 64) v 0,
            get_or-beyond (set bitmap (p / 64) v) (p / 64) 0,
            length-set bitmap (p / 64) v,
            small,
          ))
      | no e ↦ rw (get_or-set_ne bitmap (p / 64) i v 0 e) (words i)
    ]

shifted_word-lt :
    (bitmap : List ℕ) (ws bs i : ℕ) → AreWords bitmap → shifted_word bitmap ws bs i < 2 ^ 64
unfolding shifted_word
shifted_word-lt bitmap ws bs i words =
    let w = get_or bitmap (i - ws) 0 in
    let prev = get_or bitmap (i - ws - 1) 0 in
    ground (
      arith,
      words (i - ws - 1),
      div-le_self prev (2 ^ (64 - bs)),
      bit_or-lt 64 (w * 2 ^ bs % 2 ^ 64) (prev / 2 ^ (64 - bs)),
    )

pub advance-AreWords :
    (bitmap : List ℕ) (size delta : ℕ) → AreWords bitmap → AreWords (advance bitmap size delta)
unfolding advance
advance-AreWords bitmap size delta words i =
    let ws = delta / 64 in
    let bs = delta % 64 in
    ground (
      arith,
      get_or-clear bitmap i,
      get_or-shift_loop (length bitmap) ws bs bitmap i,
      shifted_word-lt bitmap ws bs i words,
      words i,
    )
