-- ===== src/Replay.antt =====
-- pkg/tunnel/replay.go: the sliding-bitmap anti-replay filter of both transports, with the
-- multi-word shift written as the source writes it. `Check` and `Admissible` run under the
-- window's mutex, so each is one step on the window.
pub mod Shift
pub mod Words
pub mod Model
pub mod Refine
pub mod Runs
mod Tests
use Prim.Native.Nat.{bit_or, bit_and}
use quantum_go.Base.{
  ℕ, zero, suc, ◌+◌, ◌-◌, ◌*◌, ◌/◌, ◌%◌, ◌^◌, Bool, true, false, not, ◌&&◌, List, [], ◌∷◌, ltb, leb,
  ◌==◌, if◌then◌else◌, length, get_or, set, replicate,
}

abbrev pub replay_word_bits : ℕ
replay_word_bits = 64

abbrev pub datagram_replay_window_size : ℕ
datagram_replay_window_size = 1024

-- `DatagramReplayWindow`: bit `i` of the bitmap stands for the sequence number `high_seq - i`.
pub record Window : Type 0 where
  pub bitmap : List ℕ
  pub high_seq : ℕ
  pub size : ℕ
  pub seen : Bool

-- `NewDatagramReplayWindowSize`; the sum is a uint64 sum.
unfoldable pub new_window_size : ℕ → Window
new_window_size size =
    let wanted = if size == 0 then datagram_replay_window_size else size in
    let words = (wanted + replay_word_bits - 1) % 2 ^ 64 / replay_word_bits in
    record {
      bitmap = replicate words 0;
      high_seq = 0;
      size = words * replay_word_bits % 2 ^ 64;
      seen = false;
    }

unfoldable pub new_window : Window
unfolding new_window_size
new_window = new_window_size datagram_replay_window_size

-- `1 << (pos % 64)` as a uint64
abbrev pub mask : ℕ → ℕ
mask pos = 2 ^ (pos % replay_word_bits)

-- `setBit`
unfoldable pub set_bit : List ℕ → ℕ → List ℕ
set_bit bitmap pos =
    set bitmap (pos / replay_word_bits)
      (bit_or (get_or bitmap (pos / replay_word_bits) 0) (mask pos))

-- `testBit`
unfoldable pub test_bit : List ℕ → ℕ → Bool
test_bit bitmap pos = not (bit_and (get_or bitmap (pos / replay_word_bits) 0) (mask pos) == 0)

-- The value that the loop of `advance` stores at word `i`.
unfoldable pub shifted_word : List ℕ → ℕ → ℕ → ℕ → ℕ
shifted_word bitmap word_shift bit_shift i =
    if leb word_shift i
    then (let src = i - word_shift in
        let v = get_or bitmap src 0 * 2 ^ bit_shift % 2 ^ 64 in
        if not (bit_shift == 0) && leb 1 src
        then bit_or v (get_or bitmap (src - 1) 0 / 2 ^ (replay_word_bits - bit_shift))
        else v)
    else 0

-- The loop of `advance`, in place, for the words `n - 1` down to 0.
unfoldable pub shift_loop : ℕ → ℕ → ℕ → List ℕ → List ℕ
shift_loop zero word_shift bit_shift bitmap = bitmap
shift_loop (suc i) word_shift bit_shift bitmap =
    shift_loop i word_shift bit_shift (set bitmap i (shifted_word bitmap word_shift bit_shift i))

-- The loop that clears the whole window.
unfoldable pub clear : List ℕ → List ℕ
clear [] = []
clear (w ∷ ws) = 0 ∷ clear ws

-- `advance`
unfoldable pub advance : List ℕ → ℕ → ℕ → List ℕ
advance bitmap size delta =
    if leb size delta
    then clear bitmap
    else shift_loop (length bitmap) (delta / replay_word_bits) (delta % replay_word_bits) bitmap

-- `Check`: the verdict, and the window after it.
unfoldable pub check : Window → ℕ → Window × Bool
check w seq =
    if not w.seen
    then (record w { bitmap = set_bit w.bitmap 0; high_seq = seq; seen = true }, true)
    else if ltb w.high_seq seq
    then (
      record w { bitmap = set_bit (advance w.bitmap w.size (seq - w.high_seq)) 0; high_seq = seq },
      true,
    )
    else if seq == w.high_seq
    then (w, false)
    else (let diff = w.high_seq - seq in
        if leb w.size diff
        then (w, false)
        else if test_bit w.bitmap diff
        then (w, false)
        else (record w { bitmap = set_bit w.bitmap diff }, true))

-- `Admissible`
unfoldable pub admissible : Window → ℕ → Bool
admissible w seq =
    if not w.seen
    then true
    else if ltb w.high_seq seq
    then true
    else if seq == w.high_seq
    then false
    else (let diff = w.high_seq - seq in
        if leb w.size diff then false else not (test_bit w.bitmap diff))

-- `Check` on one sequence number after another.
unfoldable pub run : Window → List ℕ → Window × List Bool
run w [] = (w, [])
run w (seq ∷ seqs) =
    let (w', verdict) = check w seq in
    let (w'', verdicts) = run w' seqs in (w'', verdict ∷ verdicts)
