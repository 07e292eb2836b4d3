-- ===== src/Replay/Runs.antt =====
-- Whole runs of the replay filter, from a new window on.
use quantum_go.Base.{
  ℕ, ◌+◌, ◌*◌, ◌/◌, ◌%◌, ◌^◌, ◌≤◌, ◌<◌, ◌≡◌, refl, ap, ◌∙◌, Bool, ◌&&◌, List, [], ◌∷◌, ◌==◌,
  if◌then◌else◌, arith, length-replicate, get_or-replicate,
}
use quantum_go.Base.Bits.{bit-zero}
use quantum_go.Replay.{Window, new_window_size, check, admissible, run}
use quantum_go.Replay.Model.{elem, model_check, model_run}
use quantum_go.Replay.Refine.{Tracks, check_refines}

-- The width that `NewDatagramReplayWindowSize` gives a window: the default for 0, and rounded up
-- to a multiple of 64.
abbrev pub rounded : ℕ → ℕ
rounded size = ((if size == 0 then 1024 else size) + 63) / 64 * 64

-- A new window stands for the empty history, at the rounded width.
pub new_window_size-Tracks :
    (size : ℕ)
    → size + 63 < 2 ^ 64
    → Tracks (new_window_size size) [] × ((new_window_size size).size ≡ rounded size)
unfolding new_window_size
new_window_size-Tracks size h = (
  record {
    words = λ i. rw get_or-replicate (omega arith);
    width = rw length-replicate (ground arith);
    width_pos = ground arith;
    unseen = λ e. refl;
    unseen_clear = λ p e. rw get_or-replicate (bit-zero (p % 64));
    head = λ e. cc;
    head_elem = λ e. cc;
    bits = λ p e. cc;
  },
  ground arith,
)

-- `Admissible` foretells the verdict of `Check`, on every window.
pub admissible-check : (w : Window) (seq : ℕ) → admissible w seq ≡ (check w seq).1
unfolding admissible check
admissible-check w seq = ground arith

run-Tracks :
    (w : Window) (history seqs : List ℕ)
    → Tracks w history
    → (run w seqs).1 ≡ (model_run w.size history seqs).1
unfolding run model_run
run-Tracks w history [] t = refl
run-Tracks w history (seq ∷ seqs) t =
    let a = check_refines w history seq t in
    let ih = run-Tracks (check w seq).0 (model_check w.size history seq).0 seqs a.tracks in
    rw (a.verdict, ih, a.same_size)

-- On every list of sequence numbers a new window, of a size that rounds up within 64 bits, gives the verdicts of the model: a number is
-- accepted exactly when it was not accepted before and is less than the width behind the highest
-- accepted one.
pub run_refines :
    (size : ℕ) (seqs : List ℕ)
    → size + 63 < 2 ^ 64
    → (run (new_window_size size) seqs).1 ≡ (model_run (rounded size) [] seqs).1
run_refines size seqs h =
    let (t, e) = new_window_size-Tracks size h in
    run-Tracks (new_window_size size) [] seqs t ∙ ap (λ s. (model_run s [] seqs).1) e

-- How often `x` was accepted in a run.
abbrev pub times_accepted : ℕ → List ℕ → List Bool → ℕ
times_accepted x [] verdicts = 0
times_accepted x (seq ∷ seqs) [] = 0
times_accepted x (seq ∷ seqs) (v ∷ verdicts) =
    (if x == seq && v then 1 else 0) + times_accepted x seqs verdicts

abbrev once : ℕ → List ℕ → ℕ
once x history = if elem x history then 1 else 0

once-model_check :
    (size x : ℕ) (history : List ℕ) (seq : ℕ)
    → (if x == seq && (model_check size history seq).1 then 1 else 0) + once x history
      ≤ once x (model_check size history seq).0
unfolding model_check
once-model_check size x history seq = ground arith

model_accepts_once :
    (size x : ℕ) (history seqs : List ℕ)
    → times_accepted x seqs (model_run size history seqs).1 + once x history ≤ 1
unfolding model_run
model_accepts_once size x history [] = ground arith
model_accepts_once size x history (seq ∷ seqs) = omega (
  arith,
  once-model_check size x history seq,
  model_accepts_once size x (model_check size history seq).0 seqs,
)

-- Whatever the order and the repetitions, a new window, of a size that rounds up within 64 bits,
-- accepts no sequence number twice.
pub run_accepts_once :
    (size x : ℕ) (seqs : List ℕ)
    → size + 63 < 2 ^ 64
    → times_accepted x seqs (run (new_window_size size) seqs).1 ≤ 1
run_accepts_once size x seqs h =
    rw (run_refines size seqs h) (omega (arith, model_accepts_once (rounded size) x [] seqs))
