-- ===== src/Replay/Tests.antt =====
-- Runs of the replay filter on concrete numbers, and the theorems at concrete inputs.
use quantum_go.Base.{ℕ, ◌≡◌, ◌≤◌, refl, true, false, List, [], ◌∷◌, arith}
use quantum_go.Replay.{
  new_window_size, set_bit, test_bit, shifted_word, shift_loop, clear, advance, check, run,
}
use quantum_go.Replay.Model.{model_run}
use quantum_go.Replay.Runs.{rounded, run_refines, times_accepted, run_accepts_once}

-- A jump, a number at the trailing edge, one just behind it, repetitions, and a jump over the
-- whole window.
abbrev arrivals : List ℕ
arrivals = 5 ∷ 100 ∷ 37 ∷ 36 ∷ 37 ∷ 100 ∷ 99 ∷ 1000 ∷ 99 ∷ 999 ∷ []

run_verdicts :
    (run (new_window_size 64) arrivals).1
    ≡ true ∷ true ∷ true ∷ false ∷ false ∷ false ∷ true ∷ true ∷ false ∷ true ∷ []
unfolding run check new_window_size set_bit test_bit shifted_word shift_loop clear advance
run_verdicts = refl

wide_window_keeps_late_numbers :
    (run (new_window_size 0) (2000 ∷ 1200 ∷ 2500 ∷ 1600 ∷ 1200 ∷ 2000 ∷ 1476 ∷ [])).1
    ≡ true ∷ true ∷ true ∷ true ∷ false ∷ false ∷ false ∷ []
unfolding run check new_window_size set_bit test_bit shifted_word shift_loop clear advance
wide_window_keeps_late_numbers = refl

run_refines_example : (run (new_window_size 64) arrivals).1 ≡ (model_run (rounded 64) [] arrivals).1
run_refines_example = run_refines 64 arrivals (omega arith)

run_accepts_once_example : times_accepted 37 arrivals (run (new_window_size 64) arrivals).1 ≤ 1
run_accepts_once_example = run_accepts_once 64 37 arrivals (omega arith)
