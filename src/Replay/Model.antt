-- ===== src/Replay/Model.antt =====
-- The replay filter as its callers see it: the list of the sequence numbers accepted so far, with
-- no bitmap. A number is fresh if it was not accepted before and is less than `size` behind the
-- highest accepted one.
use quantum_go.Base.{
  ℕ, ◌+◌, ◌≤◌, ◌≡◌, max, Bool, true, false, not, ◌&&◌, ◌||◌, List, [], ◌∷◌, ltb, ◌==◌,
  if◌then◌else◌, arith,
}

abbrev pub elem : ℕ → List ℕ → Bool
elem x [] = false
elem x (y ∷ ys) = x == y || elem x ys

abbrev pub highest : List ℕ → ℕ
highest [] = 0
highest (x ∷ xs) = max x (highest xs)

abbrev pub fresh : ℕ → List ℕ → ℕ → Bool
fresh size history seq = not (elem seq history) && ltb (highest history) (seq + size)

unfoldable pub model_check : ℕ → List ℕ → ℕ → List ℕ × Bool
model_check size history seq =
    if fresh size history seq then (seq ∷ history, true) else (history, false)

unfoldable pub model_run : ℕ → List ℕ → List ℕ → List ℕ × List Bool
model_run size history [] = (history, [])
model_run size history (seq ∷ seqs) =
    let (history', verdict) = model_check size history seq in
    let (history'', verdicts) = model_run size history' seqs in (history'', verdict ∷ verdicts)

pub elem-le_highest : (x : ℕ) (xs : List ℕ) → elem x xs ≡ true → x ≤ highest xs
elem-le_highest x [] h = absurd (ground arith)
elem-le_highest x (y ∷ ys) h = ground (arith, elem-le_highest x ys)
