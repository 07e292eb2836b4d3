-- ===== src/Replay/Refine.antt =====
-- The bitmap window refines the model of Replay/Model: the invariant that ties the two, and what
-- it gives for `check`, `admissible` and whole runs.
use quantum_go.Base.{
  ℕ, ◌-◌, ◌*◌, ◌/◌, ◌≤◌, ◌<◌, ◌≡◌, refl, ◌∙◌, Bool, true, false, List, [], ◌∷◌, ltb, leb, ◌==◌,
  length, arith, Bool-cases, inl, inr, length-set,
}
use quantum_go.Replay.{Window, set_bit, test_bit, advance, check}
use quantum_go.Replay.Shift.{
  window_bit, AreWords, test_bit_lem, window_bit-set_bit, length-advance, window_bit-advance,
}
use quantum_go.Replay.Words.{set_bit-AreWords, advance-AreWords}
use quantum_go.Replay.Model.{elem, highest, model_check, elem-le_highest}

-- The window `w` stands for the accepted numbers `history`.
pub record Tracks (w : Window) (history : List ℕ) : Type 0 where
  pub words : AreWords w.bitmap
  pub width : w.size ≡ 64 * length w.bitmap
  pub width_pos : 0 < w.size
  pub unseen : w.seen ≡ false → history ≡ []
  pub unseen_clear : (p : ℕ) → w.seen ≡ false → window_bit w.bitmap p ≡ 0
  pub head : w.seen ≡ true → w.high_seq ≡ highest history
  pub head_elem : w.seen ≡ true → elem w.high_seq history ≡ true
  pub bits :
      (p : ℕ)
      → w.seen ≡ true
      → p < w.size
      → p ≤ w.high_seq
      → (window_bit w.bitmap p == 1) ≡ elem (w.high_seq - p) history

nothing : (a : ℕ) (history : List ℕ) → history ≡ [] → elem a history ≡ false
nothing a history h = rw h

same_elem : (a b : ℕ) (history : List ℕ) → a ≡ b → elem a history ≡ elem b history
same_elem a b history h = rw h

length-set_bit : (bitmap : List ℕ) (p : ℕ) → length (set_bit bitmap p) ≡ length bitmap
unfolding set_bit
length-set_bit bitmap p = length-set bitmap (p / 64) _

-- The first packet anchors the window.
first-Tracks :
    (w : Window) (history : List ℕ) (seq : ℕ)
    → Tracks w history
    → w.seen ≡ false
    → Tracks (record w { bitmap = set_bit w.bitmap 0; high_seq = seq; seen = true }) (seq ∷ history)
first-Tracks w history seq t e = record {
  words = set_bit-AreWords w.bitmap 0 t.words;
  width = omega (arith, t.width, length-set_bit w.bitmap 0);
  width_pos = t.width_pos;
  unseen = λ h. cc;
  unseen_clear = λ p h. cc;
  head = λ h. ground (arith, t.unseen e);
  head_elem = λ h. ground arith;
  bits = λ p h lt le. ground (
    arith,
    t.width,
    t.unseen e,
    t.unseen_clear p e,
    window_bit-set_bit w.bitmap 0 p,
    nothing (seq - p) history,
  );
}

-- A late number inside the window sets its bit.
late-Tracks :
    (w : Window) (history : List ℕ) (seq : ℕ)
    → Tracks w history
    → w.seen ≡ true
    → seq < w.high_seq
    → w.high_seq - seq < w.size
    → Tracks (record w { bitmap = set_bit w.bitmap (w.high_seq - seq) }) (seq ∷ history)
late-Tracks w history seq t e lt inside =
    let diff = w.high_seq - seq in
    record {
      words = set_bit-AreWords w.bitmap diff t.words;
      width = omega (arith, t.width, length-set_bit w.bitmap diff);
      width_pos = t.width_pos;
      unseen = λ h. cc;
      unseen_clear = λ p h. cc;
      head = λ h. omega (arith, t.head e);
      head_elem = λ h. ground (arith, t.head_elem e);
      bits = λ p h below le. ground (arith, t.width, window_bit-set_bit w.bitmap diff p, t.bits p);
    }

-- A newer number moves the window.
newer-Tracks :
    (w : Window) (history : List ℕ) (seq : ℕ)
    → Tracks w history
    → w.seen ≡ true
    → w.high_seq < seq
    → Tracks
        (record w {
          bitmap = set_bit (advance w.bitmap w.size (seq - w.high_seq)) 0;
          high_seq = seq;
        })
        (seq ∷ history)
newer-Tracks w history seq t e lt =
    let delta = seq - w.high_seq in
    let moved = advance w.bitmap w.size delta in
    record {
      words = set_bit-AreWords moved 0 (advance-AreWords w.bitmap w.size delta t.words);
      width = omega (arith, t.width, length-set_bit moved 0, length-advance w.bitmap w.size delta);
      width_pos = t.width_pos;
      unseen = λ h. cc;
      unseen_clear = λ p h. cc;
      head = λ h. omega (arith, t.head e);
      head_elem = λ h. ground arith;
      bits = λ p h below le. ground (
        arith,
        t.width,
        window_bit-set_bit moved 0 p,
        length-advance w.bitmap w.size delta,
        window_bit-advance w.bitmap w.size delta p t.width t.words,
        t.bits (p - delta),
        t.head e,
        elem-le_highest (seq - p) history,
        same_elem (seq - p) (w.high_seq - (p - delta)) history,
      );
    }

-- `check` and the model answer alike, and the windows go on standing for the histories.
pub record Agree (size : ℕ) (window : Window × Bool) (model : List ℕ × Bool) : Type 0 where
  pub tracks : Tracks window.0 model.0
  pub verdict : window.1 ≡ model.1
  pub same_size : window.0.size ≡ size

agree :
    (w w' : Window) (history history' : List ℕ) (seq : ℕ) (v : Bool)
    → check w seq ≡ (w', v)
    → model_check w.size history seq ≡ (history', v)
    → Tracks w' history'
    → w'.size ≡ w.size
    → Agree w.size (check w seq) (model_check w.size history seq)
agree w w' history history' seq v p q t e =
    rw (p, q) (record { tracks = t; verdict = refl; same_size = e })

module _ (w : Window) (history : List ℕ) (seq : ℕ) (t : Tracks w history) where
  refines_first : w.seen ≡ false → Agree w.size (check w seq) (model_check w.size history seq)
  unfolding check model_check
  refines_first e =
      agree w _ history (seq ∷ history) seq true (ground arith)
        (ground (arith, t.unseen e, nothing seq history, t.width_pos, none_higher))
        (first-Tracks w history seq t e) refl
    where
      none_higher : highest history ≡ 0
      none_higher = rw (t.unseen e)

  refines_newer :
      w.seen ≡ true → w.high_seq < seq → Agree w.size (check w seq) (model_check w.size history seq)
  unfolding check model_check
  refines_newer e lt =
      agree w _ history (seq ∷ history) seq true (ground arith)
        (ground (arith, t.head e, elem-le_highest seq history)) (newer-Tracks w history seq t e lt)
        refl

  refines_rest :
      w.seen ≡ true → seq ≤ w.high_seq → Agree w.size (check w seq) (model_check w.size history seq)
  unfolding check model_check
  refines_rest e le = elim (Bool-cases (seq == w.high_seq)) [
    | inl equal ↦
        agree w w history history seq false (ground arith)
          (ground (arith, t.head_elem e, same_elem seq w.high_seq history)) t refl
    | inr other ↦ elim (Bool-cases (leb w.size (w.high_seq - seq))) [
      | inl old ↦
          agree w w history history seq false (ground arith) (ground (arith, t.head e)) t refl
      | inr inside ↦ elim (Bool-cases (test_bit w.bitmap (w.high_seq - seq))) [
        | inl dup ↦
            agree w w history history seq false (ground arith)
              (ground (arith, recorded, dup, test_bit_lem w.bitmap (w.high_seq - seq))) t refl
        | inr new ↦
            agree w _ history (seq ∷ history) seq true (ground arith)
              (ground (arith, recorded, new, test_bit_lem w.bitmap (w.high_seq - seq), t.head e))
              (late-Tracks w history seq t e (ground arith) (ground arith)) refl
      ]
    ]
  ]
    where
      recorded :
          w.high_seq - seq < w.size
          → (window_bit w.bitmap (w.high_seq - seq) == 1) ≡ elem seq history
      recorded h =
          t.bits (w.high_seq - seq) e h (omega arith)
          ∙ same_elem (w.high_seq - (w.high_seq - seq)) seq history (omega arith)

-- On a window that stands for a history, `check` gives the model's verdict, keeps the width, and its
-- window stands for the model's new history.
pub check_refines :
    (w : Window) (history : List ℕ) (seq : ℕ)
    → Tracks w history
    → Agree w.size (check w seq) (model_check w.size history seq)
check_refines w history seq t = elim (Bool-cases w.seen) [
  | inl e ↦ elim (Bool-cases (ltb w.high_seq seq)) [
    | inl newer ↦ refines_newer w history seq t e (ground arith)
    | inr rest ↦ refines_rest w history seq t e (ground arith)
  ]
  | inr e ↦ refines_first w history seq t e
]
