-- ===== src/Session/Replays.antt =====
-- A record between two ends, and the `Decrypt` calls that come after it.
use quantum_go.Base.{
  ℕ, ◌≡◌, refl, sym, subst, ◌∙◌, Bool, true, false, Option, none, some, List, [], ◌∷◌,
  if◌then◌else◌, length, arith,
}
use quantum_go.Base.Go.{ok, err, commit_keeps, replay_detected}
use quantum_go.Crypto.{Primitives, IsLawful}
use quantum_go.Crypto.Aead.{Aead}
use quantum_go.Replay.{check}
use quantum_go.Replay.Model.{model_check}
use quantum_go.Replay.Refine.{Tracks, check_refines}
use quantum_go.Session.{Session}
use quantum_go.Session.Delivery.{
  Fits, encrypt_out, decrypt_out, open_first, model_check_again, decrypt_replay,
}
use quantum_go.Session.Records.{
  next_seq, encrypt, open_record, decrypt, count_sent, count_received, promote_pending_recv_cipher,
}

-- A number that the filter refuses it refuses after any other number.
model_check_after :
    (size : ℕ) (history : List ℕ) (seq other : ℕ)
    → (model_check size history seq).1 ≡ false
    → (model_check size (model_check size history other).0 seq).1 ≡ false
unfolding model_check
model_check_after size history seq other h = ground (arith, h)

abbrev has_cipher : Option Aead → Bool
has_cipher none = false
has_cipher (some c) = true

has_cipher_is : (o : Option Aead) → has_cipher o ≡ true → (c : Aead) × (o ≡ some c)
has_cipher_is none h = absurd (ground (arith, h))
has_cipher_is (some c) h = (c, refl)

promote_keeps :
    {K : Type 0} (s : Session K)
    → has_cipher s.recv_cipher ≡ true
    → (has_cipher ((promote_pending_recv_cipher s).recv_cipher) ≡ true)
      × ((promote_pending_recv_cipher s).replay_window ≡ s.replay_window)
unfolding promote_pending_recv_cipher
promote_keeps s h = (ground (arith, h), ground arith)

opened_keeps :
    {K : Type 0} (now size : ℕ) (s : Session K) (promoted : Bool)
    → has_cipher s.recv_cipher ≡ true
    → let t = count_received now (if promoted then promote_pending_recv_cipher s else s) size in
      (has_cipher t.recv_cipher ≡ true) × (t.replay_window ≡ s.replay_window)
unfolding count_received
opened_keeps now size s false h = (h, refl)
opened_keeps now size s true h = promote_keeps s h

module _ (p : Primitives) {K : Type 0} where
  open_record_keeps :
      (now : ℕ) (s : Session K) (y : Aead) (c : List ℕ) (seq : ℕ)
      → has_cipher s.recv_cipher ≡ true
      → (has_cipher ((open_record p now s y c seq).0).recv_cipher ≡ true)
        × (((open_record p now s y c seq).0).replay_window ≡ s.replay_window)
  unfolding open_record count_received
  open_record_keeps now s y c seq h =
      commit_keeps (λ t. (has_cipher t.recv_cipher ≡ true) × (t.replay_window ≡ s.replay_window)) s
        _ _ (h, refl) (λ (opened : List ℕ × Bool). opened_keeps now (length opened.0) s opened.1 h)

  -- `Decrypt` enters the number into the window, and keeps some receive cipher.
  decrypt_keeps :
      (now : ℕ) (s : Session K) (c : List ℕ) (seq : ℕ) (y : Aead)
      → s.recv_cipher ≡ some y
      → (has_cipher ((decrypt p now s c seq).0).recv_cipher ≡ true)
        × (((decrypt p now s c seq).0).replay_window ≡ (check s.replay_window seq).0)
  unfolding decrypt
  decrypt_keeps now s c seq y h =
      let s1 : Session K = record s { replay_window = (check s.replay_window seq).0 } in
      let (has, kept) = open_record_keeps now s1 y c seq (rw h refl) in
      (ground (arith, h, has), ground (arith, h, kept))

  -- `Decrypt` calls one after another: the clock, the ciphertext and the number of each.
  unfoldable pub decrypt_all : Session K → List (ℕ × List ℕ × ℕ) → Session K
  decrypt_all s [] = s
  decrypt_all s ((now, c, seq) ∷ calls) = decrypt_all ((decrypt p now s c seq).0) calls

  -- The session refuses the number.
  record IsSpent (seq : ℕ) (s : Session K) : Type 0 where
    history : List ℕ
    can_open : has_cipher s.recv_cipher ≡ true
    tracks : Tracks s.replay_window history
    refused : (model_check s.replay_window.size history seq).1 ≡ false

  decrypt-IsSpent :
      (seq now other : ℕ) (c : List ℕ) (s : Session K)
      → IsSpent seq s
      → IsSpent seq ((decrypt p now s c other).0)
  decrypt-IsSpent seq now other c s h =
      let (y, e) = has_cipher_is s.recv_cipher h.can_open in
      let (has, kept) = decrypt_keeps now s c other y e in
      let entered = check_refines s.replay_window h.history other h.tracks in
      record {
        history = (model_check s.replay_window.size h.history other).0;
        can_open = has;
        tracks =
            subst (λ w. Tracks w (model_check s.replay_window.size h.history other).0) (sym kept)
              entered.tracks;
        refused =
            rw (kept, entered.same_size)
              (model_check_after s.replay_window.size h.history seq other h.refused);
      }

  decrypt_all-IsSpent :
      (seq : ℕ) (calls : List (ℕ × List ℕ × ℕ)) (s : Session K)
      → IsSpent seq s
      → IsSpent seq (decrypt_all s calls)
  unfolding decrypt_all
  decrypt_all-IsSpent seq [] s h = h
  decrypt_all-IsSpent seq ((now, c, other) ∷ calls) s h =
      decrypt_all-IsSpent seq calls ((decrypt p now s c other).0)
        (decrypt-IsSpent seq now other c s h)

  IsSpent-refuses :
      (seq now : ℕ) (c : List ℕ) (s : Session K)
      → IsSpent seq s
      → (decrypt p now s c seq).1 ≡ err replay_detected
  IsSpent-refuses seq now c s h =
      let (y, e) = has_cipher_is s.recv_cipher h.can_open in
      decrypt_replay p now s y c seq e
        ((check_refines s.replay_window h.history seq h.tracks).verdict ∙ h.refused)

module _ (p : Primitives) (laws : IsLawful p) {K : Type 0} where
  -- What a session encrypts, while its key has records left, is decrypted by a session that holds the
  -- same key and nonce prefix and whose window admits the number. However many Decrypt calls then
  -- follow, with whatever ciphertexts and numbers, the session refuses every ciphertext under that
  -- number as a replay.
  pub decrypt-encrypt :
      (now : ℕ) (a b : Session K) (x y : Aead) (history plaintext : List ℕ)
      → Fits a b x y
      → b.recv_cipher ≡ some y
      → Tracks b.replay_window history
      → (model_check b.replay_window.size history a.send_seq).1 ≡ true
      → (a' : Session K) × (b' : Session K) × (c : List ℕ) × (encrypt p now a plaintext
          ≡ (a', ok (c, a.send_seq)))
        × (decrypt p now b c a.send_seq ≡ (b', ok plaintext))
        × ((calls : List (ℕ × List ℕ × ℕ)) (later : ℕ) (replayed : List ℕ)
            → (decrypt p later (decrypt_all p b' calls) replayed a.send_seq).1
              ≡ err replay_detected)
  unfolding count_received
  decrypt-encrypt now a b x y history plaintext f hy t admitted =
      let (c, sealed, opened) = encrypt_out p laws now a b x y plaintext f in
      let entered = check_refines b.replay_window history a.send_seq t in
      let s1 : Session K = record b { replay_window = (check b.replay_window a.send_seq).0 } in
      let b' : Session K = count_received now s1 (length plaintext) in
      let spent : IsSpent p a.send_seq b' = record {
        history = (model_check b.replay_window.size history a.send_seq).0;
        can_open = rw hy refl;
        tracks = entered.tracks;
        refused =
            rw entered.same_size
              (model_check_again b.replay_window.size history a.send_seq admitted);
      } in
      (
        count_sent now (next_seq a).0 (length plaintext),
        b',
        c,
        sealed,
        decrypt_out p laws now b y c plaintext a.send_seq false hy (entered.verdict ∙ admitted)
            (open_first p y b.pending_recv_cipher _ c _ plaintext opened),
        λ calls later replayed.
            IsSpent-refuses p a.send_seq later replayed (decrypt_all p b' calls)
              (decrypt_all-IsSpent p a.send_seq calls b' spent),
      )
