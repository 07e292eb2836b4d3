-- ===== src/Session/Delivery.antt =====
-- A record between two ends, from sealing to opening, and at the boundary of a rekey.
use quantum_go.Base.{
  ℕ, ◌-◌, ◌≡◌, refl, sym, ap, ◌∙◌, Bool, true, false, ◌&&◌, Option, none, some, List, ◌++◌, leb,
  if◌then◌else◌, length, length-append, length-take, length-replicate, take, replicate, arith,
}
use quantum_go.Base.Go.{Error, ok, err, replay_detected}
use quantum_go.Base.Bytes.{put_uint64}
use quantum_go.Crypto.{Primitives, IsLawful}
use quantum_go.Crypto.Aead.{Aead, max_packets_before_rekey, open_with_nonce}
use quantum_go.Crypto.Sealing.{open-seal_with_nonce}
use quantum_go.Replay.{Window, check}
use quantum_go.Replay.Model.{model_check}
use quantum_go.Replay.Refine.{Tracks, check_refines}
use quantum_go.Session.{Session, build_aead_nonce}
use quantum_go.Session.Records.{
  next_seq, seal_record, open_trial, encrypt, open_record, decrypt, count_sent, count_received,
  promote_pending_recv_cipher,
}

pub build_aead_nonce-length :
    (prefix : List ℕ) (seq : ℕ) → length (build_aead_nonce prefix seq) ≡ 12
unfolding build_aead_nonce
build_aead_nonce-length prefix seq = omega (
  arith,
  length-append (take 4 prefix ++ replicate (4 - length prefix) 0) (put_uint64 seq),
  length-append (take 4 prefix) (replicate (4 - length prefix) 0),
  length-take 4 prefix,
  length-replicate {A = ℕ} (4 - length prefix) 0,
)

-- The window refuses a number that it has just accepted.
pub model_check_again :
    (size : ℕ) (history : List ℕ) (seq : ℕ)
    → (model_check size history seq).1 ≡ true
    → (model_check size (model_check size history seq).0 seq).1 ≡ false
unfolding model_check
model_check_again size history seq h = ground arith

check_again :
    (w : Window) (history : List ℕ) (seq : ℕ)
    → Tracks w history
    → (check w seq).1 ≡ true
    → (check (check w seq).0 seq).1 ≡ false
check_again w history seq t h =
    let once = check_refines w history seq t in
    let twice = check_refines (check w seq).0 (model_check w.size history seq).0 seq once.tracks in
    twice.verdict ∙ rw once.same_size (model_check_again w.size history seq (sym once.verdict ∙ h))

-- Two ends that fit: the sender's cipher is one the receiver holds, under the same nonce prefix.
pub record Fits {K : Type 0} (a b : Session K) (x y : Aead) : Type 0 where
  pub sends : a.send_cipher ≡ some x
  pub same_suite : y.suite ≡ x.suite
  pub same_key : y.key ≡ x.key
  pub same_prefix : b.recv_nonce_prefix ≡ a.send_nonce_prefix
  pub unworn :
      leb a.send_epoch_start_seq a.send_seq
        && leb max_packets_before_rekey (a.send_seq - a.send_epoch_start_seq)
      ≡ false

module _ (p : Primitives) where
  pub open_first :
      (y : Aead) (pending : Option Aead) (nonce c aad plaintext : List ℕ)
      → open_with_nonce p y nonce c aad ≡ ok plaintext
      → open_trial p y pending nonce c aad ≡ ok (plaintext, false)
  unfolding open_trial
  open_first y pending nonce c aad plaintext h = ground (arith, h)

  open_second :
      (old y : Aead) (pending : Option Aead) (nonce c aad plaintext : List ℕ) (e : Error)
      → pending ≡ some y
      → open_with_nonce p old nonce c aad ≡ err e
      → open_with_nonce p y nonce c aad ≡ ok plaintext
      → open_trial p old pending nonce c aad ≡ ok (plaintext, true)
  unfolding open_trial
  open_second old y pending nonce c aad plaintext e hy h h' = ground (arith, hy, h, h')

  -- A number that the window refuses is refused as a replay.
  pub decrypt_replay :
      {K : Type 0} (now : ℕ) (b : Session K) (y : Aead) (c : List ℕ) (seq : ℕ)
      → b.recv_cipher ≡ some y
      → (check b.replay_window seq).1 ≡ false
      → (decrypt p now b c seq).1 ≡ err replay_detected
  unfolding decrypt
  decrypt_replay now b y c seq hy h = ground (arith, hy, h)

promote_out :
    {K : Type 0} (s : Session K) (y : Aead)
    → s.pending_recv_cipher ≡ some y
    → promote_pending_recv_cipher s ≡ record s { recv_cipher = some y; pending_recv_cipher = none }
unfolding promote_pending_recv_cipher
promote_out s y h = ground (arith, h)

module _ (p : Primitives) (laws : IsLawful p) {K : Type 0} where
  -- The sender's half: a ciphertext, which every cipher of the same suite and key opens.
  pub encrypt_out :
      (now : ℕ) (a b : Session K) (x y : Aead) (plaintext : List ℕ)
      → Fits a b x y
      → (c : List ℕ) × (encrypt p now a plaintext
          ≡ (count_sent now (next_seq a).0 (length plaintext), ok (c, a.send_seq)))
        × (open_with_nonce p y
              (build_aead_nonce b.recv_nonce_prefix a.send_seq)
              c
              (put_uint64 a.send_seq)
            ≡ ok plaintext)
  unfolding encrypt next_seq seal_record
  encrypt_out now a b x y plaintext f =
      let (c, sealed, opened) =
        open-seal_with_nonce p laws x y (build_aead_nonce a.send_nonce_prefix a.send_seq) plaintext
          (put_uint64 a.send_seq) f.same_suite f.same_key
          (build_aead_nonce-length a.send_nonce_prefix a.send_seq) in
      (c, ground (arith, f.sends, f.unworn, sealed), rw f.same_prefix opened)

  -- The receiver's half, for a number that is fresh.
  pub decrypt_out :
      (now : ℕ) (b : Session K) (y : Aead) (c plaintext : List ℕ) (seq : ℕ) (promoted : Bool)
      → b.recv_cipher ≡ some y
      → (check b.replay_window seq).1 ≡ true
      → open_trial p y b.pending_recv_cipher
          (build_aead_nonce b.recv_nonce_prefix seq)
          c
          (put_uint64 seq)
        ≡ ok (plaintext, promoted)
      → let s1 = record b { replay_window = (check b.replay_window seq).0 } in
        decrypt p now b c seq ≡ (
          count_received now
              (if promoted then promote_pending_recv_cipher s1 else s1)
              (length plaintext),
          ok plaintext,
        )
  unfolding decrypt open_record
  decrypt_out now b y c plaintext seq promoted hy hc ho = ground (arith, hy, hc, ho)

  -- At the boundary of a rekey: where the receiver's own cipher refuses what the sender seals and
  -- its pending cipher has the sender's key, the record is opened, the pending cipher takes over, and the
  -- record is refused when it is replayed.
  pub decrypt-encrypt_boundary :
      (now : ℕ) (a b : Session K) (x y old : Aead) (history plaintext : List ℕ)
      → Fits a b x y
      → b.recv_cipher ≡ some old
      → b.pending_recv_cipher ≡ some y
      → ((c : List ℕ) (a' : Session K)
          → encrypt p now a plaintext ≡ (a', ok (c, a.send_seq))
          → (e : Error) × (open_with_nonce p old
                (build_aead_nonce b.recv_nonce_prefix a.send_seq)
                c
                (put_uint64 a.send_seq)
              ≡ err e))
      → Tracks b.replay_window history
      → (model_check b.replay_window.size history a.send_seq).1 ≡ true
      → (a' : Session K) × (b' : Session K) × (c : List ℕ) × (encrypt p now a plaintext
          ≡ (a', ok (c, a.send_seq)))
        × (decrypt p now b c a.send_seq ≡ (b', ok plaintext))
        × (b'.recv_cipher ≡ some y)
        × (b'.pending_recv_cipher ≡ none)
        × ((decrypt p now b' c a.send_seq).1 ≡ err replay_detected)
  unfolding count_received
  decrypt-encrypt_boundary now a b x y old history plaintext f ho hy refuses t admitted =
      let (c, sealed, opened) = encrypt_out now a b x y plaintext f in
      let (e, refused) = refuses c (count_sent now (next_seq a).0 (length plaintext)) sealed in
      let accepted = (check_refines b.replay_window history a.send_seq t).verdict ∙ admitted in
      let s1 : Session K = record b { replay_window = (check b.replay_window a.send_seq).0 } in
      let b' : Session K = record s1 { recv_cipher = some y; pending_recv_cipher = none } in
      (
        count_sent now (next_seq a).0 (length plaintext),
        count_received now b' (length plaintext),
        c,
        sealed,
        decrypt_out now b old c plaintext a.send_seq true ho accepted
              (open_second p old y b.pending_recv_cipher _ c _ plaintext e hy refused opened)
            ∙ ap (λ s. (count_received now s (length plaintext), ok plaintext))
                (promote_out s1 y hy),
        refl,
        refl,
        decrypt_replay p now (count_received now b' (length plaintext)) y c a.send_seq refl
            (check_again b.replay_window history a.send_seq t accepted),
      )
