-- ===== src/Session/Nonces.antt =====
-- The nonces of a session whose sealing calls interleave.
use quantum_go.Base.{
  ℕ, ◌+◌, ◌-◌, ◌%◌, ◌^◌, ◌≤◌, ◌<◌, ◌≡◌, ◌≢◌, refl, sym, ap, subst, Option, some, none, ◌∙◌,
  Bool-cases, inl, inr, ltb, ltb→lt, ltb→le, List, [], ◌∷◌, ◌++◌, ◌==◌, ==_refl, if◌then◌else◌,
  length, take, drop, get_or, replicate, All, length-append, length-take, length-replicate, arith,
}
use quantum_go.Base.Go.{ok, drop-append_eq}
use quantum_go.Base.Bytes.{put_uint64}
use quantum_go.Crypto.{Primitives}
use quantum_go.Crypto.Sealing.{Distinct}
use quantum_go.Crypto.Aead.{Aead, seal_with_nonce}
use quantum_go.DatagramRekey.{control_body}
use quantum_go.Session.Epochs.{seal_in_epoch}
use quantum_go.Session.{Session, EpochState, build_aead_nonce}
use quantum_go.Session.Rekeying.{Kem}
use quantum_go.Session.Sequence.{Call-send_seq}
use quantum_go.Session.Records.{next_seq, seal_record, count_sent}
use quantum_go.Session.Interleaving.{
  showing_nonce, World, Step, Reach, take_number, seal_number, seal_datagram, seal_control,
  lose_number, other, rest, after,
}

count : ℕ → List ℕ → ℕ
count n [] = 0
count n (x ∷ xs) = (if n == x then 1 else 0) + count n xs

count-append : (n : ℕ) (xs ys : List ℕ) → count n (xs ++ ys) ≡ count n xs + count n ys
unfolding count
count-append n [] ys = omega arith
count-append n (x ∷ xs) ys = omega (arith, count-append n xs ys)

-- The numbers of a list of prefixes and numbers, and their nonces.
numbers : List (List ℕ × ℕ) → List ℕ
numbers [] = []
numbers ((prefix, seq) ∷ rs) = seq ∷ numbers rs

nonces : List (List ℕ × ℕ) → List (List ℕ)
nonces [] = []
nonces ((prefix, seq) ∷ rs) = build_aead_nonce prefix seq ∷ nonces rs

-- The nonces stem from some prefixes and numbers. Each number below the bound was taken once at most,
-- and no other was taken.
record Counted {K : Type 0} (start : ℕ) (w : World K) : Type 0 where
  log : List (List ℕ × ℕ)
  logged : nonces log ≡ w.sealed
  once : (n : ℕ) → count n w.taken + count n (numbers log) ≤ 1
  below : (n : ℕ) → start + w.count_taken ≤ n → count n w.taken + count n (numbers log) ≡ 0
  next_is : w.session.send_seq ≡ (start + w.count_taken) % 2 ^ 64

count-middle :
    (n x : ℕ) (front back : List ℕ)
    → count n (front ++ (x ∷ back)) ≡ (if n == x then 1 else 0) + count n (front ++ back)
unfolding count
count-middle n x front back =
    omega (arith, count-append n front (x ∷ back), count-append n front back)

-- The nonce that each sealing hands to the cipher.
seal_record-nonce :
    (p : Primitives) (cipher : Option Aead) (prefix : List ℕ) (start seq : ℕ)
    (plaintext nonce : List ℕ)
    → seal_record (showing_nonce p) cipher prefix start seq plaintext ≡ ok nonce
    → build_aead_nonce prefix seq ≡ nonce
unfolding seal_record seal_with_nonce
seal_record-nonce p none prefix start seq plaintext nonce h = ground (arith, h)
seal_record-nonce p (some cipher) prefix start seq plaintext nonce h = ground (arith, h)

seal_in_epoch-nonce :
    (p : Primitives) (epochs : Option EpochState) (prefix aad : List ℕ) (seq : ℕ)
    (plaintext nonce : List ℕ)
    → seal_in_epoch (showing_nonce p) epochs prefix aad seq plaintext ≡ ok nonce
    → build_aead_nonce prefix seq ≡ nonce
unfolding seal_in_epoch seal_with_nonce
seal_in_epoch-nonce p none prefix aad seq plaintext nonce h = ground (arith, h)
seal_in_epoch-nonce p (some es) prefix aad seq plaintext nonce h = ground (arith, h)

control_body-nonce :
    (p : Primitives) (epochs : Option EpochState) (prefix : List ℕ) (msg_type seq epoch : ℕ)
    (payload shown : List ℕ)
    → control_body (showing_nonce p) epochs prefix msg_type seq payload ≡ ok (shown, epoch)
    → build_aead_nonce prefix seq ≡ drop 8 shown
unfolding control_body seal_with_nonce
control_body-nonce p none prefix msg_type seq epoch payload shown h = ground (arith, h)
control_body-nonce p (some es) prefix msg_type seq epoch payload shown h =
    ground (arith, h, drop-append_eq 8 (put_uint64 seq) (build_aead_nonce prefix seq) refl)

-- A call that seals under its number.
seals-Counted :
    {K : Type 0} (start : ℕ) (w : World K) (s : Session K) (seq : ℕ)
    (front back prefix nonce : List ℕ)
    → w.taken ≡ front ++ (seq ∷ back)
    → build_aead_nonce prefix seq ≡ nonce
    → s.send_seq ≡ w.session.send_seq
    → Counted start w
    → Counted start (record w { session = s; taken = front ++ back; sealed = nonce ∷ w.sealed })
unfolding numbers nonces count
seals-Counted start w s seq front back prefix nonce split handed same c = record {
  log = (prefix, seq) ∷ c.log;
  logged = rw (handed, c.logged);
  once = λ n. omega (arith, c.once n, ap (count n) split, count-middle n seq front back);
  below = λ n le. omega (arith, c.below n le, ap (count n) split, count-middle n seq front back);
  next_is = same ∙ c.next_is;
}

module _ {K P C : Type 0} (kem : Kem K P C) (p : Primitives) (start : ℕ) where
  step-count_taken : (w v : World K) → Step kem p w v → w.count_taken ≤ v.count_taken
  step-count_taken _ _ (take_number w) = omega arith
  step-count_taken _ _
        (seal_number w now seq front back plaintext ciphertext nonce split sealed shown) =
      omega arith
  step-count_taken _ _
        (seal_datagram w now seq front back aad plaintext ciphertext nonce split sealed shown) =
      omega arith
  step-count_taken _ _
        (seal_control w msg_type seq epoch front back payload body shown split sealed shows) =
      omega arith
  step-count_taken _ _ (lose_number w seq front back split) = omega arith
  step-count_taken _ _ (other w s same) = omega arith

  step-Counted :
      (w v : World K)
      → Step kem p w v
      → start + v.count_taken ≤ 2 ^ 64
      → Counted start w
      → Counted start v
  unfolding numbers count next_seq count_sent
  step-Counted _ _ (take_number w) h c = record {
    log = c.log;
    logged = c.logged;
    once = λ n. elim (Bool-cases (n == w.session.send_seq)) [
      | inl same ↦ ground (arith, c.below n (ground (arith, c.next_is)))
      | inr differ ↦ ground (arith, c.once n)
    ];
    below = λ n le. ground (arith, c.below n (omega arith), c.next_is);
    next_is = omega (arith, c.next_is);
  }
  step-Counted _ _ (seal_number w now seq front back plaintext ciphertext nonce split sealed shown)
        h c =
      let handed =
        seal_record-nonce p w.session.send_cipher w.session.send_nonce_prefix
          w.session.send_epoch_start_seq seq plaintext nonce shown in
      seals-Counted start w (count_sent now w.session (length plaintext)) seq front back
        w.session.send_nonce_prefix nonce split handed refl c
  step-Counted _ _
        (seal_datagram w now seq front back aad plaintext ciphertext nonce split sealed shown) h c =
      let handed =
        seal_in_epoch-nonce p w.session.dgram_epochs w.session.send_nonce_prefix aad seq plaintext
          nonce shown in
      seals-Counted start w (record w.session { last_activity_nanos = now }) seq front back
        w.session.send_nonce_prefix nonce split handed refl c
  step-Counted _ _
        (seal_control w msg_type seq epoch front back payload body shown split sealed shows) h c =
      let handed =
        control_body-nonce p w.session.dgram_epochs w.session.send_nonce_prefix msg_type seq epoch
          payload shown shows in
      seals-Counted start w w.session seq front back w.session.send_nonce_prefix (drop 8 shown)
        split handed refl c
  step-Counted _ _ (lose_number w seq front back split) h c = record {
    log = c.log;
    logged = c.logged;
    once = λ n. omega (arith, c.once n, ap (count n) split, count-middle n seq front back);
    below = λ n le. omega (arith, c.below n le, ap (count n) split, count-middle n seq front back);
    next_is = c.next_is;
  }
  step-Counted _ _ (other w s same) h c = record {
    log = c.log;
    logged = c.logged;
    once = c.once;
    below = c.below;
    next_is = Call-send_seq kem p w.session s same ∙ c.next_is;
  }

  Reach-Counted :
      (w v : World K)
      → Reach kem p w v
      → start + v.count_taken ≤ 2 ^ 64
      → Counted start w
      → Counted start v
  Reach-Counted _ _ (rest w) h c = c
  Reach-Counted _ _ (after w v u path step) h c =
      step-Counted v u step h (Reach-Counted w v path (omega (arith, step-count_taken v u step)) c)

-- The last 8 bytes of a nonce are its sequence number.
seq_part : (prefix : List ℕ) (seq : ℕ) → drop 4 (build_aead_nonce prefix seq) ≡ put_uint64 seq
unfolding build_aead_nonce
seq_part prefix seq =
    drop-append_eq 4 (take 4 prefix ++ replicate (4 - length prefix) 0) (put_uint64 seq) (
      omega (
        arith,
        length-append (take 4 prefix) (replicate (4 - length prefix) 0),
        length-take 4 prefix,
        length-replicate {A = ℕ} (4 - length prefix) 0,
      ))

build_aead_nonce_cancel :
    (p q : List ℕ) (k l : ℕ)
    → k < 2 ^ 64
    → l < 2 ^ 64
    → build_aead_nonce p k ≡ build_aead_nonce q l
    → k ≡ l
build_aead_nonce_cancel p q k l hk hl e =
    let stamp = sym (seq_part p k) ∙ ap (drop 4) e ∙ seq_part q l in
    omega (
      arith,
      ap (λ s. get_or s 0 0) stamp,
      ap (λ s. get_or s 1 0) stamp,
      ap (λ s. get_or s 2 0) stamp,
      ap (λ s. get_or s 3 0) stamp,
      ap (λ s. get_or s 4 0) stamp,
      ap (λ s. get_or s 5 0) stamp,
      ap (λ s. get_or s 6 0) stamp,
      ap (λ s. get_or s 7 0) stamp,
    )

differs : (seq l : ℕ) (rs : List ℕ) → count seq (l ∷ rs) ≡ 0 → seq ≢ l
unfolding count
differs seq l rs h e = ground (arith, h, e)

number_fits :
    (seq : ℕ) (rs : List ℕ) → ((n : ℕ) → 2 ^ 64 ≤ n → count n (seq ∷ rs) ≡ 0) → seq < 2 ^ 64
unfolding count
number_fits seq rs small = elim (Bool-cases (ltb seq (2 ^ 64))) [
  | inl fits ↦ ltb→lt seq (2 ^ 64) fits
  | inr beyond ↦ absurd (ground (arith, small seq (ltb→le seq (2 ^ 64) beyond), ==_refl seq))
]

nonces_apart :
    (prefix : List ℕ) (seq : ℕ) (rs : List (List ℕ × ℕ))
    → seq < 2 ^ 64
    → ((n : ℕ) → 2 ^ 64 ≤ n → count n (numbers rs) ≡ 0)
    → count seq (numbers rs) ≡ 0
    → All (λ y. build_aead_nonce prefix seq ≢ y) (nonces rs)
unfolding numbers count nonces
nonces_apart prefix seq [] hs small h = tt
nonces_apart prefix seq ((q, l) ∷ rs) hs small h = (
  λ e.
      differs seq l (numbers rs) h
        (build_aead_nonce_cancel prefix q seq l hs (number_fits l (numbers rs) small) e),
  nonces_apart prefix seq rs hs (λ n le. omega (arith, small n le)) (omega arith),
)

nonces-Distinct :
    (rs : List (List ℕ × ℕ))
    → ((n : ℕ) → 2 ^ 64 ≤ n → count n (numbers rs) ≡ 0)
    → ((n : ℕ) → count n (numbers rs) ≤ 1)
    → Distinct (nonces rs)
unfolding numbers count nonces
nonces-Distinct [] small once = tt
nonces-Distinct ((prefix, seq) ∷ rs) small once = (
  nonces_apart prefix seq rs (number_fits seq (numbers rs) small)
      (λ n le. omega (arith, small n le)) (ground (arith, once seq, ==_refl seq)),
  nonces-Distinct rs (λ n le. omega (arith, small n le)) (λ n. omega (arith, once n)),
)

-- However the calls of one session interleave that encrypt records, seal datagrams and seal rekey
-- messages, with each other and with calls that change its keys, no two of them hand the same nonce to a
-- cipher, whatever the keys and the nonce prefixes, as long as the 64-bit sequence number has not
-- wrapped.
pub Reach-Distinct :
    {K P C : Type 0} (kem : Kem K P C) (p : Primitives) (s : Session K) (w : World K)
    → Reach kem p (record { session = s; taken = []; count_taken = 0; sealed = [] }) w
    → s.send_seq + w.count_taken ≤ 2 ^ 64
    → s.send_seq < 2 ^ 64
    → Distinct w.sealed
unfolding count numbers nonces
Reach-Distinct kem p s w path h hs =
    let c = Reach-Counted kem p s.send_seq _ w path h (record {
      log = [];
      logged = refl;
      once = λ n. omega arith;
      below = λ n le. refl;
      next_is = omega arith;
    }) in
    subst Distinct c.logged (
      nonces-Distinct c.log (λ n le. omega (arith, c.below n (omega arith)))
        (λ n. omega (arith, c.once n)))
