-- ===== src/DatagramRekey/Repeats.antt =====
-- A repeated request at the responder of a datagram rekey.
use quantum_go.Base.{
  ℕ, ◌+◌, ◌%◌, refl, subst, sym, inl, inr, [], false, ◌||◌, ==_iff, Option, none, some, ◌==◌,
  if◌then◌else◌, Bool-cases, ◌≡◌, Bool, true, List, ◌∷◌, ==_refl, arith,
}
use quantum_go.Base.Go.{Result, ok, err, panic}
use quantum_go.Crypto.{Primitives}
use quantum_go.Session.{Session}
use quantum_go.Session.Rekeying.{Kem}
use quantum_go.Session.Epochs.{datagram_send_epoch}
use quantum_go.DatagramRekey.{
  respond_to_datagram_rekey, Answer, Connection, cache_answer, answer_fresh, is_answered,
  answered_frames, handle_rekey_init, is_current,
}
use quantum_go.DatagramRekey.Outcomes.{bound_ok, OnOk-at}
use quantum_go.DatagramRekey.Advances.{SendsIn, respond-SendsIn}

-- A request as it arrives: the clock, the padding option, the epoch, the body, and the coins that its
-- answer would draw.
pub record Request : Type 0 where
  pub now : ℕ
  pub pad : Bool
  pub epoch : ℕ
  pub body : List ℕ
  pub coins : List ℕ

abbrev pub has_epoch : ℕ → List Request → Bool
has_epoch epoch [] = false
has_epoch epoch (r ∷ rs) = r.epoch == epoch || has_epoch epoch rs

-- The frames for requests of one epoch, and nothing for the others.
abbrev pub expected : ℕ → List (List ℕ) → List Request → List (List (List ℕ))
expected epoch frames [] = []
expected epoch frames (r ∷ rs) =
    (if r.epoch == epoch then frames else []) ∷ expected epoch frames rs

-- The connection has an answer for the epoch, which is these frames.
abbrev Cached : {K : Type 0} → Connection K → ℕ → List (List ℕ) → Type 0
Cached c epoch frames = (is_answered c.answer epoch ≡ true) × (answered_frames c.answer ≡ frames)

cache_answer-Cached :
    {K : Type 0} (c c' : Connection K) (s : Session K) (epoch : ℕ) (made : Result (List (List ℕ)))
    (f : List ℕ) (fs : List (List ℕ))
    → cache_answer c s epoch made ≡ (c', f ∷ fs)
    → Cached c' epoch (f ∷ fs)
unfolding cache_answer is_answered answered_frames
cache_answer-Cached c c' s epoch panic f fs h = ground (arith, h)
cache_answer-Cached c c' s epoch (err e) f fs h = ground (arith, h)
cache_answer-Cached c c' s epoch (ok frames) f fs h = ground (arith, ==_refl epoch, h)

cache_answer-session :
    {K : Type 0} (c c' : Connection K) (s : Session K) (epoch : ℕ) (made : Result (List (List ℕ)))
    (f : List ℕ) (fs : List (List ℕ))
    → cache_answer c s epoch made ≡ (c', f ∷ fs)
    → (c'.session ≡ s) × (frames : List (List ℕ)) × (made ≡ ok frames)
unfolding cache_answer
cache_answer-session c c' s epoch panic f fs h = absurd (ground (arith, h))
cache_answer-session c c' s epoch (err e) f fs h = absurd (ground (arith, h))
cache_answer-session c c' s epoch (ok frames) f fs h = (ground (arith, h), frames, refl)

unanswered_other :
    (a : Option Answer) (epoch other : ℕ)
    → is_answered a epoch ≡ true
    → (other == epoch) ≡ false
    → is_answered a other ≡ false
unfolding is_answered
unanswered_other none epoch other h differs = refl
unanswered_other (some a) epoch other h differs = elim (Bool-cases (a.from_epoch == other)) [
  | inl same ↦ absurd (ground (arith, h, differs, same))
  | inr no_match ↦ no_match
]

module _ (p : Primitives) {K P C : Type 0} (kem : Kem K P C) where
  answer_fresh-Cached :
      (now : ℕ) (pad : Bool) (c c' : Connection K) (epoch : ℕ) (body coins f : List ℕ)
      (fs : List (List ℕ))
      → answer_fresh p kem now pad c epoch body coins ≡ (c', f ∷ fs)
      → Cached c' epoch (f ∷ fs)
  unfolding answer_fresh
  answer_fresh-Cached now pad c c' epoch body coins f fs h =
      let (s1, made) = respond_to_datagram_rekey p kem now c.session epoch body coins in
      cache_answer-Cached c c' _ epoch _ f fs h

  Cached-replays :
      (now : ℕ) (pad : Bool) (c : Connection K) (epoch : ℕ) (body coins : List ℕ)
      (frames : List (List ℕ))
      → Cached c epoch frames
      → handle_rekey_init p kem now pad c epoch body coins ≡ (c, frames)
  unfolding handle_rekey_init
  Cached-replays now pad c epoch body coins frames (h, g) = rw (h, g)

  handle_rekey_init-Cached :
      (now : ℕ) (pad : Bool) (c c' : Connection K) (epoch : ℕ) (body coins f : List ℕ)
      (fs : List (List ℕ))
      → handle_rekey_init p kem now pad c epoch body coins ≡ (c', f ∷ fs)
      → Cached c' epoch (f ∷ fs)
  unfolding handle_rekey_init
  handle_rekey_init-Cached now pad c c' epoch body coins f fs h =
      ground (arith, answer_fresh-Cached now pad c c' epoch body coins f fs, h)

  -- An answer that is made afresh leaves the session in the next epoch.
  answer_fresh-SendsIn :
      (now : ℕ) (pad : Bool) (c c' : Connection K) (epoch : ℕ) (body coins f : List ℕ)
      (fs : List (List ℕ))
      → SendsIn epoch c.session
      → answer_fresh p kem now pad c epoch body coins ≡ (c', f ∷ fs)
      → SendsIn ((epoch + 1) % 256) c'.session
  unfolding answer_fresh
  answer_fresh-SendsIn now pad c c' epoch body coins f fs at h =
      let r = respond_to_datagram_rekey p kem now c.session epoch body coins in
      let (same, frames, made) = cache_answer-session c c' r.0 epoch _ f fs h in
      let (sealed, good) = bound_ok r.1 _ frames made in
      rw same (
        OnOk-at (SendsIn ((epoch + 1) % 256)) r sealed good
          (respond-SendsIn p kem now c.session epoch body coins epoch at))

  current_is : (r : Result ℕ) (epoch : ℕ) → is_current r epoch ≡ true → r ≡ ok epoch
  unfolding is_current
  current_is panic epoch h = absurd (ground (arith, h))
  current_is (err e) epoch h = absurd (ground (arith, h))
  current_is (ok cur) epoch h = ground (arith, h)

  handle_rekey_init-SendsIn :
      (now : ℕ) (pad : Bool) (c c' : Connection K) (epoch : ℕ) (body coins f : List ℕ)
      (fs : List (List ℕ))
      → is_answered c.answer epoch ≡ false
      → handle_rekey_init p kem now pad c epoch body coins ≡ (c', f ∷ fs)
      → SendsIn ((epoch + 1) % 256) c'.session
  unfolding handle_rekey_init
  handle_rekey_init-SendsIn now pad c c' epoch body coins f fs unanswered h =
      elim (Bool-cases (is_current (datagram_send_epoch c.session.dgram_epochs) epoch)) [
        | inl cur ↦
            answer_fresh-SendsIn now pad c c' epoch body coins f fs
              (current_is (datagram_send_epoch c.session.dgram_epochs) epoch cur)
              (rw (unanswered, cur) at h)
        | inr old ↦ absurd (ground (arith, unanswered, old, h))
      ]

  -- A request of an epoch that is neither answered nor current changes nothing.
  stale_dropped :
      (now : ℕ) (pad : Bool) (c : Connection K) (epoch cur : ℕ) (body coins : List ℕ)
      → is_answered c.answer epoch ≡ false
      → SendsIn cur c.session
      → (epoch == cur) ≡ false
      → handle_rekey_init p kem now pad c epoch body coins ≡ (c, [])
  unfolding handle_rekey_init is_current
  stale_dropped now pad c epoch cur body coins unanswered at differs =
      ground (arith, unanswered, at, differs)

  -- Requests one after another: the connection after them, and the frames sent for each.
  unfoldable pub handle_all : Connection K → List Request → Connection K × List (List (List ℕ))
  handle_all c [] = (c, [])
  handle_all c (r ∷ rs) =
      let (c1, frames) = handle_rekey_init p kem r.now r.pad c r.epoch r.body r.coins in
      let (c2, replies) = handle_all c1 rs in (c2, frames ∷ replies)

  Cached-repeats :
      (c : Connection K) (epoch next : ℕ) (frames : List (List ℕ)) (rs : List Request)
      → Cached c epoch frames
      → SendsIn next c.session
      → has_epoch next rs ≡ false
      → handle_all c rs ≡ (c, expected epoch frames rs)
  unfolding handle_all
  Cached-repeats c epoch next frames [] cached at none_next = refl
  Cached-repeats c epoch next frames (r ∷ rs) cached at none_next =
      let rest = Cached-repeats c epoch next frames rs cached at (ground (arith, none_next)) in
      elim (Bool-cases (r.epoch == epoch)) [
        | inl same ↦ rw (
          same,
          Cached-replays r.now r.pad c r.epoch r.body r.coins frames
              (subst (λ e. Cached c e frames) (sym ((==_iff r.epoch epoch).0 same)) cached),
          rest,
        )
        | inr differs ↦ rw (
          differs,
          stale_dropped r.now r.pad c r.epoch next r.body r.coins
              (unanswered_other c.answer epoch r.epoch cached.0 differs) at
              (ground (arith, none_next)),
          rest,
        )
      ]

  -- A responder that makes an answer to a request and sends it in some frames then sends the same frames
  -- for each further request of that epoch, whatever it holds and whatever is drawn at random, and
  -- nothing for requests of other epochs, until a request of the next epoch comes; until then the
  -- connection, its session and its epochs stay as the answer left them.
  pub handle_rekey_init_replays :
      (now : ℕ) (pad : Bool) (c c' : Connection K) (epoch : ℕ) (body coins f : List ℕ)
      (fs : List (List ℕ)) (rs : List Request)
      → is_answered c.answer epoch ≡ false
      → handle_rekey_init p kem now pad c epoch body coins ≡ (c', f ∷ fs)
      → has_epoch ((epoch + 1) % 256) rs ≡ false
      → handle_all c' rs ≡ (c', expected epoch (f ∷ fs) rs)
  handle_rekey_init_replays now pad c c' epoch body coins f fs rs unanswered h none_next =
      Cached-repeats c' epoch ((epoch + 1) % 256) (f ∷ fs) rs
        (handle_rekey_init-Cached now pad c c' epoch body coins f fs h)
        (handle_rekey_init-SendsIn now pad c c' epoch body coins f fs unanswered h) none_next
