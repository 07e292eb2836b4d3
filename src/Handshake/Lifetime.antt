-- ===== src/Handshake/Lifetime.antt =====
-- How long a handshake lives: the retry ceiling, the terminal states, and the bounded linger.
use quantum_go.Base.{
  ℕ, ◌+◌, ◌-◌, ◌≤◌, ◌<◌, ◌≡◌, true, false, not, ◌&&◌, List, [], ◌∷◌, ltb, ◌==◌, ==_refl,
  if◌then◌else◌, length, arith, Bool-cases, inl, inr,
}
use quantum_go.Messages.{type_server_finished}
use quantum_go.Handshake.{Builders, HsMessage}
use quantum_go.Handshake.Machine.{is_initiator, has_flight, on_message}
use quantum_go.Handshake.Driver.{
  Driver, running, established, failed, is_set, is_due, is_lingering, is_done, on_timeout,
  on_inbound, forward,
}

-- What reaches a driver.
pub data Event : Type 0 where
  inbound : (now typ : ℕ) (body : List ℕ) → Event
  timeout : (now : ℕ) → Event

module _ {ℓ} {H : Type ℓ} where
  -- `onTimeout` at one clock reading after another.
  unfoldable pub timeouts : Driver H → List ℕ → Driver H
  timeouts d [] = d
  timeouts d (now ∷ times) = timeouts (on_timeout d now).0 times

  -- Each reading is not before the time that is armed when it comes.
  abbrev pub AllDue : Driver H → List ℕ → Type 0
  AllDue d [] = Unit
  AllDue d (now ∷ times) = (is_due now d.retransmit_at ≡ true) × AllDue (on_timeout d now).0 times

  timeout_failed :
      (d : Driver H) (now : ℕ) → d.status ≡ failed → (on_timeout d now).0.status ≡ failed
  unfolding on_timeout
  timeout_failed d now h = ground arith

  failed_timeouts :
      (d : Driver H) (times : List ℕ) → d.status ≡ failed → (timeouts d times).status ≡ failed
  unfolding timeouts
  failed_timeouts d [] h = h
  failed_timeouts d (now ∷ times) h =
      failed_timeouts (on_timeout d now).0 times (timeout_failed d now h)

  -- A due timeout of a running driver, below the ceiling and at it.
  timeout_retries :
      (d : Driver H) (now : ℕ)
      → d.status ≡ running
      → is_set d.retransmit_at ≡ true
      → is_due now d.retransmit_at ≡ true
      → d.retries < d.max_retries
      → let d' = (on_timeout d now).0 in
        (d'.status ≡ running)
        × (is_set d'.retransmit_at ≡ true)
        × (d'.retries ≡ d.retries + 1)
        × (d'.max_retries ≡ d.max_retries)
  unfolding on_timeout
  timeout_retries d now h armed due few = ground arith

  timeout_gives_up :
      (d : Driver H) (now : ℕ)
      → d.status ≡ running
      → is_set d.retransmit_at ≡ true
      → is_due now d.retransmit_at ≡ true
      → d.max_retries ≤ d.retries
      → (on_timeout d now).0.status ≡ failed
  unfolding on_timeout
  timeout_gives_up d now h armed due many = ground arith

  -- A running driver with its timer armed and retries left that hears nothing is running until its
  -- retries are used up and has failed from the next timeout on, whatever the clock readings, as long
  -- as each is due.
  pub timeouts_status :
      (d : Driver H) (times : List ℕ)
      → d.status ≡ running
      → is_set d.retransmit_at ≡ true
      → d.retries ≤ d.max_retries
      → AllDue d times
      → (timeouts d times).status
        ≡ (if ltb (d.max_retries - d.retries) (length times) then failed else running)
  unfolding timeouts
  timeouts_status d [] h armed few due = ground arith
  timeouts_status d (now ∷ times) h armed few (due, dues) =
      elim (Bool-cases (ltb d.retries d.max_retries)) [
        | inl below ↦
            let (h', armed', counted, same) = timeout_retries d now h armed due (ground arith) in
            let rest =
              timeouts_status (on_timeout d now).0 times h' armed'
                (omega (arith, few, below_lt below)) dues in
            ground (arith, rest, counted, same, few)
        | inr at_ceiling ↦
            let gone =
              failed_timeouts (on_timeout d now).0 times
                (timeout_gives_up d now h armed due (ground arith)) in
            ground (arith, gone, few)
      ]
    where
      below_lt : ltb d.retries d.max_retries ≡ true → d.retries < d.max_retries
      below_lt e = ground arith

module _ {ℓ} {H : Type ℓ} (b : Builders H) where
  unfoldable pub step : Driver H → Event → Driver H × List HsMessage
  step d (inbound now typ body) = on_inbound b d now typ body
  step d (timeout now) = on_timeout d now

  -- A driver that is done stays as it is and sends nothing, whatever reaches it.
  pub step-is_done : (d : Driver H) (e : Event) → is_done d ≡ true → step d e ≡ (d, [])
  unfolding step on_inbound on_timeout
  step-is_done d (inbound now typ body) h = ground arith
  step-is_done d (timeout now) h = ground arith

-- The replies of a completed initiator to what it hears while it lingers.
abbrev pub replies : List (List HsMessage) → ℕ
replies [] = 0
replies (out ∷ outs) = if has_flight out then 1 + replies outs else replies outs

-- An initiator that has completed: it expects nothing more, and has processed ServerFinished.
pub record HasCompleted {ℓ} {H : Type ℓ} (d : Driver H) : Type ℓ where
  pub is_initiator_role : is_initiator d.fsm.role ≡ true
  pub is_over : d.status ≡ established
  pub expects_nothing : d.fsm.expecting ≡ 0
  pub last_processed : d.fsm.prev ≡ type_server_finished

module _ {ℓ} {H : Type ℓ} (b : Builders H) where
  unfoldable pub steps : Driver H → List Event → Driver H × List (List HsMessage)
  steps d [] = (d, [])
  steps d (e ∷ events) =
      let (d', out) = step b d e in let (d'', outs) = steps d' events in (d'', out ∷ outs)

  -- Nothing reaches the builders any more: a message is answered with the cached flight or not
  -- at all.
  completed_message :
      (d : Driver H) (typ : ℕ) (body : List ℕ)
      → HasCompleted d
      → (out : List HsMessage) × (on_message b d.fsm typ body ≡ (d.fsm, out, false))
  unfolding on_message
  completed_message d typ body c = (
    (if not (typ == 0) && typ == d.fsm.prev && has_flight d.fsm.cached then d.fsm.cached else []),
    ground arith,
  )

  forward_completed :
      (d : Driver H) (now : ℕ) (out : List HsMessage)
      → HasCompleted d
      → is_lingering d ≡ true
      → let (d', sent) = forward d now false false out in
        HasCompleted d' × ((if has_flight sent then 1 else 0) + d'.replays_left ≤ d.replays_left)
  unfolding forward
  forward_completed d now out c lingers = ground arith

  inbound_forward :
      (d : Driver H) (now typ : ℕ) (body : List ℕ) (out : List HsMessage)
      → on_message b d.fsm typ body ≡ (d.fsm, out, false)
      → is_lingering d ≡ true
      → on_inbound b d now typ body ≡ forward d now false false out
  unfolding on_inbound
  inbound_forward d now typ body out e lingers = rw (e, ==_refl (b.state d.fsm.hs)) (ground arith)

  inbound_completed :
      (d : Driver H) (now typ : ℕ) (body : List ℕ)
      → HasCompleted d
      → let (d', sent) = on_inbound b d now typ body in
        HasCompleted d' × ((if has_flight sent then 1 else 0) + d'.replays_left ≤ d.replays_left)
  unfolding on_inbound
  inbound_completed d now typ body c =
      let (out, e) = completed_message d typ body c in
      elim (Bool-cases (is_lingering d)) [
        | inl lingers ↦
            rw (inbound_forward d now typ body out e lingers)
              (forward_completed d now out c lingers)
        | inr silent ↦ ground arith
      ]

  timeout_completed :
      (d : Driver H) (now : ℕ)
      → HasCompleted d
      → let (d', sent) = on_timeout d now in
        HasCompleted d' × ((if has_flight sent then 1 else 0) + d'.replays_left ≤ d.replays_left)
  unfolding on_timeout
  timeout_completed d now c = ground arith

  step_completed :
      (d : Driver H) (e : Event)
      → HasCompleted d
      → let (d', sent) = step b d e in
        HasCompleted d' × ((if has_flight sent then 1 else 0) + d'.replays_left ≤ d.replays_left)
  unfolding step
  step_completed d (inbound now typ body) c = inbound_completed d now typ body c
  step_completed d (timeout now) c = timeout_completed d now c

  -- After it has completed, an initiator answers at most as often as the replays that are left to it,
  -- whatever it hears and however long; it stays completed.
  pub steps-replies :
      (d : Driver H) (events : List Event)
      → HasCompleted d
      → (replies (steps d events).1 ≤ d.replays_left) × HasCompleted (steps d events).0
  unfolding steps
  steps-replies d [] c = (omega arith, c)
  steps-replies d (e ∷ events) c =
      let (c', fewer) = step_completed d e c in
      let (rest, c'') = steps-replies (step b d e).0 events c' in (ground (arith, fewer, rest), c'')
