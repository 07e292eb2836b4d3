-- ===== src/Handshake/Driver.antt =====
-- dgram_handshake_driver.go: retransmission with backoff, the retry ceiling, and the linger of a
-- completed initiator. The clock's reading is an argument; `none` is Go's zero time.
use quantum_go.Base.{
  ℕ, ◌+◌, ◌-◌, ◌*◌, Bool, true, false, not, ◌&&◌, ◌||◌, Option, none, some, List, [], ltb, leb,
  ◌==◌, if◌then◌else◌, min,
}
use quantum_go.Handshake.{Builders, Role, HsMessage}
use quantum_go.Handshake.Machine.{Machine, is_initiator, has_flight, new_machine, start, on_message}

-- `driverStatus`
pub data Status : Type 0 where
  running established failed : Status

-- `dgramDriver`
pub record Driver {ℓ} (H : Type ℓ) : Type ℓ where
  pub fsm : Machine H
  pub rto_initial : ℕ
  pub rto_max : ℕ
  pub rto : ℕ
  pub retries : ℕ
  pub max_retries : ℕ
  pub retransmit_at : Option ℕ
  pub linger_at : Option ℕ
  pub replays_left : ℕ
  pub status : Status

-- `constants.DatagramHandshakeMaxRetries` and `DatagramHandshakeLingerReplays`
abbrev pub max_retries : ℕ
max_retries = 8

abbrev pub linger_replays : ℕ
linger_replays = 16

abbrev pub is_running : Status → Bool
is_running running = true
is_running established = false
is_running failed = false

abbrev pub is_established : Status → Bool
is_established running = false
is_established established = true
is_established failed = false

abbrev pub is_failed : Status → Bool
is_failed running = false
is_failed established = false
is_failed failed = true

-- `!t.IsZero()`
abbrev pub is_set : Option ℕ → Bool
is_set none = false
is_set (some t) = true

-- `!now.Before(t)`
abbrev pub is_due : ℕ → Option ℕ → Bool
is_due now none = true
is_due now (some t) = leb t now

module _ {ℓ} {H : Type ℓ} where
  -- `newDgramDriverWithRTO`, on the state that `NewHandshake` makes
  unfoldable pub new_driver : H → Role → ℕ → ℕ → Driver H
  new_driver hs role rto_initial rto_max = record {
    fsm = new_machine hs role;
    rto_initial = rto_initial;
    rto_max = rto_max;
    rto = rto_initial;
    retries = 0;
    max_retries = max_retries;
    retransmit_at = none;
    linger_at = none;
    replays_left = 0;
    status = running;
  }

  -- `armRetransmit`
  abbrev pub arm_retransmit : Driver H → ℕ → Driver H
  arm_retransmit d now = record d { retransmit_at = some (now + d.rto) }

  -- `lingering`
  abbrev pub is_lingering : Driver H → Bool
  is_lingering d = is_established d.status && is_initiator d.fsm.role && is_set d.linger_at

  -- `done`
  abbrev pub is_done : Driver H → Bool
  is_done d = is_failed d.status || (is_established d.status && not (is_lingering d))

  -- `nextWake`
  abbrev pub next_wake : Driver H → Option ℕ
  next_wake d =
      if is_running d.status then d.retransmit_at else if is_lingering d then d.linger_at else none

  -- `cachedFlight`
  abbrev pub cached_flight : Driver H → List HsMessage
  cached_flight d = if is_running d.status then d.fsm.cached else []

  -- `onComplete`
  unfoldable pub on_complete : Driver H → ℕ → List HsMessage → Driver H × List HsMessage
  on_complete d now final =
      let d' = record d { status = established; retransmit_at = none } in
      if is_initiator d'.fsm.role
      then (
        record d' {
          linger_at = some (now + d'.max_retries * d'.rto_max);
          replays_left = linger_replays;
        },
        final,
      )
      else (d', final)

  -- `onTimeout`
  unfoldable pub on_timeout : Driver H → ℕ → Driver H × List HsMessage
  on_timeout d now =
      if is_lingering d && is_due now d.linger_at
      then (record d { linger_at = none }, [])
      else if is_running d.status && is_set d.retransmit_at && is_due now d.retransmit_at
      then (let tried = record d { retries = d.retries + 1 } in
          if ltb d.max_retries tried.retries
          then (record tried { status = failed; retransmit_at = none }, [])
          else (
            arm_retransmit (record tried { rto = min (d.rto * 2) d.rto_max }) now,
            d.fsm.cached,
          ))
      else (d, [])

  -- The end of `onInbound`: what becomes of a flight that the machine returned.
  unfoldable pub forward : Driver H → ℕ → Bool → Bool → List HsMessage → Driver H × List HsMessage
  forward d now advanced complete out =
      if not (has_flight out) && not complete && not advanced
      then (d, [])
      else if complete
      then on_complete d now out
      else if advanced
      then (arm_retransmit (record d { rto = d.rto_initial; retries = 0 }) now, out)
      else if is_lingering d
      then (if d.replays_left == 0
          then (d, [])
          else (record d { replays_left = d.replays_left - 1 }, out))
      else (d, out)

  module _ (b : Builders H) where
    -- `start`; `none` is its error
    unfoldable pub start_driver : Driver H → ℕ → Driver H × Option (List HsMessage)
    start_driver d now =
        let (fsm, out) = start b d.fsm in
        let d' = record d { fsm = fsm } in
        elim out [ none ↦ (d', none) | some flight ↦ (arm_retransmit d' now, some flight) ]

    -- `onInbound`
    unfoldable pub on_inbound : Driver H → ℕ → ℕ → List ℕ → Driver H × List HsMessage
    on_inbound d now typ body =
        if is_failed d.status
        then (d, [])
        else if is_established d.status && not (is_lingering d)
        then (d, [])
        else (let (fsm, out, complete) = on_message b d.fsm typ body in
            let advanced = not (b.state fsm.hs == b.state d.fsm.hs) in
            forward (record d { fsm = fsm }) now advanced complete out)
