-- ===== src/Handshake/Tests.antt =====
-- A handshake whose builders only count, and accept a message of one byte.
use quantum_go.Base.{
  ℕ, ◌+◌, ◌≤◌, ◌≡◌, refl, Bool, true, false, Option, none, some, List, [], ◌∷◌, ◌⊎◌, ◌==◌, length,
  arith,
}
use quantum_go.Messages.{
  type_server_finished, type_client_finished, type_server_hello, type_client_hello,
}
use quantum_go.Handshake.{Builders, initiator, responder, HsMessage}
use quantum_go.Handshake.Machine.{
  Machine, has_flight, on_message, advance, advance_server_hello, advance_server_finished,
  advance_client_finished,
}
use quantum_go.Handshake.Driver.{Driver, running, established, failed, on_timeout}
use quantum_go.Handshake.Lifetime.{
  Event, inbound, timeout, timeouts, AllDue, timeouts_status, steps, replies, HasCompleted,
  steps-replies,
}
use quantum_go.Handshake.Replay.{on_message_unexpected, responder_completes, initiator_completes}

abbrev accepts : ℕ → List ℕ → ℕ × Bool
accepts n body = (n + 1, length body == 1)

abbrev builds : ℕ → ℕ × Option (List ℕ)
builds n = (n + 1, some (n ∷ []))

abbrev counting : Builders ℕ
counting = record {
  create_client_hello = builds;
  create_server_hello = builds;
  create_server_finished = builds;
  create_client_finished = builds;
  create_hello_retry_request = builds;
  process_client_hello = accepts;
  process_server_hello = accepts;
  process_server_finished = accepts;
  process_client_finished = accepts;
  process_hello_retry_request = accepts;
  hrr_done = λ n. false;
  send_hrr = λ n. false;
  first_client_hello = λ n. [];
  state = λ n. n;
}

abbrev hello_flight : List HsMessage
hello_flight = record { typ = type_client_hello; body = 0 ∷ [] } ∷ []

-- An initiator that waits for a ServerHello, with a ServerFinished held back.
abbrev waiting : Machine ℕ
waiting = record {
  hs = 1;
  role = initiator;
  expecting = type_server_hello;
  prev = 0;
  cached = hello_flight;
  early_finished = some (7 ∷ []);
}

-- A responder that waits for a ClientFinished.
abbrev answering : Machine ℕ
answering = record {
  hs = 3;
  role = responder;
  expecting = type_client_finished;
  prev = type_client_hello;
  cached = record { typ = type_server_hello; body = 1 ∷ [] } ∷ [];
  early_finished = none;
}

abbrev driver : Driver ℕ
driver = record {
  fsm = waiting;
  rto_initial = 100;
  rto_max = 1000;
  rto = 100;
  retries = 6;
  max_retries = 8;
  retransmit_at = some 100;
  linger_at = none;
  replays_left = 0;
  status = running;
}

driver_due : AllDue driver (100 ∷ 400 ∷ 900 ∷ [])
unfolding on_timeout
driver_due = (refl, (refl, (refl, tt)))

timeouts_status_example : (timeouts driver (100 ∷ 400 ∷ 900 ∷ [])).status ≡ failed
timeouts_status_example =
    timeouts_status driver (100 ∷ 400 ∷ 900 ∷ []) refl refl (omega arith) driver_due

abbrev finished_driver : Driver ℕ
finished_driver = record driver { status = failed; retransmit_at = none }

abbrev completed : Driver ℕ
completed = record driver {
  fsm = record waiting { expecting = 0; prev = type_server_finished; early_finished = none };
  status = established;
  retransmit_at = none;
  linger_at = some 5000;
  replays_left = 1;
}

completed-HasCompleted : HasCompleted completed
completed-HasCompleted = record {
  is_initiator_role = refl;
  is_over = refl;
  expects_nothing = refl;
  last_processed = refl;
}

abbrev repeats : List Event
repeats =
    inbound 10 type_server_finished (1 ∷ [])
    ∷ inbound 20 type_server_finished (1 ∷ [])
    ∷ timeout 6000
    ∷ []

steps-replies_example :
    (replies (steps counting completed repeats).1 ≤ 1)
    × HasCompleted (steps counting completed repeats).0
steps-replies_example = steps-replies counting completed repeats completed-HasCompleted

on_message_unexpected_example :
    let (d', out, complete) = on_message counting answering type_client_hello (1 ∷ []) in
    (d'.hs ≡ 3)
    × (d'.role ≡ responder)
    × (d'.expecting ≡ type_client_finished)
    × (d'.prev ≡ type_client_hello)
    × (d'.cached ≡ answering.cached)
    × (complete ≡ false)
    × (has_flight out ≡ true → out ≡ answering.cached)
on_message_unexpected_example =
    on_message_unexpected counting answering type_client_hello (1 ∷ []) refl refl

responder_done : (on_message counting answering type_client_finished (1 ∷ [])).2 ≡ true
unfolding on_message advance advance_client_finished
responder_done = refl

responder_completes_example :
    (type_client_finished ≡ type_client_finished)
    × (answering.expecting ≡ type_client_finished)
    × ((counting.process_client_finished answering.hs (1 ∷ [])).1 ≡ true)
responder_completes_example =
    responder_completes counting answering type_client_finished (1 ∷ []) refl responder_done

initiator_done : (on_message counting waiting type_server_hello (1 ∷ [])).2 ≡ true
unfolding on_message advance advance_server_hello advance_server_finished
initiator_done = refl

initiator_completes_example :
    (type_server_hello ≡ waiting.expecting)
    × (((type_server_hello ≡ type_server_finished)
          × ((counting.process_server_finished waiting.hs (1 ∷ [])).1 ≡ true))
        ⊎ ((type_server_hello ≡ type_server_hello)
            × ((counting.process_server_hello waiting.hs (1 ∷ [])).1 ≡ true)
            × (finished : List ℕ) × (waiting.early_finished ≡ some finished)
            × ((counting.process_server_finished
                  (counting.process_server_hello waiting.hs (1 ∷ [])).0
                  finished).1
                ≡ true)))
initiator_completes_example =
    initiator_completes counting waiting type_server_hello (1 ∷ []) refl initiator_done
