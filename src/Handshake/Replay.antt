-- ===== src/Handshake/Replay.antt =====
-- What a message can do to the handshake: only the expected one reaches the builders, a replay is
-- answered from the cache, and completion means that a Finished message was verified.
use quantum_go.Base.{
  ℕ, ◌≡◌, ◌∙◌, sym, true, false, not, ◌&&◌, none, some, List, ◌==◌, arith, Bool-cases, Option-cases,
  ==_iff, inl, inr, ◌⊎◌,
}
use quantum_go.Messages.{
  type_server_hello, type_client_finished, type_server_finished, type_hello_retry_request,
}
use quantum_go.Handshake.{Builders}
use quantum_go.Handshake.Machine.{
  Machine, is_initiator, has_flight, advance, advance_server_finished, advance_server_hello,
  advance_retry, answer_retry, answer_hello, advance_client_hello, advance_client_finished,
  on_message,
}

module _ {ℓ} {H : Type ℓ} (b : Builders H) where
  -- A message that is not the expected one, nor an initiator's first HelloRetryRequest, changes
  -- neither the builders' state nor what the machine expects, has processed and has cached, does
  -- not complete the handshake, and is answered with the cached flight or not at all.
  pub on_message_unexpected :
      (d : Machine H) (typ : ℕ) (body : List ℕ)
      → (typ == d.expecting) ≡ false
      → (is_initiator d.role && typ == type_hello_retry_request && not (b.hrr_done d.hs)) ≡ false
      → let (d', out, complete) = on_message b d typ body in
        (d'.hs ≡ d.hs)
        × (d'.role ≡ d.role)
        × (d'.expecting ≡ d.expecting)
        × (d'.prev ≡ d.prev)
        × (d'.cached ≡ d.cached)
        × (complete ≡ false)
        × (has_flight out ≡ true → out ≡ d.cached)
  unfolding on_message
  on_message_unexpected d typ body h k = (
    ground arith,
    ground arith,
    ground arith,
    ground arith,
    ground arith,
    ground arith,
    ground arith,
  )

  -- A responder completes only on a ClientFinished that it expects and that its handshake verifies.
  pub responder_completes :
      (d : Machine H) (typ : ℕ) (body : List ℕ)
      → is_initiator d.role ≡ false
      → (on_message b d typ body).2 ≡ true
      → (typ ≡ type_client_finished)
        × (d.expecting ≡ type_client_finished)
        × ((b.process_client_finished d.hs body).1 ≡ true)
  unfolding on_message advance advance_client_hello answer_retry answer_hello
      advance_client_finished
  responder_completes d typ body h c = ground arith

  server_finished_completes :
      (d : Machine H) (body : List ℕ)
      → (advance_server_finished b d body).2 ≡ true
      → (b.process_server_finished d.hs body).1 ≡ true
  unfolding advance_server_finished
  server_finished_completes d body c = ground arith

  on_message_finished :
      (d : Machine H) (typ : ℕ) (body : List ℕ)
      → is_initiator d.role ≡ true
      → (on_message b d typ body).2 ≡ true
      → typ ≡ type_server_finished
      → (d.expecting ≡ type_server_finished) × ((advance_server_finished b d body).2 ≡ true)
  unfolding on_message advance
  on_message_finished d typ body r c e = ground arith

  on_message_hello :
      (d : Machine H) (typ : ℕ) (body : List ℕ)
      → is_initiator d.role ≡ true
      → (on_message b d typ body).2 ≡ true
      → (typ == type_server_finished) ≡ false
      → (typ ≡ type_server_hello)
        × (d.expecting ≡ type_server_hello)
        × ((advance_server_hello b d body).2 ≡ true)
  unfolding on_message advance advance_retry
  on_message_hello d typ body r c e = ground arith

  -- A ServerHello completes only with a ServerFinished that was held back, and that the handshake
  -- verifies in the state in which the ServerHello leaves it.
  server_hello_completes :
      (d : Machine H) (body : List ℕ)
      → (advance_server_hello b d body).2 ≡ true
      → let (hs, good) = b.process_server_hello d.hs body in
        (good ≡ true)
        × (finished : List ℕ) × (d.early_finished ≡ some finished)
        × ((b.process_server_finished hs finished).1 ≡ true)
  unfolding advance_server_hello
  server_hello_completes d body c = elim (Option-cases d.early_finished) [
    | inl nothing ↦ absurd (ground arith)
    | inr (early, e) ↦
        let keyed : Machine H = record d {
          hs = (b.process_server_hello d.hs body).0;
          prev = type_server_hello;
          expecting = type_server_finished;
          early_finished = none;
        } in
        (ground arith, early, e, server_finished_completes keyed early (ground arith))
  ]

  -- An initiator completes only in two ways: on a ServerFinished that it expects and that its handshake
  -- verifies in the state it is in, or on a ServerHello that it expects and that its handshake accepts,
  -- after a ServerFinished was held back which the handshake verifies in the state in which that
  -- ServerHello leaves it.
  pub initiator_completes :
      (d : Machine H) (typ : ℕ) (body : List ℕ)
      → is_initiator d.role ≡ true
      → (on_message b d typ body).2 ≡ true
      → let (keyed, accepted) = b.process_server_hello d.hs body in
        (typ ≡ d.expecting)
        × (((typ ≡ type_server_finished) × ((b.process_server_finished d.hs body).1 ≡ true))
            ⊎ ((typ ≡ type_server_hello)
                × (accepted ≡ true)
                × (finished : List ℕ) × (d.early_finished ≡ some finished)
                × ((b.process_server_finished keyed finished).1 ≡ true)))
  initiator_completes d typ body r c = elim (Bool-cases (typ == type_server_finished)) [
    | inl e ↦
        let typed : typ ≡ type_server_finished = (==_iff typ type_server_finished).0 e in
        let (expected, advances) = on_message_finished d typ body r c typed in
        (typed ∙ sym expected, inl (typed, server_finished_completes d body advances))
    | inr e ↦
        let (typed, expected, advances) = on_message_hello d typ body r c e in
        let (accepted, early, held, verified) = server_hello_completes d body advances in
        (typed ∙ sym expected, inr (typed, accepted, early, held, verified))
  ]
