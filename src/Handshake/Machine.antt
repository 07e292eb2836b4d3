-- ===== src/Handshake/Machine.antt =====
-- dgram_handshake_fsm.go: which inbound message advances the handshake, which one is replayed, and
-- which one is dropped. The empty list is Go's nil flight.
use quantum_go.Base.{
  ℕ, Bool, true, false, not, ◌&&◌, Option, none, some, List, [], ◌∷◌, ◌==◌, if◌then◌else◌,
}
use quantum_go.Messages.{
  type_client_hello, type_server_hello, type_client_finished, type_server_finished,
  type_hello_retry_request,
}
use quantum_go.Handshake.{Builders, Role, initiator, responder, HsMessage}

-- `dgramHandshake`
pub record Machine {ℓ} (H : Type ℓ) : Type ℓ where
  pub hs : H
  pub role : Role
  pub expecting : ℕ
  pub prev : ℕ
  pub cached : List HsMessage
  pub early_finished : Option (List ℕ)

-- `bytes.Equal`
abbrev pub bytes_equal : List ℕ → List ℕ → Bool
bytes_equal [] [] = true
bytes_equal [] (y ∷ ys) = false
bytes_equal (x ∷ xs) [] = false
bytes_equal (x ∷ xs) (y ∷ ys) = x == y && bytes_equal xs ys

abbrev pub is_initiator : Role → Bool
is_initiator initiator = true
is_initiator responder = false

-- `len(cached) == 1 && cached[0].typ == HelloRetryRequest`
abbrev pub is_retry_flight : List HsMessage → Bool
is_retry_flight [] = false
is_retry_flight (m ∷ []) = m.typ == type_hello_retry_request
is_retry_flight (m ∷ n ∷ ms) = false

-- `cached != nil`
abbrev pub has_flight : List HsMessage → Bool
has_flight [] = false
has_flight (m ∷ ms) = true

-- `append(early[:0], body...)`: nil stays nil when the body is empty.
abbrev pub hold_early : Option (List ℕ) → List ℕ → Option (List ℕ)
hold_early none [] = none
hold_early none (b ∷ body) = some (b ∷ body)
hold_early (some early) body = some body

-- What `onMessage` and `advance` return: the machine, the outbound flight, and completion.
abbrev pub Step {ℓ} : Type ℓ → Type ℓ
Step H = Machine H × List HsMessage × Bool

module _ {ℓ} {H : Type ℓ} where
  -- `newDgramHandshake`, on the state that `NewHandshake` makes
  unfoldable pub new_machine : H → Role → Machine H
  new_machine hs role = record {
    hs = hs;
    role = role;
    expecting = if is_initiator role then 0 else type_client_hello;
    prev = 0;
    cached = [];
    early_finished = none;
  }

  -- `commit`
  unfoldable pub commit : Machine H → ℕ → List HsMessage → ℕ → Machine H
  commit d processed out next = record d { prev = processed; cached = out; expecting = next }

  abbrev pub dropped : Machine H → Step H
  dropped d = (d, [], false)

  module _ (b : Builders H) where
    -- `start`; `none` is its error
    unfoldable pub start : Machine H → Machine H × Option (List HsMessage)
    start d =
        let (hs, out) = b.create_client_hello d.hs in
        elim out [
          | none ↦ (record d { hs = hs }, none)
          | some body ↦
              let hello : HsMessage = record { typ = type_client_hello; body = body } in
              (
                record d { hs = hs; cached = hello ∷ []; expecting = type_server_hello },
                some (hello ∷ []),
              )
        ]

    -- The cases of `advance`, one for each inbound type.
    unfoldable pub advance_server_finished : Machine H → List ℕ → Step H
    advance_server_finished d body =
        let (hs, good) = b.process_server_finished d.hs body in
        if not good
        then dropped (record d { hs = hs })
        else (let (hs', out) = b.create_client_finished hs in
            elim out [
              | none ↦ dropped (record d { hs = hs' })
              | some reply ↦
                  let finished : HsMessage = record { typ = type_client_finished; body = reply } in
                  (
                    commit (record d { hs = hs' }) type_server_finished (finished ∷ []) 0,
                    finished ∷ [],
                    true,
                  )
            ])

    unfoldable pub advance_server_hello : Machine H → List ℕ → Step H
    advance_server_hello d body =
        let (hs, good) = b.process_server_hello d.hs body in
        if not good
        then dropped (record d { hs = hs })
        else (let d' = record d {
          hs = hs;
          prev = type_server_hello;
          expecting = type_server_finished;
        } in
            elim d.early_finished [
              | none ↦ dropped d'
              | some early ↦ advance_server_finished (record d' { early_finished = none }) early
            ])

    unfoldable pub advance_retry : Machine H → List ℕ → Step H
    advance_retry d body =
        let (hs, good) = b.process_hello_retry_request d.hs body in
        if not good
        then dropped (record d { hs = hs })
        else (let (hs', out) = b.create_client_hello hs in
            elim out [
              | none ↦ dropped (record d { hs = hs' })
              | some reply ↦
                  let hello : HsMessage = record { typ = type_client_hello; body = reply } in
                  (
                    commit (record d { hs = hs' }) type_hello_retry_request (hello ∷ [])
                        type_server_hello,
                    hello ∷ [],
                    false,
                  )
            ])

    -- What the responder answers to a ClientHello that it has processed.
    unfoldable pub answer_retry : Machine H → Step H
    answer_retry d =
        let (hs, out) = b.create_hello_retry_request d.hs in
        elim out [
          | none ↦ dropped (record d { hs = hs })
          | some hrr ↦
              let retry : HsMessage = record { typ = type_hello_retry_request; body = hrr } in
              (
                commit (record d { hs = hs }) type_client_hello (retry ∷ []) type_client_hello,
                retry ∷ [],
                false,
              )
        ]

    unfoldable pub answer_hello : Machine H → Step H
    answer_hello d =
        let (hs, out) = b.create_server_hello d.hs in
        elim out [
          | none ↦ dropped (record d { hs = hs })
          | some hello ↦
              let (hs', out') = b.create_server_finished hs in
              elim out' [
                | none ↦ dropped (record d { hs = hs' })
                | some finished ↦
                    let m : HsMessage = record { typ = type_server_hello; body = hello } in
                    let n : HsMessage = record { typ = type_server_finished; body = finished } in
                    (
                      commit (record d { hs = hs' }) type_client_hello (m ∷ n ∷ [])
                          type_client_finished,
                      m ∷ n ∷ [],
                      false,
                    )
              ]
        ]

    unfoldable pub advance_client_hello : Machine H → List ℕ → Step H
    advance_client_hello d body =
        if b.hrr_done d.hs
          && is_retry_flight d.cached
          && bytes_equal body (b.first_client_hello d.hs)
        then (d, d.cached, false)
        else (let (hs, good) = b.process_client_hello d.hs body in
            let d' = record d { hs = hs } in
            if not good
            then dropped d'
            else if b.send_hrr hs
            then answer_retry d'
            else answer_hello d')

    unfoldable pub advance_client_finished : Machine H → List ℕ → Step H
    advance_client_finished d body =
        let (hs, good) = b.process_client_finished d.hs body in
        if not good
        then dropped (record d { hs = hs })
        else (record d { hs = hs; prev = type_client_finished; expecting = 0 }, [], true)

    -- `advance`
    unfoldable pub advance : Machine H → ℕ → List ℕ → Step H
    advance d typ body =
        if is_initiator d.role
        then (if typ == type_server_hello
            then advance_server_hello d body
            else if typ == type_server_finished
            then advance_server_finished d body
            else if typ == type_hello_retry_request
            then advance_retry d body
            else dropped d)
        else (if typ == type_client_hello
            then advance_client_hello d body
            else if typ == type_client_finished
            then advance_client_finished d body
            else dropped d)

    -- `onMessage`
    unfoldable pub on_message : Machine H → ℕ → List ℕ → Step H
    on_message d typ body =
        if not (typ == 0) && typ == d.expecting
        then advance d typ body
        else if is_initiator d.role
            && typ == type_hello_retry_request
            && d.expecting == type_server_hello
            && not (b.hrr_done d.hs)
        then advance d typ body
        else if is_initiator d.role
            && typ == type_server_finished
            && d.expecting == type_server_hello
        then dropped (record d { early_finished = hold_early d.early_finished body })
        else if is_initiator d.role && typ == type_server_hello && typ == d.prev
        then dropped d
        else if not (typ == 0) && typ == d.prev && has_flight d.cached
        then (d, d.cached, false)
        else dropped d
