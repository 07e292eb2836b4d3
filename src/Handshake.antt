-- ===== src/Handshake.antt =====
-- pkg/tunnel/dgram_handshake_fsm.go and dgram_handshake_driver.go: the datagram handshake. The
-- flight builders of handshake.go are an interface here: operations on a state of their own, each
-- of which may change that state also when it fails.
pub mod Machine
pub mod Driver
pub mod Replay
pub mod Lifetime
mod Tests
use quantum_go.Base.{ℕ, Bool, List, Option}

-- The `Handshake` of handshake.go, as the state machine uses it. A step that returns an error gives
-- `none` or `false`.
pub record Builders {ℓ} (H : Type ℓ) : Type ℓ where
  pub create_client_hello : H → H × Option (List ℕ)
  pub create_server_hello : H → H × Option (List ℕ)
  pub create_server_finished : H → H × Option (List ℕ)
  pub create_client_finished : H → H × Option (List ℕ)
  pub create_hello_retry_request : H → H × Option (List ℕ)
  pub process_client_hello : H → List ℕ → H × Bool
  pub process_server_hello : H → List ℕ → H × Bool
  pub process_server_finished : H → List ℕ → H × Bool
  pub process_client_finished : H → List ℕ → H × Bool
  pub process_hello_retry_request : H → List ℕ → H × Bool
  pub hrr_done : H → Bool
  pub send_hrr : H → Bool
  pub first_client_hello : H → List ℕ
  pub state : H → ℕ

-- `Role`
pub data Role : Type 0 where
  initiator responder : Role

-- `hsMessage`
pub record HsMessage : Type 0 where
  pub typ : ℕ
  pub body : List ℕ
