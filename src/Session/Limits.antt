-- ===== src/Session/Limits.antt =====
-- What the end of a session and the limits of its keys do not stop.
use quantum_go.Base.{ℕ, ◌≡◌, refl, true, some, arith}
use quantum_go.Crypto.Aead.{Aead, max_packets_before_rekey}
use quantum_go.Session.{Session, established, close}
use quantum_go.Session.Records.{needs_rekey, reaches}
use quantum_go.Session.Rekeying.{finalize_rekey_state, switch_send, activate_rekey_send}

module _ {K : Type 0} where
  -- A responder's session that is closed between its rekey answer and its switch is established again by
  -- the switch, with a live send cipher.
  pub activate_rekey_send-close :
      (now : ℕ) (s : Session K) (cipher : Aead)
      → s.pending_send_cipher ≡ some cipher
      → ((activate_rekey_send now (close s)).state ≡ established)
        × ((activate_rekey_send now (close s)).send_cipher ≡ some cipher)
  unfolding activate_rekey_send finalize_rekey_state switch_send close
  activate_rekey_send-close now s cipher h = (refl, ground (arith, h))

  -- A session that has sent its limit of packets needs a rekey also right after the rekey's switch to a
  -- new send cipher: the count is not reset.
  pub needs_rekey-activate_rekey_send :
      (now later : ℕ) (s : Session K) (cipher : Aead)
      → s.pending_send_cipher ≡ some cipher
      → reaches s.packets_sent max_packets_before_rekey ≡ true
      → needs_rekey later (activate_rekey_send now s) ≡ true
  unfolding needs_rekey activate_rekey_send finalize_rekey_state switch_send
  needs_rekey-activate_rekey_send now later s cipher h reached = ground (arith, h, reached)
