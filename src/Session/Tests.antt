-- ===== src/Session/Tests.antt =====
-- Examples of sessions. Their KEM has key pairs that are lists of bytes.
mod Interleaved
use quantum_go.Base.{
  ℕ, ◌^◌, ◌≡◌, refl, ap, subst, true, false, if◌then◌else◌, ltb, none, some, List, [], ◌∷◌,
  replicate, arith,
}
use quantum_go.Base.Ints.{pos, is_above}
use quantum_go.Base.Go.{
  Error, Result, ok, err, panic, replay_detected, authentication_failed, nonce_exhausted,
}
use quantum_go.Crypto.Toy.{toy, toy-IsLawful}
use quantum_go.Crypto.Aead.{Aead, seal_with_nonce, open_with_nonce, authenticated}
use quantum_go.Crypto.Sealing.{Distinct}
use quantum_go.Handshake.{initiator, responder}
use quantum_go.Replay.Model.{model_check}
use quantum_go.Replay.Runs.{new_window_size-Tracks}
use quantum_go.Replay.{new_window_size}
use quantum_go.Session.{
  Session, Epoch, EpochState, new_session, established, build_aead_nonce, close,
}
use quantum_go.Session.Agreement.{IsUsable}
use quantum_go.Session.Records.{encrypt, decrypt, next_seq, seal_record, count_sent, needs_rekey}
use quantum_go.Session.Rekeying.{Kem, activate_rekey_send, switch_send, finalize_rekey_state}
use quantum_go.Session.Delivery.{Fits, decrypt-encrypt_boundary}
use quantum_go.Session.Replays.{decrypt_all, decrypt-encrypt}
use quantum_go.Session.Interleaving.{
  World, Step, Reach, take_number, seal_number, seal_datagram, other, rest, after,
}
use quantum_go.Session.Nonces.{Reach-Distinct}
use quantum_go.Session.Sequence.{activates}
use quantum_go.Session.Epochs.{
  seal_in_epoch, datagram_recv_cipher, datagram_seal, datagram_open, advance_datagram_epoch,
}
use quantum_go.Session.Retention.{
  advance_datagram_epoch-retains, datagram_seal_strands, datagram_open-seal,
}
use quantum_go.Session.Tickets.{export_ticket, resume, resume-export_ticket}
use quantum_go.Session.Limits.{activate_rekey_send-close, needs_rekey-activate_rekey_send}
use quantum_go.Ticket.{TicketManager, age}

abbrev old_key : Aead
old_key = record { suite = 1; key = replicate 32 4; counter = 0; max_seq = 2 ^ 28 }

abbrev new_key : Aead
new_key = record { suite = 1; key = replicate 32 6; counter = 0; max_seq = 2 ^ 28 }

abbrev pub sender : Session (List ℕ)
sender = record (new_session 0 initiator []) {
  state = established;
  cipher_suite = 1;
  master_secret = some (replicate 32 8);
  established_at = 5_000_000_000;
  send_cipher = some new_key;
  send_seq = 3;
  send_epoch_start_seq = 1;
  packets_sent = 2 ^ 28;
  pending_send_cipher = some new_key;
  send_nonce_prefix = 1 ∷ 2 ∷ 3 ∷ 4 ∷ [];
}

abbrev receiver : Session (List ℕ)
receiver = record (new_session 0 responder []) {
  state = established;
  recv_cipher = some new_key;
  replay_window = new_window_size 1024;
  recv_nonce_prefix = 1 ∷ 2 ∷ 3 ∷ 4 ∷ [];
}

-- A receiver that still reads under the old key.
abbrev late_receiver : Session (List ℕ)
late_receiver = record receiver { recv_cipher = some old_key; pending_recv_cipher = some new_key }

sender-Fits : Fits sender receiver new_key new_key
sender-Fits = record {
  sends = refl;
  same_suite = refl;
  same_key = refl;
  same_prefix = refl;
  unworn = refl;
}

late-Fits : Fits sender late_receiver new_key new_key
late-Fits = record {
  sends = refl;
  same_suite = refl;
  same_key = refl;
  same_prefix = refl;
  unworn = refl;
}

admitted : (model_check (new_window_size 1024).size [] 3).1 ≡ true
unfolding model_check new_window_size
admitted = refl

decrypt-encrypt_example :
    (a' : Session (List ℕ)) × (b' : Session (List ℕ)) × (c : List ℕ) × (encrypt toy 9 sender
        (7 ∷ [])
      ≡ (a', ok (c, 3)))
    × (decrypt toy 9 receiver c 3 ≡ (b', ok (7 ∷ [])))
    × ((calls : List (ℕ × List ℕ × ℕ)) (later : ℕ) (replayed : List ℕ)
        → (decrypt toy later (decrypt_all toy b' calls) replayed 3).1 ≡ err replay_detected)
decrypt-encrypt_example =
    decrypt-encrypt toy toy-IsLawful 9 sender receiver new_key new_key [] (7 ∷ []) sender-Fits refl
      (new_window_size-Tracks 1024 (omega arith)).0 admitted

text : Result (List ℕ × ℕ) → List ℕ
text (ok x) = x.0
text (err e) = []
text panic = []

abbrev pub sealed_seven : List ℕ
sealed_seven = 7 ∷ replicate 16 6

sealed_is :
    (c : List ℕ) (a' : Session (List ℕ))
    → encrypt toy 9 sender (7 ∷ []) ≡ (a', ok (c, 3))
    → sealed_seven ≡ c
unfolding encrypt next_seq seal_record seal_with_nonce build_aead_nonce text
sealed_is c a' h = ap (λ r. text (r.1)) h

old_key_fails :
    open_with_nonce toy old_key
      (build_aead_nonce (1 ∷ 2 ∷ 3 ∷ 4 ∷ []) 3)
      sealed_seven
      (0 ∷ 0 ∷ 0 ∷ 0 ∷ 0 ∷ 0 ∷ 0 ∷ 3 ∷ [])
    ≡ err authentication_failed
unfolding open_with_nonce authenticated build_aead_nonce
old_key_fails = refl

-- What the old key says of what the new key sealed.
old_key_refuses :
    (c : List ℕ) (a' : Session (List ℕ))
    → encrypt toy 9 sender (7 ∷ []) ≡ (a', ok (c, 3))
    → (e : Error) × (open_with_nonce toy old_key
          (build_aead_nonce (1 ∷ 2 ∷ 3 ∷ 4 ∷ []) 3)
          c
          (0 ∷ 0 ∷ 0 ∷ 0 ∷ 0 ∷ 0 ∷ 0 ∷ 3 ∷ [])
        ≡ err e)
old_key_refuses c a' h = (
  authentication_failed,
  subst
      (λ x.
        open_with_nonce toy old_key (build_aead_nonce (1 ∷ 2 ∷ 3 ∷ 4 ∷ []) 3) x
          (0 ∷ 0 ∷ 0 ∷ 0 ∷ 0 ∷ 0 ∷ 0 ∷ 3 ∷ [])
        ≡ err authentication_failed)
      (sealed_is c a' h) old_key_fails,
)

decrypt-encrypt_boundary_example :
    (a' : Session (List ℕ)) × (b' : Session (List ℕ)) × (c : List ℕ) × (encrypt toy 9 sender
        (7 ∷ [])
      ≡ (a', ok (c, 3)))
    × (decrypt toy 9 late_receiver c 3 ≡ (b', ok (7 ∷ [])))
    × (b'.recv_cipher ≡ some new_key)
    × (b'.pending_recv_cipher ≡ none)
    × ((decrypt toy 9 b' c 3).1 ≡ err replay_detected)
decrypt-encrypt_boundary_example =
    decrypt-encrypt_boundary toy toy-IsLawful 9 sender late_receiver new_key new_key old_key []
      (7 ∷ []) late-Fits refl refl old_key_refuses (new_window_size-Tracks 1024 (omega arith)).0
      admitted

abbrev pub kem : Kem (List ℕ) (List ℕ) (List ℕ)
kem = record {
  public_key_bytes = λ k. k;
  parse_public_key = ok;
  encapsulate = λ pk coins. ok (coins, coins);
  ciphertext_bytes = λ c. c;
  parse_ciphertext = ok;
  decapsulate = λ c k. ok c;
}

toy-IsUsable : IsUsable toy 1
toy-IsUsable = record { supported = refl; approved = refl }

abbrev first_epoch : Epoch
first_epoch = record {
  epoch = 255;
  send_cipher = old_key;
  recv_cipher = old_key;
  start_seq = 2;
  started_at = 0;
  retire_after = 0;
}

abbrev epochs : EpochState
epochs = record { cur = first_epoch; prev = none }

abbrev pub datagrams : Session (List ℕ)
datagrams = record sender { dgram_epochs = some epochs }

abbrev datagram_receiver : Session (List ℕ)
datagram_receiver = record receiver { dgram_epochs = some epochs }

advance_datagram_epoch-retains_example :
    (s' : Session (List ℕ)) × (s'' : Session (List ℕ)) × (advance_datagram_epoch toy 10 datagrams
        (replicate 32 1)
      ≡ (s', ok 0))
    × (advance_datagram_epoch toy 20 s' (replicate 32 2) ≡ (s'', ok 1))
    × ((now seq : ℕ) (c aad : List ℕ)
        → (datagram_open toy now s' 255 seq c aad).1 ≡ (
            if ltb now 30_000_000_010
            then (datagram_open toy now datagrams 255 seq c aad).1
            else err authentication_failed))
    × ((now seq : ℕ) (c aad : List ℕ)
        → (datagram_open toy now s'' 255 seq c aad).1 ≡ err authentication_failed)
advance_datagram_epoch-retains_example =
    advance_datagram_epoch-retains toy toy-IsLawful 10 20 datagrams epochs (replicate 32 1)
      (replicate 32 2) refl (omega arith) toy-IsUsable refl refl

datagram_seal_strands_example :
    (datagram_seal toy 10 datagrams [] 1 (7 ∷ []) ≡ (datagrams, err nonce_exhausted))
    × ((c : List ℕ) × (seal_record toy (some old_key) (1 ∷ 2 ∷ 3 ∷ 4 ∷ []) 2 1 (7 ∷ []) ≡ ok c))
datagram_seal_strands_example =
    datagram_seal_strands toy 10 datagrams epochs [] (7 ∷ []) 1 refl (omega arith) (omega arith)

receives : datagram_recv_cipher 10 (some epochs) 255 ≡ some old_key
unfolding datagram_recv_cipher
receives = refl

datagram_open-seal_example :
    (c : List ℕ) × (datagram_seal toy 10 datagrams (9 ∷ []) 5 (7 ∷ [])
      ≡ (record datagrams { last_activity_nanos = 10 }, ok c))
    × (datagram_open toy 10 datagram_receiver 255 5 c (9 ∷ [])
        ≡ (record datagram_receiver { last_activity_nanos = 10 }, ok (7 ∷ [])))
datagram_open-seal_example =
    datagram_open-seal toy toy-IsLawful 10 datagrams datagram_receiver epochs old_key (9 ∷ [])
      (7 ∷ []) 5 refl receives refl refl refl (omega arith) (omega arith) (omega arith)

abbrev manager : TicketManager
manager = record {
  current_key = replicate 32 1;
  previous_key = none;
  lifetime = pos 60_000_000_000;
}

still_alive : is_above (age 9_000_000_000 5) (pos 60_000_000_000) ≡ false
unfolding age
still_alive = refl

resume-export_ticket_example :
    (sealed : List ℕ) × (export_ticket toy sender manager ≡ ok sealed)
    × (resume toy 9_000_000_000 receiver sealed manager
        ≡ (record receiver { cipher_suite = 1 }, ok (replicate 32 8)))
resume-export_ticket_example =
    resume-export_ticket toy 9_000_000_000 sender receiver manager (replicate 32 8) toy-IsLawful
      refl refl refl toy-IsUsable (omega arith) (omega arith) refl still_alive

activate_rekey_send-close_example :
    ((activate_rekey_send 7 (close sender)).state ≡ established)
    × ((activate_rekey_send 7 (close sender)).send_cipher ≡ some new_key)
activate_rekey_send-close_example = activate_rekey_send-close 7 sender new_key refl

needs_rekey-activate_rekey_send_example : needs_rekey 8 (activate_rekey_send 7 sender) ≡ true
needs_rekey-activate_rekey_send_example =
    needs_rekey-activate_rekey_send 7 8 sender new_key refl refl
